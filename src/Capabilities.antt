-- ===== src/Capabilities.antt =====
-- src/hermes_link/api/capabilities.py: the capability document. The version of the package is a
-- parameter.
use hermes_link_server.Prelude.{
  Text, text, String, Bool, true, false, Option, none, some, List, [], ◌∷◌,
}
use hermes_link_server.Json.{
  Json, null, bool, int, str, obj, ℤ, pos, Fields, end, field, get, get_or, is_truthy, value_text,
}

-- `DEFAULT_FEATURES`
abbrev pub default_features : List (String × Bool)
default_features =
    ("chat", true)
    ∷ ("sessions", true)
    ∷ ("models", true)
    ∷ ("jobs", true)
    ∷ ("cron", true)
    ∷ ("pairing", true)
    ∷ ("executionTrace", true)
    ∷ ("directNotifications", true)
    ∷ ("cloudNotifications", true)
    ∷ ("cloudMultiBinding", false)
    ∷ ("chatAttachments", true)
    ∷ []

unfoldable pub given : Option Json → Bool → Bool
unfolding is_truthy
given none enabled = enabled
given (some v) enabled = is_truthy v

-- the loop over the names of the defaults
unfoldable pub resolved_features : Fields → List (String × Bool) → Fields
unfolding given get
resolved_features features [] = end
resolved_features features ((name, enabled) ∷ rest) =
    field name (bool (given (get name features) enabled)) (resolved_features features rest)

unfoldable pub agents_or_zero : Json → ℤ
agents_or_zero (int (pos n)) = pos n
agents_or_zero _ = pos 0

abbrev text_or_default : Text → Text → Text
text_or_default [] default = default
text_or_default (c ∷ s) default = c ∷ s

unfoldable pub id_field : Option Text → Fields
id_field none = end
id_field (some []) = end
id_field (some (c ∷ s)) = field "serverId" (str (c ∷ s)) end

-- The fields of the runtime status, if it has any.
unfoldable pub runtime_fields : (Json → Text) → Fields → Fields → Fields
unfolding get_or value_text agents_or_zero is_truthy text
runtime_fields repr end rest = rest
runtime_fields repr (field k v fs) rest =
    let runtime = field k v fs in
    field "gateway_state"
      (str (
        text_or_default (value_text repr (get_or "gateway_state" null runtime))
          (text "unavailable")))
      (field "active_agents" (int (agents_or_zero (get_or "active_agents" (int (pos 0)) runtime)))
        (field "gateway_busy" (bool (is_truthy (get_or "gateway_busy" (bool false) runtime))) rest))

-- `server_info`
unfoldable pub server_info : (Json → Text) → Text → Text → Fields → Fields → Option Text → Fields
unfolding resolved_features runtime_fields id_field text
server_info repr version hermes_version features runtime server_id =
    field "serverVersion" (str version) (
      field "protocolVersion" (int (pos 1)) (
        field "hermesVersion" (str (text_or_default hermes_version (text "unknown"))) (
          field "features" (obj (resolved_features features default_features))
            (runtime_fields repr runtime (id_field server_id)))))
