-- ===== src/Adapter/Client.antt =====
-- src/hermes_link/integrations/hermes_agent/adapter.py: `HermesAgentAdapter` with its runtime
-- status, and the `server-info` branch of `do_GET` in bridge.py. What the Agent answers is a
-- parameter; `none` is the ValueError of the constructor, or an exception of the request, which
-- `do_GET` does not catch.
pub mod Laws
use hermes_link_server.Prelude.{
  ℕ, Text, text, text_eq, strip, rstrip, contains, length, ltb, is_empty, String, Bool, true, false,
  ◌==◌, Option, none, some, List, [], ◌∷◌, if◌then◌else◌,
}
use hermes_link_server.Json.{
  Json, null, bool, int, str, obj, ℤ, pos, Fields, end, field, get, get_or, is_truthy, value_text,
}
use hermes_link_server.Adapter.Headers.{or_else}
use hermes_link_server.Capabilities.{server_info}

unfoldable pub approved_origins : List Text
unfolding text
approved_origins =
    text "http://127.0.0.1:8642"
    ∷ text "http://localhost:8642"
    ∷ text "http://127.0.0.1:8080"
    ∷ text "http://localhost:8080"
    ∷ []

-- `HermesAgentAdapter.__init__`
unfoldable pub adapter_origin : Text → Option Text
unfolding rstrip contains approved_origins
adapter_origin base_url =
    let normalized = rstrip (λ c. c == b'/') base_url in
    if contains normalized approved_origins then some normalized else none

-- What the request for the status gives: an OSError or a ValueError, an exception that is neither,
-- such as an HTTPException or a RecursionError, no byte, or a value.
pub data AgentReply : Type 0 where
  no_reply broken_reply empty_reply : AgentReply
  replied : Json → AgentReply

unfoldable pub status_fields : Text → ℕ → Bool → Text → Fields
status_fields gateway_state active_agents gateway_busy hermes_version =
    field "gateway_state" (str gateway_state) (
      field "active_agents" (int (pos active_agents)) (
        field "gateway_busy" (bool gateway_busy) (field "hermes_version" (str hermes_version) end)))

unfoldable pub unavailable_status : Fields
unfolding text status_fields
unavailable_status = status_fields (text "unavailable") 0 false (text "unknown")

unfoldable pub agents_of : Json → ℕ
agents_of (int (pos n)) = n
agents_of _ = 0

-- `first or second`
abbrev first_true : Json → Json → Json
first_true first second = if is_truthy first then first else second

module _ (repr : Json → Text) where
  unfoldable pub gateway_state_of : Fields → Text
  unfolding text strip get_or is_truthy value_text
  gateway_state_of payload =
      or_else
        (strip (
          value_text repr (
            first_true (get_or "gateway_state" null payload)
              (first_true (get_or "status" null payload) (str (text "ready"))))))
        (text "ready")

  unfoldable pub version_of : Fields → Text
  unfolding text strip get_or is_truthy value_text
  version_of payload =
      or_else
        (strip
          (value_text repr (first_true (get_or "version" null payload) (str (text "unknown")))))
        (text "unknown")

  unfoldable pub status_of : Fields → Fields
  unfolding status_fields gateway_state_of version_of agents_of is_truthy get_or
  status_of payload =
      let active_agents = agents_of (get_or "active_agents" (int (pos 0)) payload) in
      status_fields (gateway_state_of payload) active_agents
        (is_truthy (get_or "gateway_busy" (bool (ltb 0 active_agents)) payload))
        (version_of payload)

  -- none where the exception is not caught
  unfoldable pub status_from : AgentReply → Option Fields
  unfolding status_of unavailable_status
  status_from no_reply = some unavailable_status
  status_from broken_reply = none
  status_from empty_reply = some (status_of end)
  status_from (replied (obj payload)) = some (status_of payload)
  status_from (replied _) = some unavailable_status

  -- `runtime_status`, with the token of the Server
  unfoldable pub runtime_status : Text → AgentReply → Option Fields
  unfolding status_from unavailable_status
  runtime_status token reply =
      if ltb (length token) 8 then some unavailable_status else status_from reply

  abbrev pub features_of : Option Text → Fields
  features_of none = field "cloudMultiBinding" (bool false) end
  features_of (some id) = field "cloudMultiBinding" (bool true) end

  -- the document that the branch sends
  unfoldable pub agent_info : Text → Fields → Option Text → Fields
  unfolding text value_text get_or server_info
  agent_info version runtime identity =
      server_info repr version
        (or_else (value_text repr (get_or "hermes_version" null runtime)) (text "unknown"))
        (features_of identity) runtime identity

  -- the `server-info` branch, with the Server id of the identity, where it could be read
  unfoldable pub get_server_info : Text → Text → Text → AgentReply → Option Text → Option Fields
  unfolding adapter_origin runtime_status agent_info
  get_server_info version base_url token reply identity = elim (adapter_origin base_url) [
    | none ↦ none
    | some origin ↦ elim (runtime_status token reply) [
      | none ↦ none
      | some runtime ↦ some (agent_info version runtime identity)
    ]
  ]
