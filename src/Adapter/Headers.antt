-- ===== src/Adapter/Headers.antt =====
-- src/hermes_link/integrations/hermes_agent/adapter.py: device authorization and the headers that
-- are sent to the Agent.
pub mod Laws
use package.text.Mathlib.Text.{◌==◌ as str_eq}
use hermes_link_server.Prelude.{
  ℕ, Text, text, text_eq, strip, lower, starts_with, is_empty, String, Bool, true, false, not, ◌||◌,
  ◌==◌, ltb, Option, none, some, List, [], ◌∷◌, ◌++◌, length, if◌then◌else◌,
}
use hermes_link_server.Pairing.Store.{Db, authenticate_device_token}
use hermes_link_server.Adapter.Paths.{profile_id_for_protocol_path}

-- The values that `headers.get` returns for the names that the adapter reads.
pub record RequestHeaders : Type 0 where
  pub authorization : Option Text
  pub content_type : Option Text
  pub last_event_id : Option Text
  pub session_id : Option Text

-- class DeviceAuthorizationError
pub record DeviceAuthorizationError : Type 0 where
  pub message : String
  pub status : ℕ
  pub code : String

pub data Result {ℓ} (A : Type ℓ) : Type ℓ where
  ok : A → Result A
  err : DeviceAuthorizationError → Result A

abbrev pub Headers : Type 0
Headers = List (String × Text)

forward : String → Option Text → Headers → Headers
forward name none rest = rest
forward name (some []) rest = rest
forward name (some (c ∷ s)) rest = (name, c ∷ s) ∷ rest

unfoldable pub forward_agent_headers : RequestHeaders → Headers
unfolding forward
forward_agent_headers h = forward "Authorization" h.authorization (
    forward "Content-Type" h.content_type
      (forward "Last-Event-ID" h.last_event_id (forward "X-Hermes-Session-Id" h.session_id [])))

-- `str.partition(" ")`, where the separator is found
partition_space : Text → Option (Text × Text)
partition_space [] = none
partition_space (c ∷ s) =
    let later = partition_space s in
    if c == b' '
    then some ([], s)
    else elim later [ none ↦ none | some (front, rest) ↦ some (c ∷ front, rest) ]

bearer_of : Option (Text × Text) → Text
unfolding lower strip
bearer_of none = []
bearer_of (some (scheme, token)) =
    if text_eq (lower scheme) (text "bearer") then strip token else []

bearer_of_value : Option Text → Text
unfolding partition_space bearer_of
bearer_of_value none = []
bearer_of_value (some value) = bearer_of (partition_space value)

-- `_bearer_token`
unfoldable pub bearer_token : RequestHeaders → Text
unfolding bearer_of_value
bearer_token h = bearer_of_value h.authorization

-- `forwarded[name] = value`
unfoldable pub set_header : String → Text → Headers → Headers
set_header name value [] = (name, value) ∷ []
set_header name value ((k, v) ∷ rest) =
    if str_eq k name then (k, value) ∷ rest else (k, v) ∷ set_header name value rest

abbrev pub or_else : Text → Text → Text
or_else [] t = t
or_else (c ∷ s) t = c ∷ s

-- `_server_agent_token`, of the two environment variables
unfoldable pub server_agent_token : Text → Text → Text
unfolding strip
server_agent_token agent_token mobile_token = or_else (strip agent_token) (strip mobile_token)

abbrev pub token_invalid : DeviceAuthorizationError
token_invalid = record {
  message = "Invalid or revoked Hermes Link device token";
  status = 401;
  code = "device_token_invalid";
}

abbrev pub upstream_unavailable : DeviceAuthorizationError
upstream_unavailable = record {
  message = "Server Agent API token is not configured";
  status = 503;
  code = "device_token_upstream_unavailable";
}

unfoldable pub is_device : Text → Bool
unfolding starts_with text
is_device token = starts_with (text "hmd_") token

module _ (sha256 unquote : Text → Text) where
  -- with the authenticated token, from the look-up of the upstream token on
  unfoldable pub authorized : Bool → Text → Headers → Result Headers
  unfolding set_header
  authorized false upstream forwarded = err token_invalid
  authorized true upstream forwarded =
      if ltb (length upstream) 8
      then err upstream_unavailable
      else ok (set_header "Authorization" (text "Bearer " ++ upstream) forwarded)

  -- `prepare_agent_headers`, with the Server's token for `_server_agent_token()`
  unfoldable pub prepare_agent_headers : RequestHeaders → Text → Text → ℕ → Db → Result Headers × Db
  prepare_agent_headers h protocol_path upstream now db =
      let token = bearer_token h in
      let forwarded = forward_agent_headers h in
      let profile_id = profile_id_for_protocol_path unquote protocol_path in
      if not (is_device token)
      then (ok forwarded, db)
      else if is_empty profile_id
      then (err token_invalid, db)
      else let (valid, db') = authenticate_device_token sha256 token profile_id now db in
        (authorized valid upstream forwarded, db')
