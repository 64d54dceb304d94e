-- ===== src/Bridge/Access.antt =====
-- src/hermes_link/integrations/hermes_agent/bridge.py: who may call the facade, for which profiles,
-- and the bodies that it reads itself. The process environment is a record.
use hermes_link_server.Prelude.{
  ℕ, ◌*◌, Text, text, text_eq, strip, contains, is_empty, all, is_profile_id, length, String, Bool,
  true, not, ◌&&◌, ◌||◌, ltb, keep, take, Option, none, some, List, [], ◌∷◌, ◌++◌, if◌then◌else◌,
}
use hermes_link_server.Json.{
  Json, null, obj, ℤ, pos, negsuc, Fields, JsonText, document, malformed, get_or, text_or_empty,
}
use hermes_link_server.Pairing.Store.{Db, device_profile_ids}
use hermes_link_server.Attachments.{ChatAttachmentError}
use hermes_link_server.Adapter.Headers.{
  RequestHeaders, Result, ok, err, bearer_token, is_device, server_agent_token,
  prepare_agent_headers,
}

-- What the handlers read outside the request: the environment variables, and the names in the
-- profiles directory, sorted, with whether they are directories; none where it cannot be listed.
pub record Environment : Type 0 where
  pub agent_token : Text
  pub mobile_token : Text
  pub profile_ids : List Text
  pub profile_entries : Option (List (Text × Bool))

-- the loop over `HERMES_LINK_PROFILE_IDS.split(",")`
unfoldable pub configured_profiles : List Text → List Text → List Text
unfolding strip contains
configured_profiles found [] = found
configured_profiles found (value ∷ values) =
    let profile_id = strip value in
    let skipped = configured_profiles found values in
    let added = configured_profiles (found ++ profile_id ∷ []) values in
    if not (is_empty profile_id) && is_profile_id profile_id && not (contains profile_id found)
    then added
    else skipped

abbrev is_candidate : Text × Bool → Bool
is_candidate (name, is_dir) = is_dir && not (text_eq name (text "default")) && is_profile_id name

abbrev names_of : List (Text × Bool) → List Text
names_of [] = []
names_of ((name, _) ∷ rest) = name ∷ names_of rest

unfoldable pub directory_profiles : Option (List (Text × Bool)) → List Text
unfolding text text_eq
directory_profiles none = text "default" ∷ []
directory_profiles (some entries) = text "default" ∷ names_of (keep is_candidate entries)

abbrev pub or_profiles : List Text → List Text → List Text
or_profiles [] ps = ps
or_profiles (q ∷ qs) ps = q ∷ qs

-- `discover_profile_ids`
unfoldable pub discover_profile_ids : Environment → List Text
unfolding configured_profiles directory_profiles
discover_profile_ids env =
    or_profiles (configured_profiles [] env.profile_ids) (directory_profiles env.profile_entries)

-- What a comparison with the token of the Server gives, and what a handler knows of the caller: not
-- authorized, authorized with a value, or a TypeError that no handler catches.
pub data Access {ℓ} (Granted : Type ℓ) : Type ℓ where
  denied crashed : Access Granted
  granted : Granted → Access Granted

-- `str.isascii`
unfoldable pub is_ascii : Text → Bool
is_ascii s = all (λ c. ltb c 128) s

-- `hmac.compare_digest(token, expected)` behind the two length checks; on a text that is not ASCII
-- it raises TypeError
unfoldable pub compare_server_token : Text → Text → Access {0} Unit
unfolding text_eq is_ascii
compare_server_token expected token =
    if ltb (length expected) 8 || is_empty token
    then denied
    else if not (is_ascii token && is_ascii expected)
    then crashed
    else if text_eq token expected
    then granted tt
    else denied

abbrev pub allowed_profiles : List Text → Option (List Text) → Access (List Text)
allowed_profiles visible none = denied
allowed_profiles visible (some ps) = granted (or_profiles ps visible)

abbrev pub all_profiles : List Text → Access {0} Unit → Access (List Text)
all_profiles visible denied = denied
all_profiles visible crashed = crashed
all_profiles visible (granted tt) = granted visible

-- A response that a handler sends: a status, and an error body with its message and code or with
-- its message alone; a 400 with the error of an attachment; or a 200 with a value. Or no response,
-- because of an exception that the handler does not catch.
pub data Answer : Type 0 where
  uncaught_error : Answer
  failed : ℕ → String → String → Answer
  refused : ℕ → String → Answer
  attachment_refused : ChatAttachmentError → Answer
  answered : Json → Answer

-- The body of a request, as far as the handlers look at it: the value of the Content-Length
-- header under `int`, where it has one, and the document that the read bytes hold.
pub record Body : Type 0 where
  pub content_length : Option ℤ
  pub content : JsonText

-- `content_length < 0 or content_length > limit`
unfoldable pub is_too_long : ℕ → ℤ → Bool
is_too_long limit (pos n) = ltb limit n
is_too_long limit (negsuc n) = true

pub data Read : Type 0 where
  payload_of : Fields → Read
  answer_with : Answer → Read

cloud_content : JsonText → Read
cloud_content (document (obj fs)) = payload_of fs
cloud_content (document _) =
    answer_with (failed 400 "Cloud payload must be an object" "cloud_request_invalid")
cloud_content malformed = answer_with (failed 400 "Invalid Cloud JSON" "cloud_request_invalid")

-- `_read_local_json`
unfoldable pub read_local_json : Body → Read
unfolding is_too_long cloud_content
read_local_json body = elim body.content_length [
  | none ↦ answer_with (failed 400 "Invalid Content-Length" "cloud_request_invalid")
  | some n ↦
      if is_too_long (16 * 1024) n
      then answer_with (failed 413 "Cloud payload is too large" "cloud_request_invalid")
      else cloud_content body.content
]

module _ (sha256 unquote : Text → Text) (env : Environment) where
  -- `_cloud_control_profiles`
  unfoldable pub cloud_control_profiles : RequestHeaders → ℕ → Db → Access (List Text) × Db
  unfolding compare_server_token
  cloud_control_profiles headers now db =
      let token = bearer_token headers in
      if is_device token
      then (let (profiles, db') = device_profile_ids sha256 token now db in
          (allowed_profiles (discover_profile_ids env) profiles, db'))
      else (
        all_profiles (discover_profile_ids env)
            (compare_server_token (server_agent_token env.mobile_token env.agent_token) token),
        db,
      )

  visible_of : Access (List Text) → Access (List Text)
  visible_of denied = denied
  visible_of crashed = crashed
  visible_of (granted []) = granted (discover_profile_ids env)
  visible_of (granted (p ∷ ps)) =
      granted (keep (λ q. contains q (discover_profile_ids env)) (p ∷ ps))

  -- `_direct_notification_profiles`
  unfoldable pub direct_notification_profiles : RequestHeaders → ℕ → Db → Access (List Text) × Db
  unfolding visible_of contains
  direct_notification_profiles headers now db =
      let (authorized, db') = cloud_control_profiles headers now db in (visible_of authorized, db')

  abbrev access_answer : Access {0} Unit → Option Answer
  access_answer denied = some (
      failed 401 "Hermes Link model configuration authorization failed" "model_config_unauthorized")
  access_answer crashed = some uncaught_error
  access_answer (granted tt) = none

  -- `_authorize_model_config`: none where the request is authorized, or the answer
  unfoldable pub model_access : RequestHeaders → Result (List (String × Text)) → Option Answer
  unfolding compare_server_token
  model_access headers (err e) = some (failed e.status e.message e.code)
  model_access headers (ok _) =
      let token = bearer_token headers in
      if is_device token
      then none
      else access_answer
          (compare_server_token (server_agent_token env.agent_token env.mobile_token) token)

  unfoldable pub authorize_model_config : RequestHeaders → Text → ℕ → Db → Option Answer × Db
  unfolding model_access
  authorize_model_config headers protocol_path now db =
      let (r, db') =
        prepare_agent_headers sha256 unquote headers protocol_path
          (server_agent_token env.agent_token env.mobile_token) now db in
      (model_access headers r, db')

  -- the snapshot of a profile: no file, an error of reading or parsing it, or its JSON value
  abbrev model_text : ℕ → String → Fields → Text
  model_text limit name fs = take limit (strip (text_or_empty (get_or name null fs)))
