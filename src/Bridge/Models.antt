-- ===== src/Bridge/Models.antt =====
-- src/hermes_link/integrations/hermes_agent/bridge.py: the model configuration of a profile, and
-- the event of a completed chat.
pub mod Laws
use hermes_link_server.Prelude.{
  ℕ, Text, text, text_eq, strip, contains, is_empty, is_profile_id, take, String, Bool, true, false,
  not, ◌||◌, Option, none, some, List, [], ◌∷◌, ◌++◌, if◌then◌else◌,
}
use hermes_link_server.Json.{
  Json, null, bool, int, float, str, arr, obj, ℤ, pos, Fields, end, field, get_or, text_or_empty,
  value_text,
}
use hermes_link_server.Pairing.Store.{Db}
use hermes_link_server.Adapter.Headers.{RequestHeaders}
use hermes_link_server.Adapter.Paths.{match_profile}
use hermes_link_server.Bridge.Access.{
  Environment, Answer, failed, answered, discover_profile_ids, authorize_model_config,
}

-- What reading the snapshot file of a profile gives: no file, an OSError or a ValueError, or the
-- JSON value in it.
pub data Snapshot : Type 0 where
  missing unreadable : Snapshot
  contents : Json → Snapshot

-- What `_read_model_config` returns or raises.
pub data ModelRead : Type 0 where
  absent broken : ModelRead
  found : Fields → ModelRead

-- `str(payload.get(name) or "").strip()[:limit]`
unfoldable pub bounded_field : (Json → Text) → ℕ → String → Fields → Text
unfolding get_or value_text strip
bounded_field repr limit name payload =
    take limit (strip (value_text repr (get_or name null payload)))

unfoldable pub integer_or_zero : Json → ℤ
integer_or_zero (int n) = n
integer_or_zero _ = pos 0

unfoldable pub model_fields : (Json → Text) → Text → Fields → Fields
unfolding bounded_field integer_or_zero get_or
model_fields repr profile_id payload = field "profile" (str profile_id) (
    field "model" (str (bounded_field repr 200 "model" payload)) (
      field "provider" (str (bounded_field repr 100 "provider" payload)) (
        field "max_tokens" (int (integer_or_zero (get_or "max_tokens" (int (pos 0)) payload))) (
          field "reasoning_effort" (str (bounded_field repr 20 "reasoning_effort" payload))
            (field "service_tier" (str (bounded_field repr 20 "service_tier" payload)) end)))))

unfoldable pub read_snapshot : (Json → Text) → Text → Snapshot → ModelRead
unfolding model_fields
read_snapshot repr profile_id missing = absent
read_snapshot repr profile_id unreadable = broken
read_snapshot repr profile_id (contents (obj payload)) =
    found (model_fields repr profile_id payload)
read_snapshot repr profile_id (contents _) = broken

-- `_read_model_config`, with the snapshot files of the directory
unfoldable pub read_model_config : (Json → Text) → (Text → Snapshot) → Text → ModelRead
unfolding read_snapshot
read_model_config repr snapshots profile_id =
    if is_profile_id profile_id
    then read_snapshot repr profile_id (snapshots profile_id)
    else absent

abbrev pub not_found : Answer
not_found = failed 404 "Hermes profile was not found" "profile_not_found"

unfoldable pub model_answer : ModelRead → Answer
model_answer absent = not_found
model_answer broken =
    failed 503 "Hermes Agent model configuration is unavailable" "model_config_unavailable"
model_answer (found fs) = answered (obj fs)

abbrev pub write_unsupported : Answer
write_unsupported =
    failed 501 "Model configuration updates are unavailable for this Hermes Agent release"
      "model_config_write_unsupported"

module _ (sha256 unquote : Text → Text) (env : Environment) (repr : Json → Text) where
  unfoldable pub id_of_match : Option (Text × Text) → Option Text
  unfolding strip text text_eq
  id_of_match none = none
  id_of_match (some (segment, rest)) =
      let profile_id = strip (unquote segment) in
      if text_eq rest (text "/models/config")
      then some (if is_profile_id profile_id then profile_id else [])
      else none

  -- `_model_config_profile_id`
  unfoldable pub model_config_profile_id : Text → Option Text
  unfolding id_of_match match_profile text text_eq
  model_config_profile_id path =
      if text_eq path (text "/hermes-link/v1/models/config")
      then some (text "default")
      else id_of_match (match_profile path)

  pub model_for : Option Answer → (Text → Snapshot) → Text → Answer
  unfolding model_answer contains
  model_for (some refusal) snapshots profile_id = refusal
  model_for none snapshots profile_id =
      if contains profile_id (discover_profile_ids env)
      then model_answer (read_model_config repr snapshots profile_id)
      else not_found

  -- `_send_model_config`
  unfoldable pub send_model_config :
      (Text → Snapshot) → RequestHeaders → Text → Text → ℕ → Db → Answer × Db
  unfolding model_for
  send_model_config snapshots headers profile_id protocol_path now db =
      let (refusal, db') = authorize_model_config sha256 unquote env headers protocol_path now db in
      (model_for refusal snapshots profile_id, db')

  write_for : Option Answer → Answer
  write_for (some refusal) = refusal
  write_for none = write_unsupported

  -- `_reject_model_config_write`
  unfoldable pub reject_model_config_write : RequestHeaders → Text → ℕ → Db → Answer × Db
  unfolding write_for
  reject_model_config_write headers protocol_path now db =
      let (refusal, db') = authorize_model_config sha256 unquote env headers protocol_path now db in
      (write_for refusal, db')

-- the dictionary of a completed chat
unfoldable pub completed_fields : Text → Text → Text → Text → Fields
unfolding text
completed_fields profile session run_id event_hex =
    field "event_id" (str (text "evt_" ++ event_hex)) (
      field "event_type" (str (text "chat.completed")) (
        field "profile_id" (str profile) (
          field "session_id" (str session) (
            field "run_id" (str run_id)
              (field "dedupe_key" (str (text "chat:" ++ (session ++ (text ":" ++ run_id)))) end)))))

-- `_chat_completed_event`, with the two texts that `uuid.uuid4().hex` draws
unfoldable pub chat_completed_event : Text → Text → Text → Text → Option Fields
unfolding strip text completed_fields
chat_completed_event profile_id session_id run_hex event_hex =
    let profile = strip profile_id in
    let session = strip session_id in
    if not (is_profile_id profile) || is_empty session
    then none
    else some (completed_fields profile session (text "run_" ++ run_hex) event_hex)
