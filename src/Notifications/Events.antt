-- ===== src/Notifications/Events.antt =====
-- src/hermes_link/notifications/events.py: Event Protocol v1 validation.
pub mod Identifiers
pub mod Laws
use package.text.Mathlib.Text.{◌==◌ as str_eq}
use hermes_link_server.Prelude.{
  ℕ, Text, text, text_eq, strip, full_match, is_name_char, is_empty, String, Bool, true, false, not,
  ◌&&◌, ◌||◌, ◌==◌, Option, none, some, List, [], ◌∷◌, any, if◌then◌else◌,
}
use hermes_link_server.Json.{
  Json, null, bool, int, float, str, arr, obj, Fields, end, field, get, get_or, keys, to_text,
}
use hermes_link_server.Notifications.Floats.{Floats}

-- ValueError with its message, or what `float()` raises.
pub data EventError : Type 0 where
  value_error : String → EventError
  field_invalid : String → EventError
  not_a_float : EventError

pub data Result {ℓ} (A : Type ℓ) : Type ℓ where
  ok : A → Result A
  err : EventError → Result A

infixl 5 ◌>>=◌
abbrev pub ◌>>=◌ {ℓ κ} : {A : Type ℓ} {B : Type κ} → Result A → (A → Result B) → Result B
ok a >>= f = f a
err e >>= f = err e

-- `IDENTIFIER`: `^[A-Za-z0-9._:-]{1,160}$`
unfoldable pub is_identifier_char : ℕ → Bool
unfolding is_name_char
is_identifier_char c = is_name_char c || c == b':'

unfoldable pub is_identifier : Text → Bool
unfolding full_match is_identifier_char
is_identifier s = full_match is_identifier_char 1 160 s

-- `FORBIDDEN_FIELDS`
unfoldable pub is_forbidden : String → Bool
is_forbidden k =
    str_eq k "prompt"
    || str_eq k "messages"
    || str_eq k "response"
    || str_eq k "full_response"
    || str_eq k "api_token"
    || str_eq k "push_token"
    || str_eq k "private_key"
    || str_eq k "credentials"
    || str_eq k "click_url"
    || str_eq k "command"
    || str_eq k "file_path"

unfoldable pub is_chat : Text → Bool
is_chat t = text_eq t (text "chat.completed")

-- `ALLOWED_EVENT_TYPES`
unfoldable pub is_event_type : Text → Bool
unfolding is_chat
is_event_type t = is_chat t || text_eq t (text "job.completed") || text_eq t (text "job.failed")

-- `str(payload.get(name, "")).strip()`
unfoldable pub field_text : String → Fields → Text
unfolding get_or to_text strip
field_text name payload = strip (to_text (get_or name (str []) payload))

unfoldable pub checked_identifier : String → Bool → Text → Result Text
checked_identifier name required value =
    if is_empty value && not required
    then ok []
    else if is_identifier value
    then ok value
    else err (field_invalid name)

-- `_identifier`
unfoldable pub identifier : String → Bool → Fields → Result Text
unfolding checked_identifier
identifier name required payload = checked_identifier name required (field_text name payload)

module _ (F : Floats) where
  open F use {Real, of_json, to_json}

  -- The dictionary of a validated event; a chat event has no `job_id`.
  pub record Event : Type 0 where
    pub event_id : Text
    pub event_type : Text
    pub profile_id : Text
    pub run_id : Text
    pub dedupe_key : Text
    pub job_id : Option Text
    pub session_id : Text
    pub created_at : Option Real

  pub converted : Option Real → Result (Option Real)
  converted none = err not_a_float
  converted (some r) = ok (some r)

  unfoldable pub created_of : Option Json → Result (Option Real)
  unfolding converted
  created_of none = ok none
  created_of (some v) = converted (of_json v)

  -- `job_id` and `session_id`, by the type of the event
  unfoldable pub subject_of : Bool → Fields → Result (Option Text × Text)
  subject_of true payload = do
    session_id ← identifier "session_id" true payload
    ok (none, session_id)
  subject_of false payload = do
    job_id ← identifier "job_id" true payload
    session_id ← identifier "session_id" false payload
    ok (some job_id, session_id)

  unfoldable pub fields_of : Text → Fields → Result Event
  fields_of event_type payload = do
    event_id ← identifier "event_id" true payload
    profile_id ← identifier "profile_id" true payload
    run_id ← identifier "run_id" false payload
    dedupe_key ← identifier "dedupe_key" true payload
    subject ← subject_of (is_chat event_type) payload
    created_at ← created_of (get "created_at" payload)
    ok (record {
      event_id = event_id;
      event_type = event_type;
      profile_id = profile_id;
      run_id = run_id;
      dedupe_key = dedupe_key;
      job_id = subject.0;
      session_id = subject.1;
      created_at = created_at;
    })

  unfoldable pub validate_event : Json → Result Event
  unfolding fields_of subject_of created_of
  validate_event (obj payload) =
      let event_type = field_text "event_type" payload in
      if any is_forbidden (keys payload)
      then err (value_error "event contains forbidden sensitive fields")
      else if is_event_type event_type
      then fields_of event_type payload
      else err (value_error "event_type is not allowed")
  validate_event _ = err (value_error "event must be an object")

  created_fields : Option Real → Fields
  created_fields none = end
  created_fields (some r) = field "created_at" (to_json r) end

  job_fields : Option Text → Fields → Fields
  job_fields none rest = rest
  job_fields (some j) rest = field "job_id" (str j) rest

  object_fields : Event → Fields
  unfolding created_fields job_fields
  object_fields e =
      (field "event_id" (str e.event_id) (
        field "event_type" (str e.event_type) (
          field "profile_id" (str e.profile_id) (
            field "run_id" (str e.run_id) (
              field "dedupe_key" (str e.dedupe_key) (
                job_fields e.job_id
                  (field "session_id" (str e.session_id) (created_fields e.created_at))))))))

  -- The event as the JSON object that is stored and sent.
  unfoldable pub to_object : Event → Json
  unfolding object_fields
  to_object e = obj (object_fields e)
