-- ===== src/Bridge/Upstream/Event.antt =====
-- The event of a completed chat, in the eyes of the notification store.
use hermes_link_server.Prelude.{
  ◌+◌, ◌≤◌, ◌<◌, Text, text, text_eq, ◌≡◌, refl, ◌∙◌, true, false, none, some, [], ◌∷◌, ◌++◌, arith,
  any, strip, all, all-append, length, length-append, full_match, is_alnum, is_name_char,
  is_profile_id,
}
use hermes_link_server.Prelude.Words.{strip-no_space}
use hermes_link_server.Json.{Fields, str, obj, get, get_or, keys}
use hermes_link_server.Notifications.Floats.{Floats}
use hermes_link_server.Notifications.Events.{
  Event, Result, ok, err, field_invalid, is_identifier, is_identifier_char, validate_event,
  is_event_type, is_forbidden, field_text, checked_identifier, identifier, is_chat, fields_of,
  subject_of, created_of, ◌>>=◌,
}
use hermes_link_server.Notifications.Events.Identifiers.{
  no_space-identifier, identifier_again, optional_again,
}
use hermes_link_server.Bridge.Models.{completed_fields}

-- The documented form of `uuid.uuid4().hex`, as far as it is used: 32 letters and digits.
abbrev pub IsHex : Text → Type 0
IsHex s = (all is_alnum s ≡ true) × (length s ≡ 32)

alnum_chars : (s : Text) → all is_alnum s ≡ true → all is_identifier_char s ≡ true
unfolding is_identifier_char is_name_char
alnum_chars [] h = refl
alnum_chars (c ∷ s) h = ground (arith, alnum_chars s)

name_chars : (s : Text) → all is_name_char s ≡ true → all is_identifier_char s ≡ true
unfolding is_identifier_char
name_chars [] h = refl
name_chars (c ∷ s) h = ground (arith, name_chars s)

is_identifier_of :
    (s : Text)
    → all is_identifier_char s ≡ true
    → 1 ≤ length s
    → length s ≤ 160
    → is_identifier s ≡ true
unfolding is_identifier full_match
is_identifier_of s h lo hi = ground arith

identifier_parts :
    (s : Text) → is_identifier s ≡ true → (all is_identifier_char s ≡ true) × (1 ≤ length s)
unfolding is_identifier full_match
identifier_parts s h = ground arith

profile-is_identifier : (s : Text) → is_profile_id s ≡ true → is_identifier s ≡ true
unfolding is_profile_id full_match is_identifier
profile-is_identifier s h = ground (arith, name_chars s)

prefixed :
    (p s : Text)
    → all is_identifier_char p ≡ true
    → all is_identifier_char s ≡ true
    → all is_identifier_char (p ++ s) ≡ true
prefixed p s h k = all-append is_identifier_char p s ∙ ground arith

prefixes_safe :
    (all is_identifier_char (text "evt_") ≡ true)
    × (all is_identifier_char (text "run_") ≡ true)
    × (all is_identifier_char (text "chat:") ≡ true)
    × (all is_identifier_char (text ":") ≡ true)
unfolding is_identifier_char is_name_char is_alnum text
prefixes_safe = (refl, refl, refl, refl)

module _ (session run_hex event_hex : Text) (run_form : IsHex run_hex)
    (event_form : IsHex event_hex) (session_form : is_identifier session ≡ true) where
  abbrev run_id : Text
  run_id = text "run_" ++ run_hex

  abbrev event_id : Text
  event_id = text "evt_" ++ event_hex

  abbrev dedupe_key : Text
  dedupe_key = text "chat:" ++ (session ++ (text ":" ++ run_id))

  run_chars : (all is_identifier_char run_id ≡ true) × (length run_id ≡ 36)
  unfolding text
  run_chars = (
    prefixed (text "run_") run_hex (prefixes_safe.1) (alnum_chars run_hex run_form.0),
    omega (arith, run_form.1),
  )

  event_chars : (all is_identifier_char event_id ≡ true) × (length event_id ≡ 36)
  unfolding text
  event_chars = (
    prefixed (text "evt_") event_hex (prefixes_safe.0) (alnum_chars event_hex event_form.0),
    omega (arith, event_form.1),
  )

  dedupe_chars :
      (all is_identifier_char dedupe_key ≡ true) × (length dedupe_key ≡ length session + 42)
  unfolding text
  dedupe_chars = (
    prefixed (text "chat:") _ (prefixes_safe.2) (
        prefixed session _ (identifier_parts session session_form).0
          (prefixed (text ":") run_id (prefixes_safe.3) run_chars.0)),
    omega (arith, length-append session (text ":" ++ run_id), run_chars.1),
  )

  event_is_identifier : is_identifier event_id ≡ true
  event_is_identifier =
      is_identifier_of event_id event_chars.0 (omega (arith, event_chars.1))
        (omega (arith, event_chars.1))

  run_is_identifier : is_identifier run_id ≡ true
  run_is_identifier =
      is_identifier_of run_id run_chars.0 (omega (arith, run_chars.1)) (omega (arith, run_chars.1))

  dedupe_is_identifier : length session ≤ 118 → is_identifier dedupe_key ≡ true
  dedupe_is_identifier h =
      is_identifier_of dedupe_key dedupe_chars.0 (omega (arith, dedupe_chars.1))
        (omega (arith, dedupe_chars.1))

  dedupe_too_long : 118 < length session → is_identifier dedupe_key ≡ false
  unfolding is_identifier full_match
  dedupe_too_long h = ground (arith, dedupe_chars.1)

  abbrev fields : Text → Fields
  fields profile = completed_fields profile session run_id event_hex

  type_of_fields :
      (profile : Text) → field_text "event_type" (fields profile) ≡ text "chat.completed"
  unfolding field_text completed_fields text get
  type_of_fields profile = refl

  allowed_fields : (profile : Text) → any is_forbidden (keys (fields profile)) ≡ false
  unfolding completed_fields is_forbidden
  allowed_fields profile = refl

  chat_type :
      (is_chat (text "chat.completed") ≡ true) × (is_event_type (text "chat.completed") ≡ true)
  unfolding is_event_type is_chat text text_eq
  chat_type = (refl, refl)

  module _ (F : Floats) (profile : Text) (profile_form : is_profile_id profile ≡ true) where
    abbrev completed_event : Event F
    completed_event = record {
      event_id = event_id;
      event_type = text "chat.completed";
      profile_id = profile;
      run_id = run_id;
      dedupe_key = dedupe_key;
      job_id = none;
      session_id = session;
      created_at = none;
    }

    fields_read :
        (identifier "event_id" true (fields profile) ≡ ok event_id)
        × (identifier "profile_id" true (fields profile) ≡ ok profile)
        × (identifier "run_id" false (fields profile) ≡ ok run_id)
        × (identifier "session_id" true (fields profile) ≡ ok session)
    unfolding completed_fields get
    fields_read = (
      identifier_again "event_id" _ event_id refl event_is_identifier,
      identifier_again "profile_id" _ profile refl (profile-is_identifier profile profile_form),
      optional_again "run_id" _ run_id refl (ground (arith, run_is_identifier)),
      identifier_again "session_id" _ session refl session_form,
    )

    strip_key : strip dedupe_key ≡ dedupe_key
    strip_key = strip-no_space dedupe_key (no_space-identifier dedupe_key dedupe_chars.0)

    key_read : get "dedupe_key" (fields profile) ≡ some (str dedupe_key)
    unfolding completed_fields get
    key_read = refl

    key_refused :
        118 < length session
        → identifier "dedupe_key" true (fields profile) ≡ err (field_invalid "dedupe_key")
    unfolding identifier field_text checked_identifier get_or
    key_refused long = rw (key_read, strip_key, dedupe_too_long long) refl

    no_created : get "created_at" (fields profile) ≡ none
    unfolding completed_fields get
    no_created = refl

    fields_of-completed :
        (key : Result Text)
        → identifier "dedupe_key" true (fields profile) ≡ key
        → fields_of F (text "chat.completed") (fields profile)
          ≡ (key >>= λ k. ok (record completed_event { dedupe_key = k }))
    unfolding fields_of subject_of created_of
    fields_of-completed key e =
        rw (fields_read.0, fields_read.1, fields_read.2, e, chat_type.0, fields_read.3, no_created)
          refl

    validate_fields :
        validate_event F (obj (fields profile))
        ≡ fields_of F (text "chat.completed") (fields profile)
    unfolding validate_event
    validate_fields = rw (type_of_fields profile, allowed_fields profile, chat_type.1) refl

    -- The notification store accepts the event of a completed chat exactly up to a session id of
    -- 118 characters: the dedupe key of a longer one has more than 160 and is refused. The profile
    -- and the session are identifiers and the drawn texts have the form of `uuid4().hex`.
    pub validate_event-completed :
        (length session ≤ 118 → validate_event F (obj (fields profile)) ≡ ok completed_event)
        × (118 < length session
            → validate_event F (obj (fields profile)) ≡ err (field_invalid "dedupe_key"))
    validate_event-completed = (
      λ short.
          validate_fields
          ∙ fields_of-completed _
              (identifier_again "dedupe_key" _ dedupe_key key_read (dedupe_is_identifier short)),
      λ long. validate_fields ∙ fields_of-completed _ (key_refused long),
    )
