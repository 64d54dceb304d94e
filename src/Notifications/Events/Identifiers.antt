-- ===== src/Notifications/Events/Identifiers.antt =====
-- The identifiers of an event, read from a payload and read again.
use hermes_link_server.Prelude.{
  ℕ, Text, text, text_eq, text_eq_sound, strip, is_empty, ◌≡◌, refl, Bool, true, false, not, ◌||◌,
  some, [], ◌∷◌, arith, all, Bool-cases, inl, inr, full_match, is_space, String,
}
use hermes_link_server.Prelude.Words.{strip-no_space}
use hermes_link_server.Json.{str, Fields, get}
use hermes_link_server.Notifications.Events.{
  ok, is_identifier_char, is_identifier, is_event_type, field_text, checked_identifier, identifier,
}

pub no_space-identifier :
    (s : Text) → all is_identifier_char s ≡ true → all (λ c. not (is_space c)) s ≡ true
no_space-identifier [] h = refl
no_space-identifier (c ∷ s) h = ground (arith, not_space c, no_space-identifier s)
  where
    not_space : (d : ℕ) → is_identifier_char d ≡ true → is_space d ≡ false
    not_space d k = unfold is_identifier_char is_space in ground arith

pub strip-identifier : (s : Text) → is_identifier s ≡ true → strip s ≡ s
unfolding is_identifier
strip-identifier s h = strip-no_space s (no_space-identifier s (unfold full_match in ground arith))

pub identifier-nonempty : (s : Text) → is_identifier s ≡ true → is_empty s ≡ false
unfolding is_identifier full_match
identifier-nonempty [] h = ground arith
identifier-nonempty (c ∷ s) h = refl

abbrev pub is_optional : Text → Bool
is_optional s = is_empty s || is_identifier s

checked_required :
    (name : String) (s v : Text) → checked_identifier name true s ≡ ok v → is_identifier v ≡ true
unfolding checked_identifier
checked_required name s v h = ground arith

checked_optional :
    (name : String) (s v : Text) → checked_identifier name false s ≡ ok v → is_optional v ≡ true
unfolding checked_identifier
checked_optional name [] v h = ground arith
checked_optional name (c ∷ s) v h = ground arith

checked_required-is_identifier :
    (name : String) (s : Text) → is_identifier s ≡ true → checked_identifier name true s ≡ ok s
unfolding checked_identifier
checked_required-is_identifier name s h = ground (arith, identifier-nonempty s h)

checked_optional-is_optional :
    (name : String) (s : Text) → is_optional s ≡ true → checked_identifier name false s ≡ ok s
unfolding checked_identifier
checked_optional-is_optional name [] h = refl
checked_optional-is_optional name (c ∷ s) h = ground arith

strip-optional : (s : Text) → is_optional s ≡ true → strip s ≡ s
strip-optional [] h = unfold strip in refl
strip-optional (c ∷ s) h = strip-identifier (c ∷ s) (ground arith)

pub identifier-required :
    (name : String) (fs : Fields) (v : Text)
    → identifier name true fs ≡ ok v
    → is_identifier v ≡ true
unfolding identifier
identifier-required name fs v h = checked_required name (field_text name fs) v h

pub identifier-optional :
    (name : String) (fs : Fields) (v : Text)
    → identifier name false fs ≡ ok v
    → is_optional v ≡ true
unfolding identifier
identifier-optional name fs v h = checked_optional name (field_text name fs) v h

-- A field whose text has been validated is validated again as it is.
pub identifier_again :
    (name : String) (fs : Fields) (s : Text)
    → get name fs ≡ some (str s)
    → is_identifier s ≡ true
    → identifier name true fs ≡ ok s
unfolding identifier field_text
identifier_again name fs s found h =
    rw (found, strip-identifier s h) (checked_required-is_identifier name s h)

pub optional_again :
    (name : String) (fs : Fields) (s : Text)
    → get name fs ≡ some (str s)
    → is_optional s ≡ true
    → identifier name false fs ≡ ok s
unfolding identifier field_text
optional_again name fs s found h =
    rw (found, strip-optional s h) (checked_optional-is_optional name s h)

pub strip-event_type : (t : Text) → is_event_type t ≡ true → strip t ≡ t
unfolding is_event_type
strip-event_type t h = elim (Bool-cases (text_eq t (text "chat.completed"))) [
  | inl chat ↦ rw (text_eq_sound t _ chat) (unfold strip text in refl)
  | inr not_chat ↦ elim (Bool-cases (text_eq t (text "job.completed"))) [
    | inl done ↦ rw (text_eq_sound t _ done) (unfold strip text in refl)
    | inr not_done ↦
        rw (text_eq_sound t (text "job.failed") (ground arith)) (unfold strip text in refl)
  ]
]
