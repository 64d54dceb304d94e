-- ===== src/Notifications/Direct.antt =====
-- src/hermes_link/notifications/direct.py: `DirectNotificationStore`. Each method is one locked
-- transaction; `now` stands for `time.time()`. `payload_json` is modelled by the event that it
-- encodes.
pub mod Prune
pub mod Publish
pub mod Redelivery
pub mod Paging
use hermes_link_server.Prelude.{
  ℕ, suc, ◌+◌, Text, text, text_eq, strip, contains, is_empty, Bool, true, false, not, ◌&&◌, ◌||◌,
  ◌==◌, ltb, leb, Option, none, some, List, [], ◌∷◌, ◌++◌, any, find, keep, take, length,
  if◌then◌else◌,
}
use Prim.Native.Nat.{min, max}
use hermes_link_server.Json.{Json}
use hermes_link_server.Notifications.Floats.{Floats}
use hermes_link_server.Notifications.Events.{
  EventError, value_error, Event, Result, ok, err, ◌>>=◌, validate_event, is_identifier,
}

module _ (F : Floats) where
  open F use {Real, before, is_nan}

  -- a row of direct_events, in the order of `sequence`
  pub record Row : Type 0 where
    pub sequence : ℕ
    pub created_at : Real
    pub event : Event F

  -- `issued` is the AUTOINCREMENT counter: the largest sequence that was ever given out.
  pub record Store : Type 0 where
    pub retention_seconds : ℕ
    pub max_events : ℕ
    pub rows : List Row
    pub issued : ℕ

  -- `__init__` on a new database
  unfoldable pub new_store : ℕ → ℕ → Store
  new_store retention_seconds max_events = record {
    retention_seconds = max 60 retention_seconds;
    max_events = max 1 max_events;
    rows = [];
    issued = 0;
  }

  -- `WHERE event_id = ? OR dedupe_key = ?`
  abbrev pub collides : Event F → Row → Bool
  collides e r = text_eq r.event.event_id e.event_id || text_eq r.event.dedupe_key e.dedupe_key

  -- `DELETE … WHERE created_at < now - retention_seconds` keeps these.
  abbrev pub is_recent : Real → ℕ → Row → Bool
  is_recent now retention r = not (before r.created_at now retention)

  -- `ORDER BY sequence DESC LIMIT 1 OFFSET k`: the row that k rows follow
  pub newest_offset : ℕ → List Row → Option ℕ
  newest_offset k [] = none
  newest_offset k (r ∷ rs) = if length rs == k then some r.sequence else newest_offset k rs

  pub drop_through : Option ℕ → List Row → List Row
  drop_through none rs = rs
  drop_through (some p) rs = keep (λ r. ltb p r.sequence) rs

  -- `_prune`
  pub prune : ℕ → ℕ → Real → List Row → List Row
  unfolding newest_offset drop_through
  prune retention max_events now rs =
      let recent = keep (is_recent now retention) rs in
      drop_through (newest_offset max_events recent) recent

  pub stamped : Event F → Real → Event F × Real
  stamped e now = elim e.created_at [
    | none ↦ (record e { created_at = some now }, now)
    | some t ↦ (e, t)
  ]

  -- the SELECT after an IntegrityError; without a row the error is raised again
  pub existing : Option Row → Result Row
  existing none = err (value_error "IntegrityError")
  existing (some r) = ok r

  -- A row that breaks UNIQUE, or NOT NULL on `created_at`, since SQLite stores not-a-number as NULL,
  -- is an IntegrityError.
  pub insert_event : Event F × Real → Store → Result Row × Store
  unfolding existing prune
  insert_event (event, created) s =
      let row : Row = record { sequence = s.issued + 1; created_at = created; event = event } in
      if any (collides event) s.rows || is_nan created
      then (existing (find (collides event) s.rows), s)
      else (
        ok row,
        record s {
          rows = prune s.retention_seconds s.max_events created (s.rows ++ row ∷ []);
          issued = s.issued + 1;
        },
      )

  pub publish_checked : Result (Event F) → Real → Store → Result Row × Store
  unfolding insert_event stamped
  publish_checked (err e) now s = (err e, s)
  publish_checked (ok event) now s = insert_event (stamped event now) s

  -- `publish`: the event with its sequence, which is that of the stored row
  unfoldable pub publish : Json → Real → Store → Result Row × Store
  unfolding publish_checked
  publish payload now s = publish_checked (validate_event F payload) now s

  -- `max(1, min(limit, 500))`
  abbrev pub bounded : ℕ → ℕ
  bounded limit = max 1 (min limit 500)

  -- `read_after`
  unfoldable pub read_after : Text → ℕ → ℕ → Store → Result (List Row)
  unfolding strip
  read_after profile_id sequence limit s =
      let profile = strip profile_id in
      if is_empty profile
      then err (value_error "profile_id is required")
      else ok (
          take (bounded limit)
            (keep (λ r. text_eq r.event.profile_id profile && ltb sequence r.sequence) s.rows))

  -- the loop over `profile_ids`
  unfoldable pub collect_profiles : List Text → List Text → Result (List Text)
  collect_profiles profiles [] = ok profiles
  collect_profiles profiles (value ∷ values) =
      let profile_id = strip value in
      let skipped = collect_profiles profiles values in
      let added = collect_profiles (profiles ++ profile_id ∷ []) values in
      if is_empty profile_id || contains profile_id profiles
      then skipped
      else if is_identifier profile_id
      then added
      else err (value_error "profile_id is invalid")

  unfoldable pub required_profiles : List Text → Result (List Text)
  required_profiles [] = err (value_error "at least one profile_id is required")
  required_profiles (p ∷ ps) = ok (p ∷ ps)

  -- the profiles of a request
  unfoldable pub requested : List Text → Result (List Text)
  unfolding collect_profiles required_profiles
  requested profile_ids = do profiles ← collect_profiles [] profile_ids; required_profiles profiles

  unfoldable pub checked_cursor : Text → Result Text
  checked_cursor event_id =
      let cursor = strip event_id in
      if not (is_empty cursor) && not (is_identifier cursor)
      then err (value_error "event_id is invalid")
      else ok cursor

  unfoldable pub sequence_of : Option Row → ℕ
  sequence_of none = 0
  sequence_of (some r) = r.sequence

  -- The sequence to read after: 0 for an empty or an unknown cursor.
  unfoldable pub cursor_sequence : Text → List Row → ℕ
  unfolding sequence_of
  cursor_sequence cursor rs =
      if is_empty cursor then 0 else sequence_of (find (λ r. text_eq r.event.event_id cursor) rs)

  -- `WHERE profile_id IN (…) AND sequence > ?`
  abbrev pub is_wanted : List Text → ℕ → Row → Bool
  is_wanted profiles sequence r = contains r.event.profile_id profiles && ltb sequence r.sequence

  -- `read_after_event_id`
  unfoldable pub read_after_event_id : List Text → Text → ℕ → Store → Result (List Row)
  unfolding requested checked_cursor cursor_sequence strip
  read_after_event_id profile_ids event_id limit s = do
    profiles ← requested profile_ids
    cursor ← checked_cursor event_id
    ok (take (bounded limit) (keep (is_wanted profiles (cursor_sequence cursor s.rows)) s.rows))
