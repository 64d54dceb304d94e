-- ===== src/Notifications/Direct/Publish.antt =====
-- `publish`: the invariant of the store, deduplication, and that the new event is kept.
use hermes_link_server.Prelude.{
  ℕ, ◌+◌, ◌≤◌, Text, text_eq, ◌≡◌, refl, ◌∙◌, Bool, false, ltb, Option, none, some, List, [], ◌∷◌,
  ◌++◌, arith, any, keep, length, All, All-append, Bool-cases, inl, inr, any-append,
}
use hermes_link_server.Prelude.Words.{text_eq_sym}
use hermes_link_server.Json.{Json}
use hermes_link_server.Notifications.Floats.{Floats}
use hermes_link_server.Notifications.Events.{Event, Result, ok, err, validate_event}
use hermes_link_server.Notifications.Direct.{
  Row, Store, new_store, collides, is_recent, newest_offset, drop_through, prune, stamped,
  insert_event, publish_checked, publish,
}
use hermes_link_server.Notifications.Direct.Prune.{
  All-keep, any-keep, Rising, Rising-keep, Rising-snoc, drop_through-le,
}

module _ {ℓ} {A : Type ℓ} (f : A → Text) where
  -- No two entries have the same text.
  abbrev pub UniqueBy : List A → Type 0
  UniqueBy [] = Unit
  UniqueBy (x ∷ xs) = (any (λ y. text_eq (f y) (f x)) xs ≡ false) × UniqueBy xs

  pub UniqueBy-keep : (p : A → Bool) (xs : List A) → UniqueBy xs → UniqueBy (keep p xs)
  UniqueBy-keep p [] u = tt
  UniqueBy-keep p (x ∷ xs) (new, u) = elim (Bool-cases (p x)) [
    | inl kept ↦ rw kept (any-keep p (λ y. text_eq (f y) (f x)) xs new, UniqueBy-keep p xs u)
    | inr dropped ↦ rw dropped (UniqueBy-keep p xs u)
  ]

  pub UniqueBy-snoc :
      (xs : List A) (x : A)
      → UniqueBy xs
      → any (λ y. text_eq (f y) (f x)) xs ≡ false
      → UniqueBy (xs ++ x ∷ [])
  UniqueBy-snoc [] x u h = (refl, tt)
  UniqueBy-snoc (y ∷ ys) x (new, u) h = (
    any-append (λ z. text_eq (f z) (f y)) ys (x ∷ []) ∙ ground (arith, text_eq_sym (f x) (f y)),
    UniqueBy-snoc ys x u (ground arith),
  )

module _ (F : Floats) where
  open F use {Real, before, before_irrefl}

  abbrev pub row_id : Row F → Text
  row_id r = r.event.event_id

  abbrev pub row_key : Row F → Text
  row_key r = r.event.dedupe_key

  -- Sequences rise and were all given out, ids and dedupe keys are unique, and the store holds at
  -- most `max_events` rows.
  pub record IsOrdered (s : Store F) : Type 0 where
    pub rising : Rising F 0 s.rows
    pub given : All (λ (r : Row F). r.sequence ≤ s.issued) s.rows
    pub ids : UniqueBy row_id s.rows
    pub dedupe_keys : UniqueBy row_key s.rows
    pub room : 1 ≤ s.max_events
    pub bounded_rows : length s.rows ≤ s.max_events

  pub new_store-IsOrdered : (retention most : ℕ) → IsOrdered (new_store F retention most)
  unfolding new_store
  new_store-IsOrdered retention most = record {
    rising = tt;
    given = tt;
    ids = tt;
    dedupe_keys = tt;
    room = omega arith;
    bounded_rows = omega arith;
  }

  module _ {ℓ} (P : List (Row F) → Type ℓ)
      (closed : (p : Row F → Bool) (rs : List (Row F)) → P rs → P (keep p rs)) where
    drop_through-closed : (o : Option ℕ) (rs : List (Row F)) → P rs → P (drop_through F o rs)
    unfolding drop_through
    drop_through-closed none rs h = h
    drop_through-closed (some p) rs h = closed (λ r. ltb p r.sequence) rs h

    -- What a filter keeps true, `_prune` keeps true.
    prune-closed :
        (retention most : ℕ) (now : Real) (rs : List (Row F))
        → P rs
        → P (prune F retention most now rs)
    unfolding prune
    prune-closed retention most now rs h =
        drop_through-closed (newest_offset F most (keep (is_recent F now retention) rs)) _
          (closed (is_recent F now retention) rs h)

  length-prune-le :
      (retention most : ℕ) (now : Real) (rs : List (Row F))
      → Rising F 0 rs
      → length (prune F retention most now rs) ≤ most
  unfolding prune
  length-prune-le retention most now rs h =
      drop_through-le F most 0 _ (Rising-keep F (is_recent F now retention) 0 rs h)

  given-weaken :
      (n : ℕ) (rs : List (Row F))
      → All (λ (r : Row F). r.sequence ≤ n) rs
      → All (λ (r : Row F). r.sequence ≤ n + 1) rs
  given-weaken n [] h = tt
  given-weaken n (r ∷ rs) (le, h) = (omega arith, given-weaken n rs h)

  no_id :
      (e : Event F) (rs : List (Row F))
      → any (collides F e) rs ≡ false
      → any (λ r. text_eq (row_id r) e.event_id) rs ≡ false
  no_id e [] h = refl
  no_id e (r ∷ rs) h = ground (arith, no_id e rs)

  no_key :
      (e : Event F) (rs : List (Row F))
      → any (collides F e) rs ≡ false
      → any (λ r. text_eq (row_key r) e.dedupe_key) rs ≡ false
  no_key e [] h = refl
  no_key e (r ∷ rs) h = ground (arith, no_key e rs)

  abbrev pub new_row : Event F → Real → Store F → Row F
  new_row e created s = record { sequence = s.issued + 1; created_at = created; event = e }

  abbrev pub with_row : Event F → Real → Store F → Store F
  with_row e created s = record s {
    rows = prune F s.retention_seconds s.max_events created (s.rows ++ new_row e created s ∷ []);
    issued = s.issued + 1;
  }

  pub with_row-IsOrdered :
      (e : Event F) (created : Real) (s : Store F)
      → IsOrdered s
      → any (collides F e) s.rows ≡ false
      → IsOrdered (with_row e created s)
  with_row-IsOrdered e created s o fresh =
      let row = new_row e created s in
      let rising =
        Rising-snoc F 0 s.issued s.rows row o.rising o.given (omega arith) (omega arith) in
      record {
        rising = prune-closed (Rising F 0) (λ p rs. Rising-keep F p 0 rs) _ _ created _ rising;
        given =
            prune-closed (All (λ (r : Row F). r.sequence ≤ s.issued + 1)) (All-keep _) _ _ created _
              (All-append _ s.rows (row ∷ []) (given-weaken s.issued s.rows o.given)
                (omega arith, tt));
        ids =
            prune-closed (UniqueBy row_id) (UniqueBy-keep row_id) _ _ created _
              (UniqueBy-snoc row_id s.rows row o.ids (no_id e s.rows fresh));
        dedupe_keys =
            prune-closed (UniqueBy row_key) (UniqueBy-keep row_key) _ _ created _
              (UniqueBy-snoc row_key s.rows row o.dedupe_keys (no_key e s.rows fresh));
        room = o.room;
        bounded_rows = length-prune-le s.retention_seconds s.max_events created _ rising;
      }

  insert_event-IsOrdered :
      (e : Event F) (created : Real) (s : Store F)
      → IsOrdered s
      → IsOrdered (insert_event F (e, created) s).1
  unfolding insert_event
  insert_event-IsOrdered e created s o = elim (Bool-cases (any (collides F e) s.rows)) [
    | inl taken ↦ rw taken o
    | inr fresh ↦ elim (Bool-cases (F.is_nan created)) [
      | inl nan ↦ rw (fresh, nan) o
      | inr number ↦ rw (fresh, number) (with_row-IsOrdered e created s o fresh)
    ]
  ]

  publish_checked-IsOrdered :
      (r : Result (Event F)) (now : Real) (s : Store F)
      → IsOrdered s
      → IsOrdered (publish_checked F r now s).1
  unfolding publish_checked
  publish_checked-IsOrdered (err f) now s o = o
  publish_checked-IsOrdered (ok e) now s o =
      insert_event-IsOrdered (stamped F e now).0 (stamped F e now).1 s o

  -- Whatever the payload and the clock, `publish` keeps the sequences rising and below the
  -- AUTOINCREMENT counter, the event ids and the dedupe keys unique, and the number of rows within
  -- `max_events`.
  pub publish-IsOrdered :
      (payload : Json) (now : Real) (s : Store F)
      → IsOrdered s
      → IsOrdered (publish F payload now s).1
  unfolding publish
  publish-IsOrdered payload now s o = publish_checked-IsOrdered (validate_event F payload) now s o
