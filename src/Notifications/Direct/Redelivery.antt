-- ===== src/Notifications/Direct/Redelivery.antt =====
-- A published event is kept, and publishing it again changes nothing.
use hermes_link_server.Prelude.{
  ℕ, ◌≤◌, ◌<◌, Text, text_eq, text_eq_refl, ◌≡◌, refl, sym, ◌∙◌, Bool, true, false, ltb, Option,
  none, some, List, [], ◌∷◌, ◌++◌, arith, any, find, keep, Bool-cases, Option-cases, inl, inr,
  any-append, find-append,
}
use hermes_link_server.Prelude.Words.{text_eq_sym}
use hermes_link_server.Json.{Json}
use hermes_link_server.Notifications.Floats.{Floats}
use hermes_link_server.Notifications.Events.{Event, Result, ok, err, validate_event}
use hermes_link_server.Notifications.Direct.{
  Row, Store, collides, is_recent, newest_offset, drop_through, prune, stamped, existing,
  insert_event, publish_checked, publish,
}
use hermes_link_server.Notifications.Direct.Prune.{keep-snoc, Rising, Rising-keep, Rising-snoc}
use hermes_link_server.Notifications.Direct.Publish.{
  UniqueBy, row_id, row_key, IsOrdered, new_row, with_row, with_row-IsOrdered,
}

UniqueBy-of_snoc {ℓ} :
    {A : Type ℓ} (f : A → Text) (xs : List A) (x : A)
    → UniqueBy f (xs ++ x ∷ [])
    → any (λ y. text_eq (f y) (f x)) xs ≡ false
UniqueBy-of_snoc f [] x u = refl
UniqueBy-of_snoc f (y ∷ ys) x (new, u) = ground (
  arith,
  any-append (λ z. text_eq (f z) (f y)) ys (x ∷ []),
  text_eq_sym (f x) (f y),
  UniqueBy-of_snoc f ys x u,
)

module _ (F : Floats) where
  open F use {Real, before, before_irrefl}

  Rising-last :
      (low : ℕ) (rs : List (Row F)) (x : Row F) → Rising F low (rs ++ x ∷ []) → low < x.sequence
  Rising-last low [] x (lt, _) = lt
  Rising-last low (r ∷ rs) x (lt, rising) = omega (arith, Rising-last r.sequence rs x rising)

  newest_offset-snoc :
      (k low p : ℕ) (rs : List (Row F)) (x : Row F)
      → 1 ≤ k
      → Rising F low (rs ++ x ∷ [])
      → newest_offset F k (rs ++ x ∷ []) ≡ some p
      → p < x.sequence
  unfolding newest_offset
  newest_offset-snoc k low p [] x room h e = ground arith
  newest_offset-snoc k low p (r ∷ rs) x room (lt, rising) e = ground (
    arith,
    Rising-last r.sequence rs x rising,
    newest_offset-snoc k r.sequence p rs x room rising,
  )

  drop_through-snoc :
      (o : Option ℕ) (rs : List (Row F)) (x : Row F)
      → ((p : ℕ) → o ≡ some p → p < x.sequence)
      → (kept : List (Row F)) × (drop_through F o (rs ++ x ∷ []) ≡ kept ++ x ∷ [])
  unfolding drop_through
  drop_through-snoc none rs x h = (rs, refl)
  drop_through-snoc (some p) rs x h = (
    keep (λ r. ltb p r.sequence) rs,
    keep-snoc (λ (r : Row F). ltb p r.sequence) rs x (ground (arith, h p)),
  )

  -- The last row survives `_prune` where the clock is its own time stamp.
  prune-snoc :
      (retention most : ℕ) (rs : List (Row F)) (x : Row F)
      → 1 ≤ most
      → Rising F 0 (rs ++ x ∷ [])
      → (kept : List (Row F)) × (prune F retention most x.created_at (rs ++ x ∷ [])
          ≡ kept ++ x ∷ [])
  unfolding prune
  prune-snoc retention most rs x room h =
      let recent = is_recent F x.created_at retention in
      let same = keep-snoc recent rs x (ground (arith, before_irrefl x.created_at retention)) in
      let rising : Rising F 0 (keep recent rs ++ x ∷ []) =
        rw same at (Rising-keep F recent 0 (rs ++ x ∷ []) h) in
      rw same (
        drop_through-snoc (newest_offset F most (keep recent rs ++ x ∷ [])) (keep recent rs) x
          (λ p e. newest_offset-snoc most 0 p (keep recent rs) x room rising e))

  -- The event that `publish` returns is the last row of the store.
  with_row_kept :
      (e : Event F) (created : Real) (s : Store F)
      → IsOrdered F s
      → (kept : List (Row F)) × ((with_row F e created s).rows ≡ kept ++ new_row F e created s ∷ [])
  with_row_kept e created s o =
      prune-snoc s.retention_seconds s.max_events s.rows (new_row F e created s) o.room (
        Rising-snoc F 0 s.issued s.rows (new_row F e created s) o.rising o.given (omega arith)
          (omega arith))

  none_collides :
      (x : Row F) (rs : List (Row F))
      → any (λ r. text_eq (row_id F r) (row_id F x)) rs ≡ false
      → any (λ r. text_eq (row_key F r) (row_key F x)) rs ≡ false
      → any (collides F x.event) rs ≡ false
  none_collides x [] h k = refl
  none_collides x (r ∷ rs) h k = ground (arith, none_collides x rs)

  find_last :
      (x : Row F) (rs kept : List (Row F))
      → rs ≡ kept ++ x ∷ []
      → UniqueBy (row_id F) rs
      → UniqueBy (row_key F) rs
      → find (collides F x.event) rs ≡ some x
  find_last x rs kept e ids keys = rw e (
      find-append (collides F x.event) kept (x ∷ []) (
        none_collides x kept (UniqueBy-of_snoc (row_id F) kept x (rw e at ids))
          (UniqueBy-of_snoc (row_key F) kept x (rw e at keys)))
      ∙ ground (arith, text_eq_refl x.event.event_id))

  insert_existing :
      (e : Event F) (created : Real) (s : Store F) {r : Row F}
      → find (collides F e) s.rows ≡ some r
      → any (collides F e) s.rows ≡ true
      → insert_event F (e, created) s ≡ (ok r, s)
  unfolding insert_event existing
  insert_existing e created s found taken = rw (taken, found)

  any_last :
      (q : Row F → Bool) (kept : List (Row F)) (x : Row F)
      → q x ≡ true
      → any q (kept ++ x ∷ []) ≡ true
  any_last q kept x h = any-append q kept (x ∷ []) ∙ ground arith

  insert_again :
      (e e' : Event F) (created created' : Real) (s : Store F)
      → IsOrdered F s
      → collides F e' ≡ collides F e
      → F.is_nan created' ≡ F.is_nan created
      → insert_event F (e', created') (insert_event F (e, created) s).1
        ≡ insert_event F (e, created) s
  unfolding insert_event
  insert_again e e' created created' s o same alike =
      elim (Bool-cases (any (collides F e) s.rows)) [
        | inl taken ↦ rw (taken, same, taken)
        | inr fresh ↦ elim (Bool-cases (F.is_nan created)) [
          | inl nan ↦ rw (fresh, nan, same, fresh, alike, nan)
          | inr number ↦
              let x = new_row F e created s in
              let after = with_row F e created s in
              let o' = with_row-IsOrdered F e created s o fresh in
              let (kept, last) = with_row_kept e created s o in
              let found = find_last x after.rows kept last o'.ids o'.dedupe_keys in
              let present : any (collides F e) after.rows ≡ true =
                rw last
                  (any_last (collides F e) kept x (ground (arith, text_eq_refl e.event_id))) in
              rw (fresh, number, same, found, present)
        ]
      ]

  collides-stamped : (e : Event F) (now : Real) → collides F (stamped F e now).0 ≡ collides F e
  unfolding stamped
  collides-stamped e now = elim (Option-cases e.created_at) [
    | inl none_given ↦ rw none_given
    | inr (t, given) ↦ rw given
  ]

  is_nan-stamped :
      (e : Event F) (now later : Real)
      → F.is_nan now ≡ false
      → F.is_nan later ≡ false
      → F.is_nan (stamped F e later).1 ≡ F.is_nan (stamped F e now).1
  unfolding stamped
  is_nan-stamped e now later h k = elim (Option-cases e.created_at) [
    | inl none_given ↦ rw none_given (k ∙ sym h)
    | inr (t, given) ↦ rw given
  ]

  publish_checked_again :
      (r : Result (Event F)) (now later : Real) (s : Store F)
      → F.is_nan now ≡ false
      → F.is_nan later ≡ false
      → IsOrdered F s
      → publish_checked F r later (publish_checked F r now s).1 ≡ publish_checked F r now s
  unfolding publish_checked
  publish_checked_again (err f) now later s h k o = refl
  publish_checked_again (ok e) now later s h k o =
      insert_again (stamped F e now).0 (stamped F e later).0 (stamped F e now).1
        (stamped F e later).1 s o (collides-stamped e later ∙ sym (collides-stamped e now))
        (is_nan-stamped e now later h k)

  -- On an ordered store, publishing a payload a second time, at any later reading of the clock,
  -- which is a number each time, returns what the
  -- first call returned, an error or the stored event with its sequence, and changes nothing.
  pub publish_idempotent :
      (payload : Json) (now later : Real) (s : Store F)
      → F.is_nan now ≡ false
      → F.is_nan later ≡ false
      → IsOrdered F s
      → publish F payload later (publish F payload now s).1 ≡ publish F payload now s
  unfolding publish
  publish_idempotent payload now later s h k o =
      publish_checked_again (validate_event F payload) now later s h k o
