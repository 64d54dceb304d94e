-- ===== src/Notifications/Direct/Paging.antt =====
-- Reading the stream page by page from the id of the last event that was seen.
use hermes_link_server.Prelude.{
  ℕ, ◌≤◌, ◌<◌, Text, text_eq, text_eq_refl, text_eq_sound, any-eq-true_of_find, ◌≡◌, refl, ap, sym,
  ◌∙◌, Bool, true, false, some, List, [], ◌∷◌, ◌++◌, arith, any, find, keep, take, drop, Bool-cases,
  inl, inr, take-append-drop,
}
use hermes_link_server.Notifications.Floats.{Floats}
use hermes_link_server.Notifications.Events.{Result, ok, err, is_identifier, ◌>>=◌}
use hermes_link_server.Notifications.Events.Identifiers.{strip-identifier, identifier-nonempty}
use mathlib.Core.List.{append_assoc}
use hermes_link_server.Notifications.Direct.{
  Row, Store, bounded, is_wanted, cursor_sequence, requested, checked_cursor, read_after_event_id,
}
use hermes_link_server.Notifications.Direct.Prune.{Rising}
use hermes_link_server.Notifications.Direct.Publish.{UniqueBy, row_id, IsOrdered}

module _ (F : Floats) where
  -- The rows that a stream for some profiles has left after a sequence.
  abbrev pub pending : List Text → ℕ → List (Row F) → List (Row F)
  pending profiles n rs = keep (is_wanted F profiles n) rs

  all_wanted :
      (profiles : List Text) (n m : ℕ) (rs : List (Row F))
      → Rising F m rs
      → n ≤ m
      → pending profiles n rs ≡ pending profiles m rs
  all_wanted profiles n m [] h le = refl
  all_wanted profiles n m (r ∷ rs) (lt, rising) le = ground (
    arith,
    all_wanted profiles n r.sequence rs rising,
    all_wanted profiles m r.sequence rs rising,
  )

  pending-gt :
      (profiles : List Text) (n low : ℕ) (rs xs : List (Row F)) (x : Row F) (ys : List (Row F))
      → Rising F low rs
      → pending profiles n rs ≡ xs ++ x ∷ ys
      → low < x.sequence
  pending-gt profiles n low [] [] x ys h e = cc
  pending-gt profiles n low [] (_ ∷ _) x ys h e = cc
  pending-gt profiles n low (r ∷ rs) [] x ys (lt, rising) e =
      ground (arith, pending-gt profiles n r.sequence rs [] x ys rising)
  pending-gt profiles n low (r ∷ rs) (y ∷ xs) x ys (lt, rising) e = ground (
    arith,
    pending-gt profiles n r.sequence rs (y ∷ xs) x ys rising,
    pending-gt profiles n r.sequence rs xs x ys rising,
  )

  -- What is left after a row of the list is what follows it there.
  pending-after :
      (profiles : List Text) (n low : ℕ) (rs xs : List (Row F)) (x : Row F) (ys : List (Row F))
      → Rising F low rs
      → pending profiles n rs ≡ xs ++ x ∷ ys
      → pending profiles x.sequence rs ≡ ys
  pending-after profiles n low [] [] x ys h e = cc
  pending-after profiles n low [] (_ ∷ _) x ys h e = cc
  pending-after profiles n low (r ∷ rs) [] x ys (lt, rising) e = ground (
    arith,
    pending-after profiles n r.sequence rs [] x ys rising,
    pending-gt profiles n r.sequence rs [] x ys rising,
    all_wanted profiles n r.sequence rs rising,
  )
  pending-after profiles n low (r ∷ rs) (y ∷ xs) x ys (lt, rising) e = ground (
    arith,
    pending-after profiles n r.sequence rs (y ∷ xs) x ys rising,
    pending-after profiles n r.sequence rs xs x ys rising,
    pending-gt profiles n r.sequence rs (y ∷ xs) x ys rising,
    pending-gt profiles n r.sequence rs xs x ys rising,
  )

  id_differs :
      (r x : Row F) (rs : List (Row F))
      → any (λ y. text_eq (row_id F y) (row_id F r)) rs ≡ false
      → find (λ y. text_eq (row_id F y) (row_id F x)) rs ≡ some x
      → text_eq (row_id F r) (row_id F x) ≡ false
  id_differs r x rs new found = elim (Bool-cases (text_eq (row_id F r) (row_id F x))) [
    | inl same ↦
        let e = text_eq_sound (row_id F r) (row_id F x) same in
        let (present, _) =
          any-eq-true_of_find (λ y. text_eq (row_id F y) (row_id F x)) rs x found in
        cc (ap (λ i. any (λ y. text_eq (row_id F y) i) rs) e, present, new)
    | inr other ↦ other
  ]

  -- The row of an event id, where the ids are unique.
  find_id :
      (p : Row F → Bool) (rs xs : List (Row F)) (x : Row F) (ys : List (Row F))
      → UniqueBy (row_id F) rs
      → keep p rs ≡ xs ++ x ∷ ys
      → find (λ r. text_eq (row_id F r) (row_id F x)) rs ≡ some x
  find_id p [] [] x ys u e = cc
  find_id p [] (_ ∷ _) x ys u e = cc
  find_id p (r ∷ rs) [] x ys (new, u) e =
      ground (arith, text_eq_refl (row_id F x), find_id p rs [] x ys u, id_differs r x rs new)
  find_id p (r ∷ rs) (y ∷ xs) x ys (new, u) e =
      ground (arith, find_id p rs (y ∷ xs) x ys u, find_id p rs xs x ys u, id_differs r x rs new)

  -- All that the stream still has after a cursor: `read_after_event_id` without its limit.
  unfoldable pub stream : List Text → Text → Store F → Result (List (Row F))
  stream profile_ids event_id s = do
    profiles ← requested F profile_ids
    cursor ← checked_cursor F event_id
    ok (pending profiles (cursor_sequence F cursor s.rows) s.rows)

  checked_cursor-identifier : (c : Text) → is_identifier c ≡ true → checked_cursor F c ≡ ok c
  unfolding checked_cursor
  checked_cursor-identifier c h = rw (strip-identifier c h) (ground (arith, h))

  cursor_sequence-row :
      (rs : List (Row F)) (x : Row F)
      → is_identifier (row_id F x) ≡ true
      → find (λ r. text_eq (row_id F r) (row_id F x)) rs ≡ some x
      → cursor_sequence F (row_id F x) rs ≡ x.sequence
  unfolding cursor_sequence
  cursor_sequence-row rs x h found = rw (found, identifier-nonempty (row_id F x) h)

  pending-next :
      (profiles : List Text) (n : ℕ) (s : Store F) (xs : List (Row F)) (x : Row F)
      (ys : List (Row F))
      → IsOrdered F s
      → is_identifier (row_id F x) ≡ true
      → pending profiles n s.rows ≡ xs ++ x ∷ ys
      → pending profiles (cursor_sequence F (row_id F x) s.rows) s.rows ≡ ys
  pending-next profiles n s xs x ys o h e =
      rw (cursor_sequence-row s.rows x h (find_id (is_wanted F profiles n) s.rows xs x ys o.ids e))
        (pending-after profiles n 0 s.rows xs x ys o.rising e)

  split_page :
      (limit : ℕ) (all xs : List (Row F)) (x : Row F)
      → take (bounded F limit) all ≡ xs ++ x ∷ []
      → all ≡ xs ++ x ∷ drop (bounded F limit) all
  split_page limit all xs x e =
      sym (take-append-drop (bounded F limit) all)
      ∙ (ap (λ front. front ++ drop (bounded F limit) all) e ∙ append_assoc xs (x ∷ []) _)

  checked-next :
      (profiles : Result (List Text)) (first : Result Text) (limit : ℕ) (s : Store F)
      (xs : List (Row F)) (x : Row F)
      → IsOrdered F s
      → is_identifier (row_id F x) ≡ true
      → (do
        ps ← profiles
        c ← first
        ok (take (bounded F limit) (pending ps (cursor_sequence F c s.rows) s.rows)))
        ≡ ok (xs ++ x ∷ [])
      → (rest : List (Row F)) × ((do
        ps ← profiles
        c ← first
        ok (pending ps (cursor_sequence F c s.rows) s.rows))
          ≡ ok (xs ++ x ∷ rest))
        × ((do ps ← profiles; ok (pending ps (cursor_sequence F (row_id F x) s.rows) s.rows))
            ≡ ok rest)
  checked-next (err e) first limit s xs x o h p = cc
  checked-next (ok ps) (err e) limit s xs x o h p = cc
  checked-next (ok ps) (ok c) limit s xs x o h p =
      let all = pending ps (cursor_sequence F c s.rows) s.rows in
      let rest = drop (bounded F limit) all in
      let split : all ≡ xs ++ x ∷ rest = split_page limit all xs x (ground (arith, p)) in
      (
        rest,
        ap ok split,
        ap ok (pending-next ps (cursor_sequence F c s.rows) s xs x rest o h split),
      )

  -- On an ordered store: if a page is not empty, then the stream from its cursor is the page and a
  -- rest, and from the id of the last event of the page every read returns the first events of
  -- that rest, as many as its limit allows. So pages that are read one after the other lose no
  -- event and repeat none. The id of the event is an identifier.
  pub read_next_page :
      (profile_ids : List Text) (event_id : Text) (limit : ℕ) (s : Store F) (xs : List (Row F))
      (x : Row F)
      → IsOrdered F s
      → is_identifier (row_id F x) ≡ true
      → read_after_event_id F profile_ids event_id limit s ≡ ok (xs ++ x ∷ [])
      → (rest : List (Row F)) × (stream profile_ids event_id s ≡ ok (xs ++ x ∷ rest))
        × ((next : ℕ)
            → read_after_event_id F profile_ids (row_id F x) next s
              ≡ ok (take (bounded F next) rest))
  unfolding read_after_event_id stream
  read_next_page profile_ids event_id limit s xs x o h p =
      let (rest, all, later) =
        checked-next (requested F profile_ids) (checked_cursor F event_id) limit s xs x o h p in
      (rest, all, λ next. limited (requested F profile_ids) next rest later)
    where
      limited :
          (ps : Result (List Text)) (next : ℕ) (rest : List (Row F))
          → (do profiles ← ps; ok (pending profiles (cursor_sequence F (row_id F x) s.rows) s.rows))
            ≡ ok rest
          → (do
            profiles ← ps
            cursor ← checked_cursor F (row_id F x)
            ok (take (bounded F next) (pending profiles (cursor_sequence F cursor s.rows) s.rows)))
            ≡ ok (take (bounded F next) rest)
      limited (err e) next rest q = cc
      limited (ok ps) next rest q =
          rw (checked_cursor-identifier (row_id F x) h) (ground (arith, q))

  -- The stream from the last event of a page is what the page leaves of the stream.
  pub stream_next :
      (profile_ids : List Text) (event_id : Text) (limit : ℕ) (s : Store F) (xs : List (Row F))
      (x : Row F)
      → IsOrdered F s
      → is_identifier (row_id F x) ≡ true
      → read_after_event_id F profile_ids event_id limit s ≡ ok (xs ++ x ∷ [])
      → (rest : List (Row F)) × (stream profile_ids event_id s ≡ ok (xs ++ x ∷ rest))
        × (stream profile_ids (row_id F x) s ≡ ok rest)
  unfolding read_after_event_id stream
  stream_next profile_ids event_id limit s xs x o h p =
      let (rest, all, later) =
        checked-next (requested F profile_ids) (checked_cursor F event_id) limit s xs x o h p in
      (rest, all, whole (requested F profile_ids) rest later)
    where
      whole :
          (ps : Result (List Text)) (rest : List (Row F))
          → (do profiles ← ps; ok (pending profiles (cursor_sequence F (row_id F x) s.rows) s.rows))
            ≡ ok rest
          → (do
            profiles ← ps
            cursor ← checked_cursor F (row_id F x)
            ok (pending profiles (cursor_sequence F cursor s.rows) s.rows))
            ≡ ok rest
      whole (err e) rest q = cc
      whole (ok ps) rest q = rw (checked_cursor-identifier (row_id F x) h) (ground (arith, q))
