-- ===== src/Bridge/Stream/Order/Complete.antt =====
-- The DIRECT stream writes every event, if the client stays and the time is enough.
use hermes_link_server.Prelude.{
  ℕ, zero, suc, ◌+◌, ◌*◌, ◌≤◌, ◌<◌, Text, ltb, Bool, true, Option, some, List, [], ◌∷◌, ◌++◌, ◌≡◌,
  ◌⊎◌, inl, inr, refl, sym, ap, ◌∙◌, arith, All, keep, take, length, length-append,
}
use hermes_link_server.Json.{Json}
use hermes_link_server.Notifications.Floats.{Floats}
use hermes_link_server.Notifications.Events.{Result, ok, err, ◌>>=◌}
use hermes_link_server.Notifications.Direct.{
  Row, Store, bounded, is_wanted, requested, checked_cursor, cursor_sequence, read_after_event_id,
}
use hermes_link_server.Notifications.Direct.Publish.{IsOrdered}
use hermes_link_server.Notifications.Direct.Paging.{stream, stream_next}
use hermes_link_server.Bridge.Stream.{
  End, Round, id_of, deliver, frame_text, Step, go, after_step, after_batch, on_batch, on_store,
  round, run_loop,
}
use hermes_link_server.Bridge.Stream.Order.{
  ok_same, last-All, HasId, named, deliver-rows, split_last, read-All, run_loop-prefix,
}
use mathlib.Core.List.{append_assoc}

page_length :
    {A : Type 0} (n : ℕ) (xs : List A) → (length (take n xs) ≡ n) ⊎ (length (take n xs) ≡ length xs)
page_length zero xs = inl refl
page_length (suc n) [] = inr refl
page_length (suc n) (x ∷ xs) = elim (page_length n xs) [
  | inl e ↦ inl (omega (arith, e))
  | inr e ↦ inr (omega (arith, e))
]

-- What a page of a hundred leaves.
rest_length :
    {A : Type 0} (m : ℕ) (all rest : List A)
    → all ≡ take 100 all ++ rest
    → length all ≤ 100 * suc m
    → length rest ≤ 100 * m
rest_length m all rest e h =
    let total : length all ≡ length (take 100 all) + length rest =
      ap length e ∙ length-append (take 100 all) rest in
    elim (page_length 100 all) [
      | inl full ↦ omega (arith, total, full, h)
      | inr whole ↦ omega (arith, total, whole, h)
    ]

none_before : (n : ℕ) → 0 + n ≡ n
none_before n = omega arith

one_later : (i n : ℕ) → suc i + n ≡ i + suc n
one_later i n = omega arith

one_more : (m n : ℕ) → suc m + n ≡ suc (m + n)
one_more m n = omega arith

nothing_written {ℓ} : {A : Type ℓ} (written rest : List A) → [] ≡ written ++ rest → written ≡ []
nothing_written [] rest h = refl
nothing_written (x ∷ xs) rest h = cc

module _ {ℓ} (F : Floats) {Client : Type ℓ} (dumps : Json → Text)
    (write : Text → Client → Bool × Client)
    (stays : (frame : Text) (client : Client) → (write frame client).0 ≡ true) where
  deliver_connected :
      (rows : List (Row F)) (cursor : Text) (client : Client)
      → All (HasId F dumps write) rows
      → (deliver F dumps write rows cursor client).connected ≡ true
  unfolding deliver
  deliver_connected [] cursor client h = refl
  deliver_connected (r ∷ rows) cursor client (id, h) =
      rw ((named F dumps write r id).0, stays (frame_text F dumps write r) client)
        (deliver_connected rows (id_of F r) _ h)

  page_of :
      (ps : Result (List Text)) (c : Result Text) (s : Store F) (all : List (Row F))
      → (do
        qs ← ps
        cursor ← c
        ok (keep (is_wanted F qs (cursor_sequence F cursor s.rows)) s.rows))
        ≡ ok all
      → (do
        qs ← ps
        cursor ← c
        ok (take (bounded F 100) (keep (is_wanted F qs (cursor_sequence F cursor s.rows)) s.rows)))
        ≡ ok (take 100 all)
  page_of (err e) c s all h = cc
  page_of (ok qs) (err e) s all h = cc
  page_of (ok qs) (ok cursor) s all h = ap (λ rows. ok (take 100 rows)) (ok_same h)

  read-stream :
      (names : List Text) (cursor : Text) (s : Store F) (all : List (Row F))
      → stream F names cursor s ≡ ok all
      → read_after_event_id F names cursor 100 s ≡ ok (take 100 all)
  unfolding stream read_after_event_id
  read-stream names cursor s all h = page_of (requested F names) (checked_cursor F cursor) s all h

  module _ (names : List Text) (deadline : ℕ) (s : Store F) (ordered : IsOrdered F s)
      (ids : All (HasId F dumps write) s.rows) where
    -- A round that writes the first hundred of the events that are left.
    record Advances (all : List (Row F)) (step : Step F Client) : Type ℓ where
      cursor : Text
      keepalive : ℕ
      written : List (Row F)
      client : Client
      rest : List (Row F)
      goes_on : step ≡ go cursor keepalive written client
      page : written ≡ take 100 all
      whole : all ≡ take 100 all ++ rest
      next : stream F names cursor s ≡ ok rest

    on_batch-Advances :
        (now : ℕ) (cursor : Text) (k : ℕ) (client : Client) (all rs : List (Row F)) (r : Row F)
        → take 100 all ≡ r ∷ rs
        → stream F names cursor s ≡ ok all
        → read_after_event_id F names cursor 100 s ≡ ok (r ∷ rs)
        → Advances all (on_batch F dumps write now cursor k client (ok (r ∷ rs)))
    unfolding on_batch after_batch
    on_batch-Advances now cursor k client all rs r front h got =
        let good =
          read-All F dumps write (HasId F dumps write) names cursor 100 s (r ∷ rs) ids got in
        let (xs, x, split, last) = split_last F dumps write cursor r rs in
        let id : HasId F dumps write x = last-All (HasId F dumps write) (r ∷ rs) xs x split good in
        let (rest, from, later) =
          stream_next F names cursor 100 s xs x ordered id (got ∙ ap ok split) in
        let (taken, left) = deliver-rows F dumps write (r ∷ rs) cursor client good in
        let here = deliver_connected (r ∷ rs) cursor client good in
        let d = deliver F dumps write (r ∷ rs) cursor client in
        record {
          cursor = d.cursor;
          keepalive = k;
          written = d.written;
          client = d.client;
          rest = rest;
          goes_on = rw here refl;
          page = (taken here).0 ∙ sym front;
          whole =
              ok_same (sym h ∙ from)
              ∙ sym (append_assoc xs (x ∷ []) rest)
              ∙ ap (λ w. w ++ rest) (sym split ∙ sym front);
          next =
              ap (λ i. stream F names i s) ((taken here).1 ∙ last ∙ (named F dumps write x id).1)
              ∙ later;
        }

    on_store-Advances :
        (now : ℕ) (cursor : Text) (k : ℕ) (client : Client) (a : Row F) (as' : List (Row F))
        (store : Option (Store F))
        → stream F names cursor s ≡ ok (a ∷ as')
        → store ≡ some s
        → Advances (a ∷ as') (on_store F dumps write names deadline now cursor k client store)
    unfolding on_store
    on_store-Advances now cursor k client a as' store h e =
        let got = read-stream names cursor s (a ∷ as') h in
        rw (e, got) (on_batch-Advances now cursor k client (a ∷ as') (take 99 as') a refl h got)

    round-Advances :
        (r : Round F) (cursor : Text) (k : ℕ) (client : Client) (a : Row F) (as' : List (Row F))
        → stream F names cursor s ≡ ok (a ∷ as')
        → r.store ≡ some s
        → r.clock < deadline
        → Advances (a ∷ as') (round F dumps write names deadline r cursor k client)
    unfolding round
    round-Advances r cursor k client a as' h e early =
        let open_still : ltb r.clock deadline ≡ true = ground arith in
        rw open_still (on_store-Advances r.later cursor k client a as' r.store h e)

    after_go :
        (step : Step F Client) (next : Text → ℕ → Client → End × List (Row F) × Client)
        (cursor : Text) (k : ℕ) (written : List (Row F)) (client : Client)
        → step ≡ go cursor k written client
        → (after_step F step next).1 ≡ written ++ (next cursor k client).1
    unfolding after_step
    after_go step next cursor k written client e = rw e refl

    -- While nothing is published and nothing is pruned, a client that takes every write gets every
    -- event that the store holds after the cursor, in order, if one round of the loop for each
    -- hundred events comes before the deadline. The store is ordered and the ids of its events are
    -- identifiers.
    pub run_loop_complete :
        (rounds : ℕ → Round F) (m more n : ℕ) (cursor : Text) (next_keepalive : ℕ) (client : Client)
        (all : List (Row F))
        → ((i : ℕ) → (rounds i).store ≡ some s)
        → ((i : ℕ) → i < m → (rounds (i + n)).clock < deadline)
        → length all ≤ 100 * m
        → stream F names cursor s ≡ ok all
        → (run_loop F dumps write names deadline rounds (m + more) n cursor next_keepalive client).1
          ≡ all
    unfolding run_loop
    run_loop_complete rounds m more n cursor k client [] same early fits h =
        let (rest, e) =
          run_loop-prefix F dumps write names deadline s ordered ids rounds (m + more) n cursor k
            client [] same h in
        nothing_written _ rest e
    run_loop_complete rounds zero more n cursor k client (a ∷ as') same early fits h = ground arith
    run_loop_complete rounds (suc m) more n cursor k client (a ∷ as') same early fits h =
        let adv =
          round-Advances (rounds n) cursor k client a as' h (same n)
            (rw (none_before n) at (early 0 (omega arith))) in
        let later =
          run_loop_complete rounds m more (suc n) adv.cursor adv.keepalive adv.client adv.rest same
            (λ i lt. rw (one_later i n) at (early (suc i) (omega (arith, lt))))
            (rest_length m (a ∷ as') adv.rest adv.whole fits) adv.next in
        rw (one_more m more) (
          after_go (round F dumps write names deadline (rounds n) cursor k client)
            (run_loop F dumps write names deadline rounds (m + more) (suc n)) adv.cursor
            adv.keepalive adv.written adv.client adv.goes_on
          ∙ ap (λ w. adv.written ++ w) later
          ∙ ap (λ w. w ++ adv.rest) adv.page
          ∙ sym adv.whole)
