-- ===== src/Bridge/Stream/Order.antt =====
-- The order of the events that the DIRECT stream writes, while nothing is published.
pub mod Complete
use mathlib.Core.List.{append_assoc}
use hermes_link_server.Prelude.{
  ℕ, zero, suc, Text, text, is_empty, ltb, leb, Bool, true, false, Option, some, List, [], ◌∷◌,
  ◌++◌, ◌≡◌, inl, inr, refl, sym, ap, ◌∙◌, All, All-take, keep, take, Bool-cases,
}
use hermes_link_server.Json.{Json}
use hermes_link_server.Notifications.Floats.{Floats}
use hermes_link_server.Notifications.Events.{Result, ok, err, is_identifier, ◌>>=◌}
use hermes_link_server.Notifications.Events.Identifiers.{strip-identifier, identifier-nonempty}
use hermes_link_server.Notifications.Direct.{
  Row, Store, bounded, is_wanted, requested, checked_cursor, cursor_sequence, read_after_event_id,
}
use hermes_link_server.Notifications.Direct.Prune.{All-keep}
use hermes_link_server.Notifications.Direct.Publish.{row_id, IsOrdered}
use hermes_link_server.Notifications.Direct.Paging.{stream, stream_next}
use hermes_link_server.Bridge.Stream.{
  End, Round, id_of, Delivery, deliver, frame_text, Step, stop, go, after_step, after_batch,
  keep_alive, on_batch, on_store, round, run_loop,
}

ok_same {ℓ} : {A : Type ℓ} {a b : A} → ok a ≡ ok b → a ≡ b
ok_same h = cc

All-last : {A : Type 0} (P : A → Type 0) (xs : List A) (x : A) → All P (xs ++ x ∷ []) → P x
All-last P [] x h = h.0
All-last P (y ∷ xs) x h = All-last P xs x h.1

last-All :
    {A : Type 0} (P : A → Type 0) (ys xs : List A) (x : A) → ys ≡ xs ++ x ∷ [] → All P ys → P x
last-All P ys xs x e h = All-last P xs x (rw e at h)

module _ {ℓ} (F : Floats) {Client : Type ℓ} (dumps : Json → Text)
    (write : Text → Client → Bool × Client) where
  abbrev pub HasId : Row F → Type 0
  HasId r = is_identifier (row_id F r) ≡ true

  abbrev batch : List (Row F) → Text → Client → Delivery F Client
  batch = deliver F dumps write

  last_id : Text → List (Row F) → Text
  last_id cursor [] = cursor
  last_id cursor (r ∷ rs) = last_id (id_of F r) rs

  named : (r : Row F) → HasId r → (is_empty (id_of F r) ≡ false) × (id_of F r ≡ row_id F r)
  named r h =
      let same = strip-identifier (row_id F r) h in
      (ap is_empty same ∙ identifier-nonempty (row_id F r) h, same)

  -- A batch of which every write is taken is written, and leaves the id of its last event; any
  -- other is written up to a row.
  deliver-rows :
      (rows : List (Row F)) (cursor : Text) (client : Client)
      → All HasId rows
      → ((batch rows cursor client).connected ≡ true
          → ((batch rows cursor client).written ≡ rows)
            × ((batch rows cursor client).cursor ≡ last_id cursor rows))
        × ((rest : List (Row F)) × (rows ≡ (batch rows cursor client).written ++ rest))
  unfolding deliver last_id
  deliver-rows [] cursor client h = (λ _. (refl, refl), ([], refl))
  deliver-rows (r ∷ rows) cursor client (id, h) =
      let (nonempty, _) = named r id in
      let next = (write (frame_text F dumps write r) client).1 in
      elim (Bool-cases (write (frame_text F dumps write r) client).0) [
        | inl sent ↦
            let (taken, (rest, whole)) = deliver-rows rows (id_of F r) next h in
            rw (nonempty, sent)
              (λ c. (ap (λ w. r ∷ w) (taken c).0, (taken c).1), (rest, ap (λ w. r ∷ w) whole))
        | inr lost ↦ rw (nonempty, lost) (λ c. cc, (r ∷ rows, refl))
      ]

  split_last :
      (cursor : Text) (r : Row F) (rs : List (Row F))
      → (xs : List (Row F)) × (x : Row F) × (r ∷ rs ≡ xs ++ x ∷ [])
        × (last_id cursor (r ∷ rs) ≡ id_of F x)
  unfolding last_id
  split_last cursor r [] = ([], r, refl, refl)
  split_last cursor r (q ∷ rs) =
      let (xs, x, same, last) = split_last (id_of F r) q rs in
      (r ∷ xs, x, ap (λ w. r ∷ w) same, last)

  page-All :
      (P : Row F → Type 0) (ps : Result (List Text)) (c : Result Text) (limit : ℕ) (s : Store F)
      (page : List (Row F))
      → All P s.rows
      → (do
        qs ← ps
        cursor ← c
        ok (
            take
              (bounded F limit)
              (keep (is_wanted F qs (cursor_sequence F cursor s.rows)) s.rows)))
        ≡ ok page
      → All P page
  page-All P (err e) c limit s page h k = cc
  page-All P (ok qs) (err e) limit s page h k = cc
  page-All P (ok qs) (ok cursor) limit s page h k = rw (sym (ok_same k)) (
      All-take P (bounded F limit) _
        (All-keep P (is_wanted F qs (cursor_sequence F cursor s.rows)) s.rows h))

  read-All :
      (P : Row F → Type 0) (names : List Text) (cursor : Text) (limit : ℕ) (s : Store F)
      (page : List (Row F))
      → All P s.rows
      → read_after_event_id F names cursor limit s ≡ ok page
      → All P page
  unfolding read_after_event_id
  read-All P names cursor limit s page h k =
      page-All P (requested F names) (checked_cursor F cursor) limit s page h k

  module _ (names : List Text) (deadline : ℕ) (s : Store F) (ordered : IsOrdered F s)
      (ids : All HasId s.rows) where
    -- A round writes the first events of those that are left, and goes on with the others.
    abbrev Keeps : List (Row F) → Step F Client → Type 0
    Keeps all (stop end written client) = (rest : List (Row F)) × (all ≡ written ++ rest)
    Keeps all (go cursor next_keepalive written client) =
        (rest : List (Row F)) × (all ≡ written ++ rest) × (stream F names cursor s ≡ ok rest)

    after_batch-Keeps :
        (k : ℕ) (d : Delivery F Client) (rows rest all : List (Row F))
        → all ≡ rows ++ rest
        → (d.connected ≡ true → (d.written ≡ rows) × (stream F names d.cursor s ≡ ok rest))
        → (left : List (Row F)) × (rows ≡ d.written ++ left)
        → Keeps all (after_batch F dumps write k d)
    unfolding after_batch
    after_batch-Keeps k d rows rest all whole taken (left, split) = elim (Bool-cases d.connected) [
      | inl here ↦
          let (same, next) = taken here in
          rw here (rest, whole ∙ ap (λ w. w ++ rest) (sym same), next)
      | inr lost ↦
          rw lost
            (left ++ rest, whole ∙ ap (λ w. w ++ rest) split ∙ append_assoc d.written left rest)
    ]

    keep_alive-Keeps :
        (now : ℕ) (cursor : Text) (k : ℕ) (client : Client) (all : List (Row F))
        → stream F names cursor s ≡ ok all
        → Keeps all (keep_alive F dumps write now cursor k client)
    unfolding keep_alive
    keep_alive-Keeps now cursor k client all h = elim (Bool-cases (leb k now)) [
      | inl due ↦ elim (Bool-cases (write (text ": keepalive\n\n") client).0) [
        | inl sent ↦ rw (due, sent) (all, refl, h)
        | inr lost ↦ rw (due, lost) (all, refl)
      ]
      | inr early ↦ rw early (all, refl, h)
    ]

    on_batch-Keeps :
        (now : ℕ) (cursor : Text) (k : ℕ) (client : Client) (all : List (Row F))
        (page : Result (List (Row F)))
        → stream F names cursor s ≡ ok all
        → read_after_event_id F names cursor 100 s ≡ page
        → Keeps all (on_batch F dumps write now cursor k client page)
    unfolding on_batch
    on_batch-Keeps now cursor k client all (err e) h got = (all, refl)
    on_batch-Keeps now cursor k client all (ok []) h got =
        keep_alive-Keeps now cursor k client all h
    on_batch-Keeps now cursor k client all (ok (r ∷ rs)) h got =
        let good = read-All HasId names cursor 100 s (r ∷ rs) ids got in
        let (xs, x, split, last) = split_last cursor r rs in
        let id : HasId x = last-All HasId (r ∷ rs) xs x split good in
        let (rest, from, later) =
          stream_next F names cursor 100 s xs x ordered id (got ∙ ap ok split) in
        let (taken, left) = deliver-rows (r ∷ rs) cursor client good in
        after_batch-Keeps k (batch (r ∷ rs) cursor client) (r ∷ rs) rest all
          (ok_same (sym h ∙ from)
            ∙ sym (append_assoc xs (x ∷ []) rest)
            ∙ ap (λ w. w ++ rest) (sym split))
          (λ c. (
            (taken c).0,
            ap (λ i. stream F names i s) ((taken c).1 ∙ last ∙ (named x id).1) ∙ later,
          ))
          left

    on_store-Keeps :
        (now : ℕ) (cursor : Text) (k : ℕ) (client : Client) (all : List (Row F))
        (store : Option (Store F))
        → stream F names cursor s ≡ ok all
        → store ≡ some s
        → Keeps all (on_store F dumps write names deadline now cursor k client store)
    unfolding on_store
    on_store-Keeps now cursor k client all store h e =
        rw e
          (on_batch-Keeps now cursor k client all (read_after_event_id F names cursor 100 s) h refl)

    round-Keeps :
        (r : Round F) (cursor : Text) (k : ℕ) (client : Client) (all : List (Row F))
        → stream F names cursor s ≡ ok all
        → r.store ≡ some s
        → Keeps all (round F dumps write names deadline r cursor k client)
    unfolding round
    round-Keeps r cursor k client all h e = elim (Bool-cases (ltb r.clock deadline)) [
      | inl early ↦ rw early (on_store-Keeps r.later cursor k client all r.store h e)
      | inr late ↦ rw late (all, refl)
    ]

    after_step-prefix :
        (all : List (Row F)) (step : Step F Client)
        (next : Text → ℕ → Client → End × List (Row F) × Client)
        → Keeps all step
        → ((cursor : Text) (k : ℕ) (client : Client) (left : List (Row F))
            → stream F names cursor s ≡ ok left
            → (rest : List (Row F)) × (left ≡ (next cursor k client).1 ++ rest))
        → (rest : List (Row F)) × (all ≡ (after_step F step next).1 ++ rest)
    unfolding after_step
    after_step-prefix all (stop end written client) next h k = h
    after_step-prefix all (go cursor keepalive written client) next (left, whole, from) k =
        let (rest, split) = k cursor keepalive client left from in
        (rest, whole ∙ ap (λ w. written ++ w) split ∙ sym (append_assoc written _ rest))

    -- While nothing is published and nothing is pruned, the stream writes the first events, in
    -- their order, of all that the store holds after the cursor: none is left out, none is
    -- repeated, and none changes its place, whenever the loop ends and wherever the client is
    -- lost. The store is ordered and the ids of its events are identifiers.
    pub run_loop-prefix :
        (rounds : ℕ → Round F) (fuel n : ℕ) (cursor : Text) (next_keepalive : ℕ) (client : Client)
        (all : List (Row F))
        → ((m : ℕ) → (rounds m).store ≡ some s)
        → stream F names cursor s ≡ ok all
        → (rest : List (Row F)) × (all
            ≡ (run_loop F dumps write names deadline rounds fuel n cursor next_keepalive client).1
              ++ rest)
    unfolding run_loop
    run_loop-prefix rounds zero n cursor next_keepalive client all same h = (all, refl)
    run_loop-prefix rounds (suc fuel) n cursor next_keepalive client all same h =
        after_step-prefix all
          (round F dumps write names deadline (rounds n) cursor next_keepalive client)
          (run_loop F dumps write names deadline rounds fuel (suc n))
          (round-Keeps (rounds n) cursor next_keepalive client all h (same n))
          λ cursor' k client' left from.
            run_loop-prefix rounds fuel (suc n) cursor' k client' left same from
