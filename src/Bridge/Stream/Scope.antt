-- ===== src/Bridge/Stream/Scope.antt =====
-- What the DIRECT stream writes: the profiles and the order of its events.
use hermes_link_server.Prelude.{
  ℕ, zero, suc, Text, text, is_empty, contains, ltb, leb, Bool, true, Option, none, some, List, [],
  ◌∷◌, ◌≡◌, inl, inr, refl, sym, arith, All, All-append, All-take, keep, take, Bool-cases,
}
use hermes_link_server.Json.{Json}
use hermes_link_server.Notifications.Floats.{Floats}
use hermes_link_server.Notifications.Events.{Result, ok, err, ◌>>=◌}
use hermes_link_server.Notifications.Direct.{
  Row, Store, bounded, is_wanted, requested, checked_cursor, cursor_sequence, read_after_event_id,
}
use hermes_link_server.Bridge.Stream.{
  End, Round, id_of, Delivery, deliver, frame_text, Step, stop, go, after_step, after_batch,
  keep_alive, on_batch, on_store, round, run_loop,
}

ok_injective {ℓ} : {A : Type ℓ} {a b : A} → ok a ≡ ok b → a ≡ b
ok_injective h = cc

module _ (F : Floats) where
  -- The row is of one of the profiles.
  abbrev pub IsOf : List Text → Row F → Type 0
  IsOf profiles r = contains r.event.profile_id profiles ≡ true

  wanted-IsOf :
      (profiles : List Text) (n : ℕ) (rs : List (Row F))
      → All (IsOf profiles) (keep (is_wanted F profiles n) rs)
  wanted-IsOf profiles n [] = tt
  wanted-IsOf profiles n (r ∷ rs) = ground (arith, wanted-IsOf profiles n rs)

  page-IsOf :
      (ps : Result (List Text)) (c : Result Text) (limit : ℕ) (s : Store F) (page : List (Row F))
      (profiles : List Text)
      → ps ≡ ok profiles
      → (do
        qs ← ps
        cursor ← c
        ok (
            take
              (bounded F limit)
              (keep (is_wanted F qs (cursor_sequence F cursor s.rows)) s.rows)))
        ≡ ok page
      → All (IsOf profiles) page
  page-IsOf (err e) c limit s page profiles h k = cc
  page-IsOf (ok qs) (err e) limit s page profiles h k = cc
  page-IsOf (ok qs) (ok cursor) limit s page profiles h k =
      rw (sym (ok_injective k), sym (ok_injective h))
        (All-take (IsOf qs) (bounded F limit) _
          (wanted-IsOf qs (cursor_sequence F cursor s.rows) s.rows))

  read-IsOf :
      (names : List Text) (cursor : Text) (limit : ℕ) (s : Store F) (page : List (Row F))
      (profiles : List Text)
      → requested F names ≡ ok profiles
      → read_after_event_id F names cursor limit s ≡ ok page
      → All (IsOf profiles) page
  unfolding read_after_event_id
  read-IsOf names cursor limit s page profiles h k =
      page-IsOf (requested F names) (checked_cursor F cursor) limit s page profiles h k

module _ {ℓ} (F : Floats) {Client : Type ℓ} (dumps : Json → Text)
    (write : Text → Client → Bool × Client) where
  abbrev batch : List (Row F) → Text → Client → Delivery F Client
  batch = deliver F dumps write

  -- What holds of every row of a batch holds of every row that is written.
  deliver-All :
      (P : Row F → Type 0) (rows : List (Row F)) (cursor : Text) (client : Client)
      → All P rows
      → All P (batch rows cursor client).written
  unfolding deliver
  deliver-All P [] cursor client h = tt
  deliver-All P (r ∷ rows) cursor client (p, h) = elim (Bool-cases (is_empty (id_of F r))) [
    | inl skip ↦ rw skip (deliver-All P rows cursor client h)
    | inr named ↦ elim (Bool-cases (write (frame_text F dumps write r) client).0) [
      | inl sent ↦ rw (named, sent) (p, deliver-All P rows _ _ h)
      | inr lost ↦ rw (named, lost) tt
    ]
  ]

  abbrev written_in : Step F Client → List (Row F)
  written_in (stop end written client) = written
  written_in (go cursor next_keepalive written client) = written

  after_step-All :
      (P : Row F → Type 0) (step : Step F Client)
      (next : Text → ℕ → Client → End × List (Row F) × Client)
      → All P (written_in step)
      → ((cursor : Text) (k : ℕ) (client : Client) → All P (next cursor k client).1)
      → All P (after_step F step next).1
  unfolding after_step
  after_step-All P (stop end written client) next h k = h
  after_step-All P (go cursor keepalive written client) next h k =
      All-append P written _ h (k cursor keepalive client)

  after_batch-All :
      (P : Row F → Type 0) (k : ℕ) (d : Delivery F Client)
      → All P d.written
      → All P (written_in (after_batch F dumps write k d))
  unfolding after_batch
  after_batch-All P k d h = elim (Bool-cases d.connected) [
    | inl here ↦ rw here h
    | inr lost ↦ rw lost h
  ]

  nothing_in_keep_alive :
      (now : ℕ) (cursor : Text) (k : ℕ) (client : Client)
      → written_in (keep_alive F dumps write now cursor k client) ≡ []
  unfolding keep_alive
  nothing_in_keep_alive now cursor k client = elim (Bool-cases (leb k now)) [
    | inl due ↦ elim (Bool-cases (write (text ": keepalive\n\n") client).0) [
      | inl sent ↦ rw (due, sent) refl
      | inr lost ↦ rw (due, lost) refl
    ]
    | inr early ↦ rw early refl
  ]

  module _ (names profiles : List Text) (deadline : ℕ) (rounds : ℕ → Round F)
      (authorized : requested F names ≡ ok profiles) where
    on_batch-IsOf :
        (now : ℕ) (cursor : Text) (k : ℕ) (client : Client) (page : Result (List (Row F)))
        → ((rows : List (Row F)) → page ≡ ok rows → All (IsOf F profiles) rows)
        → All (IsOf F profiles) (written_in (on_batch F dumps write now cursor k client page))
    unfolding on_batch
    on_batch-IsOf now cursor k client (err e) h = tt
    on_batch-IsOf now cursor k client (ok []) h = rw (nothing_in_keep_alive now cursor k client) tt
    on_batch-IsOf now cursor k client (ok (r ∷ rs)) h =
        after_batch-All (IsOf F profiles) k _
          (deliver-All (IsOf F profiles) (r ∷ rs) cursor client (h (r ∷ rs) refl))

    on_store-IsOf :
        (now : ℕ) (cursor : Text) (k : ℕ) (client : Client) (store : Option (Store F))
        → All
            (IsOf F profiles)
            (written_in (on_store F dumps write names deadline now cursor k client store))
    unfolding on_store
    on_store-IsOf now cursor k client none = tt
    on_store-IsOf now cursor k client (some s) =
        on_batch-IsOf now cursor k client (read_after_event_id F names cursor 100 s)
          λ rows e. read-IsOf F names cursor 100 s rows profiles authorized e

    round-IsOf :
        (r : Round F) (cursor : Text) (k : ℕ) (client : Client)
        → All (IsOf F profiles) (written_in (round F dumps write names deadline r cursor k client))
    unfolding round
    round-IsOf r cursor k client = elim (Bool-cases (ltb r.clock deadline)) [
      | inl early ↦ rw early (on_store-IsOf r.later cursor k client r.store)
      | inr late ↦ rw late tt
    ]

    -- Whatever is published while the stream runs, and whatever the client and the cursor: every
    -- event that is written is of one of the profiles for which the stream was authorized.
    pub run_loop-IsOf :
        (fuel n : ℕ) (cursor : Text) (next_keepalive : ℕ) (client : Client)
        → All
            (IsOf F profiles)
            (run_loop F dumps write names deadline rounds fuel n cursor next_keepalive client).1
    unfolding run_loop
    run_loop-IsOf zero n cursor next_keepalive client = tt
    run_loop-IsOf (suc fuel) n cursor next_keepalive client =
        after_step-All (IsOf F profiles)
          (round F dumps write names deadline (rounds n) cursor next_keepalive client)
          (run_loop F dumps write names deadline rounds fuel (suc n))
          (round-IsOf (rounds n) cursor next_keepalive client) (run_loop-IsOf fuel (suc n))
