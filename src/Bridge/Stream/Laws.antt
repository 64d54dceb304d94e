-- ===== src/Bridge/Stream/Laws.antt =====
-- The DIRECT stream ends.
use hermes_link_server.Prelude.{
  ℕ, zero, suc, ◌+◌, ◌≤◌, Text, text, ltb, leb, Bool, true, false, Option, none, some, List, [],
  ◌∷◌, ◌≡◌, inl, inr, refl, arith, Bool-cases,
}
use hermes_link_server.Json.{Json}
use hermes_link_server.Notifications.Floats.{Floats}
use hermes_link_server.Notifications.Events.{Result, ok, err}
use hermes_link_server.Notifications.Direct.{Row, Store, read_after_event_id}
use hermes_link_server.Bridge.Stream.{
  End, finished, running, Round, Delivery, Step, stop, go, after_step, after_batch, keep_alive,
  on_batch, on_store, round, run_loop,
}

shift : (m n : ℕ) → suc m + n ≡ m + suc n
shift m n = omega arith

none_before : (n : ℕ) → zero + n ≡ n
none_before n = omega arith

-- A loop that has ended.
abbrev pub has_ended : End → Bool
has_ended running = false
has_ended _ = true

module _ {ℓ} (F : Floats) {Client : Type ℓ} (dumps : Json → Text)
    (write : Text → Client → Bool × Client) where
  -- A round that ends the loop names a reason.
  abbrev pub IsEnding : Step F Client → Type 0
  IsEnding (stop end written client) = has_ended end ≡ true
  IsEnding (go cursor next_keepalive written client) = Unit

  after_batch-IsEnding : (k : ℕ) (d : Delivery F Client) → IsEnding (after_batch F dumps write k d)
  unfolding after_batch
  after_batch-IsEnding k d = elim (Bool-cases d.connected) [
    | inl here ↦ rw here tt
    | inr lost ↦ rw lost refl
  ]

  keep_alive-IsEnding :
      (now : ℕ) (cursor : Text) (k : ℕ) (client : Client)
      → IsEnding (keep_alive F dumps write now cursor k client)
  unfolding keep_alive
  keep_alive-IsEnding now cursor k client = elim (Bool-cases (leb k now)) [
    | inl due ↦ elim (Bool-cases (write (text ": keepalive\n\n") client).0) [
      | inl sent ↦ rw (due, sent) tt
      | inr lost ↦ rw (due, lost) refl
    ]
    | inr early ↦ rw early tt
  ]

  on_batch-IsEnding :
      (now : ℕ) (cursor : Text) (k : ℕ) (client : Client) (page : Result (List (Row F)))
      → IsEnding (on_batch F dumps write now cursor k client page)
  unfolding on_batch
  on_batch-IsEnding now cursor k client (err e) = refl
  on_batch-IsEnding now cursor k client (ok []) = keep_alive-IsEnding now cursor k client
  on_batch-IsEnding now cursor k client (ok (r ∷ rs)) = after_batch-IsEnding k _

  after_step_ends :
      (step : Step F Client) (next : Text → ℕ → Client → End × List (Row F) × Client)
      → IsEnding step
      → ((cursor : Text) (k : ℕ) (client : Client) → has_ended (next cursor k client).0 ≡ true)
      → has_ended (after_step F step next).0 ≡ true
  unfolding after_step
  after_step_ends (stop end written client) next h k = h
  after_step_ends (go cursor keepalive written client) next h k = k cursor keepalive client

  module _ (names : List Text) (deadline : ℕ) where
    on_store-IsEnding :
        (now : ℕ) (cursor : Text) (k : ℕ) (client : Client) (store : Option (Store F))
        → IsEnding (on_store F dumps write names deadline now cursor k client store)
    unfolding on_store
    on_store-IsEnding now cursor k client none = refl
    on_store-IsEnding now cursor k client (some s) =
        on_batch-IsEnding now cursor k client (read_after_event_id F names cursor 100 s)

    round-IsEnding :
        (r : Round F) (cursor : Text) (k : ℕ) (client : Client)
        → IsEnding (round F dumps write names deadline r cursor k client)
    unfolding round
    round-IsEnding r cursor k client = elim (Bool-cases (ltb r.clock deadline)) [
      | inl early ↦ rw early (on_store-IsEnding r.later cursor k client r.store)
      | inr late ↦ rw late refl
    ]

    round_late :
        (r : Round F) (cursor : Text) (k : ℕ) (client : Client)
        → deadline ≤ r.clock
        → round F dumps write names deadline r cursor k client ≡ stop finished [] client
    unfolding round
    round_late r cursor k client h =
        let late : ltb r.clock deadline ≡ false = ground arith in rw late refl

    module _ (rounds : ℕ → Round F) where
      abbrev run : ℕ → ℕ → Text → ℕ → Client → End × List (Row F) × Client
      run = run_loop F dumps write names deadline rounds

      -- The loop ends by the first round, of those from a round on, whose clock shows the
      -- deadline, whatever the store, the client and the cursor: with one more unit of fuel than
      -- the rounds before it, it does not run out of fuel.
      pub run_loop_ends :
          (before n : ℕ) (cursor : Text) (next_keepalive : ℕ) (client : Client)
          → deadline ≤ (rounds (before + n)).clock
          → has_ended (run (suc before) n cursor next_keepalive client).0 ≡ true
      unfolding run_loop after_step
      run_loop_ends zero n cursor next_keepalive client h =
          rw (round_late (rounds n) cursor next_keepalive client (rw (none_before n) at h)) refl
      run_loop_ends (suc before) n cursor next_keepalive client h =
          after_step_ends
            (round F dumps write names deadline (rounds n) cursor next_keepalive client) _
            (round-IsEnding (rounds n) cursor next_keepalive client)
            λ cursor' keepalive' client'.
              run_loop_ends before (suc n) cursor' keepalive' client' (rw (shift before n) at h)
