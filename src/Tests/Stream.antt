-- ===== src/Tests/Stream.antt =====
-- Concrete runs of the DIRECT stream: two events, a client that keeps what it is sent, and a clock
-- of thirteen seconds for a round.
use hermes_link_server.Prelude.{
  ℕ, ◌+◌, ◌<◌, ◌*◌, Text, text, text_eq, contains, strip, ◌≡◌, refl, Bool, true, String, none, some,
  List, [], ◌∷◌, ◌++◌, arith, All,
}
use hermes_link_server.Json.{Json}
use hermes_link_server.Notifications.Floats.{whole_seconds}
use hermes_link_server.Notifications.Events.{Event, ok, is_identifier}
use hermes_link_server.Notifications.Direct.{
  Row, Store, read_after_event_id, requested, checked_cursor, cursor_sequence,
}
use hermes_link_server.Notifications.Direct.Publish.{IsOrdered}
use hermes_link_server.Notifications.Direct.Paging.{stream}
use hermes_link_server.Bridge.Stream.{End, finished, Round, run_loop}
use hermes_link_server.Bridge.Stream.Laws.{has_ended, run_loop_ends}
use hermes_link_server.Bridge.Stream.Scope.{IsOf, run_loop-IsOf}
use hermes_link_server.Bridge.Stream.Order.{run_loop-prefix}
use hermes_link_server.Bridge.Stream.Order.Complete.{run_loop_complete}

abbrev event : String → String → Event whole_seconds
event id profile = record {
  event_id = text id;
  event_type = text "chat.completed";
  profile_id = text profile;
  run_id = [];
  dedupe_key = text id;
  job_id = none;
  session_id = text "s:1";
  created_at = some 900;
}

abbrev row : ℕ → String → String → Row whole_seconds
row n id profile = record { sequence = n; created_at = 900; event = event id profile }

abbrev store : Store whole_seconds
store = record {
  retention_seconds = 60;
  max_events = 3;
  rows = row 1 "evt_1" "work" ∷ row 2 "evt_2" "home" ∷ row 3 "evt_3" "work" ∷ [];
  issued = 3;
}

store-IsOrdered : IsOrdered whole_seconds store
unfolding text text_eq
store-IsOrdered = record {
  rising = omega arith;
  given = omega arith;
  ids = (refl, (refl, (refl, tt)));
  dedupe_keys = (refl, (refl, (refl, tt)));
  room = omega arith;
  bounded_rows = omega arith;
}

ids_run : All (λ (r : Row whole_seconds). is_identifier r.event.event_id ≡ true) store.rows
unfolding is_identifier text
ids_run = (refl, (refl, (refl, tt)))

abbrev names : List Text
names = text "work" ∷ []

requested_run : requested whole_seconds names ≡ ok names
unfolding read_after_event_id is_identifier contains text text_eq
requested_run = refl

abbrev seen : List (Row whole_seconds)
seen = row 1 "evt_1" "work" ∷ row 3 "evt_3" "work" ∷ []

stream_run : stream whole_seconds names [] store ≡ ok seen
unfolding stream requested checked_cursor cursor_sequence is_identifier contains strip text text_eq
stream_run = refl

abbrev rounds : ℕ → Round whole_seconds
rounds n = record { clock = n * 13000; store = some store; later = n * 13000 }

abbrev no_dump : Json → Text
no_dump v = []

abbrev log : Text → List Text → Bool × List Text
log s written = (true, written ++ s ∷ [])

abbrev run : End × List (Row whole_seconds) × List Text
run = run_loop whole_seconds no_dump log names 25000 rounds 3 0 [] 10000 []

run_result : (run.0 ≡ finished) × (run.1 ≡ seen)
unfolding run_loop read_after_event_id is_identifier contains text text_eq
run_result = (refl, refl)

run_loop_ends_example :
    has_ended (run_loop whole_seconds no_dump log names 25000 rounds 3 0 [] 10000 []).0 ≡ true
run_loop_ends_example =
    run_loop_ends whole_seconds no_dump log names 25000 rounds 2 0 [] 10000 [] (omega arith)

run_loop-IsOf_example :
    All
      (IsOf whole_seconds names)
      (run_loop whole_seconds no_dump log names 25000 rounds 3 0 [] 10000 []).1
run_loop-IsOf_example =
    run_loop-IsOf whole_seconds no_dump log names names 25000 rounds requested_run 3 0 [] 10000 []

run_loop-prefix_example :
    (rest : List (Row whole_seconds)) × (seen
      ≡ (run_loop whole_seconds no_dump log names 25000 rounds 3 0 [] 10000 []).1 ++ rest)
run_loop-prefix_example =
    run_loop-prefix whole_seconds no_dump log names 25000 store store-IsOrdered ids_run rounds 3 0
      [] 10000 [] seen (λ m. refl) stream_run

early_run : (i : ℕ) → i < 1 → (rounds (i + 0)).clock < 25000
early_run i h = omega (arith, h)

run_loop_complete_example :
    (run_loop whole_seconds no_dump log names 25000 rounds (1 + 2) 0 [] 10000 []).1 ≡ seen
run_loop_complete_example =
    run_loop_complete whole_seconds no_dump log (λ s c. refl) names 25000 store store-IsOrdered
      ids_run rounds 1 2 0 [] 10000 [] seen (λ i. refl) early_run (omega arith) stream_run
