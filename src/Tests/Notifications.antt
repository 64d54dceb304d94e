-- ===== src/Tests/Notifications.antt =====
-- Runs of event validation and of the DIRECT store, over whole seconds.
use hermes_link_server.Prelude.{
  ℕ, text, ◌≡◌, refl, String, true, false, none, some, List, [], ◌∷◌, ◌++◌, arith, any, take,
  contains, text_eq,
}
use hermes_link_server.Json.{str, int, pos, Fields, field, end, obj, keys, get}
use hermes_link_server.Notifications.Floats.{whole_seconds}
use hermes_link_server.Notifications.Events.{
  Event, ok, validate_event, to_object, is_forbidden, is_identifier, is_event_type, field_text,
  identifier,
}
use hermes_link_server.Notifications.Events.Laws.{IsEvent, validate_event_stable}
use hermes_link_server.Notifications.Direct.{
  Row, Store, new_store, publish, read_after_event_id, bounded,
}
use hermes_link_server.Notifications.Direct.Publish.{
  IsOrdered, new_store-IsOrdered, publish-IsOrdered,
}
use hermes_link_server.Notifications.Direct.Redelivery.{publish_idempotent}
use hermes_link_server.Notifications.Direct.Paging.{stream, read_next_page}

abbrev chat_payload : String → Fields
chat_payload n = field "event_id" (str (text n)) (
    field "event_type" (str (text " chat.completed")) (
      field "profile_id" (str (text "work")) (
        field "session_id" (str (text "s:1")) (
          field "run_id" (str (text "run_1"))
            (field "dedupe_key" (str (text n)) (field "created_at" (int (pos 900)) end))))))

abbrev chat_event : String → Event whole_seconds
chat_event n = record {
  event_id = text n;
  event_type = text "chat.completed";
  profile_id = text "work";
  run_id = text "run_1";
  dedupe_key = text n;
  job_id = none;
  session_id = text "s:1";
  created_at = some 900;
}

validate_runs : validate_event whole_seconds (obj (chat_payload "evt_1")) ≡ ok (chat_event "evt_1")
unfolding validate_event field_text identifier is_identifier is_event_type is_forbidden get text
    text_eq
validate_runs = refl

validate_event_stable_example :
    (any is_forbidden (keys (chat_payload "evt_1")) ≡ false)
    × IsEvent whole_seconds (chat_event "evt_1")
    × (validate_event whole_seconds (to_object whole_seconds (chat_event "evt_1"))
        ≡ ok (chat_event "evt_1"))
validate_event_stable_example =
    validate_event_stable whole_seconds (chat_payload "evt_1") (chat_event "evt_1") validate_runs

abbrev fresh : Store whole_seconds
fresh = new_store whole_seconds 5 2

publish-IsOrdered_example :
    IsOrdered whole_seconds (publish whole_seconds (obj (chat_payload "evt_1")) 1000 fresh).1
publish-IsOrdered_example =
    publish-IsOrdered whole_seconds (obj (chat_payload "evt_1")) 1000 fresh
      (new_store-IsOrdered whole_seconds 5 2)

abbrev one : Store whole_seconds
one = (publish whole_seconds (obj (chat_payload "evt_1")) 1000 fresh).1

abbrev two : Store whole_seconds
two = (publish whole_seconds (obj (chat_payload "evt_2")) 1000 one).1

abbrev row : ℕ → String → Row whole_seconds
row n id = record { sequence = n; created_at = 900; event = chat_event id }

two_rows : two.rows ≡ row 1 "evt_1" ∷ row 2 "evt_2" ∷ []
unfolding publish new_store validate_event field_text identifier is_identifier is_event_type
    is_forbidden get text text_eq
two_rows = refl

publish_idempotent_example :
    publish whole_seconds (obj (chat_payload "evt_1")) 2000 one
    ≡ publish whole_seconds (obj (chat_payload "evt_1")) 1000 fresh
publish_idempotent_example =
    publish_idempotent whole_seconds (obj (chat_payload "evt_1")) 1000 2000 fresh refl refl
      (new_store-IsOrdered whole_seconds 5 2)

abbrev pages : Store whole_seconds
pages = record {
  retention_seconds = 60;
  max_events = 2;
  rows = row 1 "evt_1" ∷ row 2 "evt_2" ∷ [];
  issued = 2;
}

pages-IsOrdered : IsOrdered whole_seconds pages
unfolding text text_eq
pages-IsOrdered = record {
  rising = omega arith;
  given = omega arith;
  ids = (refl, (refl, tt));
  dedupe_keys = (refl, (refl, tt));
  room = omega arith;
  bounded_rows = omega arith;
}

first_page :
    read_after_event_id whole_seconds (text "work" ∷ []) [] 1 pages ≡ ok ([] ++ row 1 "evt_1" ∷ [])
unfolding read_after_event_id is_identifier contains text text_eq
first_page = refl

evt_1_form : is_identifier (text "evt_1") ≡ true
unfolding is_identifier text
evt_1_form = refl

read_next_page_example :
    (rest : List (Row whole_seconds)) × (stream whole_seconds (text "work" ∷ []) [] pages
      ≡ ok ([] ++ row 1 "evt_1" ∷ rest))
    × ((next : ℕ)
        → read_after_event_id whole_seconds (text "work" ∷ []) (text "evt_1") next pages
          ≡ ok (take (bounded whole_seconds next) rest))
read_next_page_example =
    read_next_page whole_seconds (text "work" ∷ []) [] 1 pages [] (row 1 "evt_1") pages-IsOrdered
      evt_1_form first_page
