-- ===== src/Bridge/Stream.antt =====
-- src/hermes_link/integrations/hermes_agent/bridge.py: `_send_direct_notification_stream`. The
-- clock counts milliseconds; a round of the loop has its own reading of the clock and of the
-- store, so that other threads may publish between two rounds. The client has a state of any type.
pub mod Laws
pub mod Scope
pub mod Order
use hermes_link_server.Prelude.{
  ℕ, suc, ◌+◌, zero, Text, text, text_eq, strip, is_empty, any, length, ltb, leb, Bool, true, false,
  not, ◌||◌, Option, none, some, List, [], ◌∷◌, ◌++◌, if◌then◌else◌,
}
use hermes_link_server.Json.{Json}
use hermes_link_server.Pairing.Store.{Db}
use hermes_link_server.Notifications.Floats.{Floats}
use hermes_link_server.Notifications.Events.{Result, ok, err, to_object}
use hermes_link_server.Notifications.Direct.{Row, Store, read_after_event_id}
use hermes_link_server.Adapter.Headers.{RequestHeaders}
use hermes_link_server.Bridge.Access.{
  Environment, Access, denied, crashed, granted, Answer, uncaught_error, failed,
  direct_notification_profiles,
}

abbrev pub stream_unauthorized : Answer
stream_unauthorized =
    failed 401 "Hermes Link notification authorization failed" "notification_unauthorized"

abbrev pub no_profile : Answer
no_profile =
    failed 403 "No current Hermes Profile is authorized for notifications"
      "notification_profile_forbidden"

abbrev pub cursor_invalid : Answer
cursor_invalid =
    failed 400 "Hermes Link notification cursor is invalid" "notification_cursor_invalid"

abbrev pub unavailable : Answer
unavailable = failed 503 "Hermes Link notifications are unavailable" "notification_unavailable"

-- Why the loop ended: the deadline, a write to the client that failed, an error of the database, or
-- a ValueError, which is not caught. `running` is a loop that has no fuel left.
pub data End : Type 0 where
  finished lost_client store_failed value_error running : End

module _ (F : Floats) where
  -- The clock at the test of the loop, the store as it is read (none for an OSError or a
  -- sqlite3.Error), and the clock at the test of the keepalive.
  pub record Round : Type 0 where
    pub clock : ℕ
    pub store : Option (Store F)
    pub later : ℕ

  abbrev pub id_of : Row F → Text
  id_of row = strip row.event.event_id

  -- What the loop over a batch leaves: whether the client took every write, the cursor, the rows
  -- that were written, and the client.
  pub record Delivery {ℓ} (Client : Type ℓ) : Type ℓ where
    pub connected : Bool
    pub cursor : Text
    pub written : List (Row F)
    pub client : Client

  -- A round of the loop: it ends, or goes on with a cursor and the time of the next keepalive.
  pub data Step {ℓ} (Client : Type ℓ) : Type ℓ where
    stop : End → List (Row F) → Client → Step Client
    go : Text → ℕ → List (Row F) → Client → Step Client

  -- the rest of the loop after a round
  unfoldable pub after_step {ℓ} :
      {Client : Type ℓ}
      → Step Client
      → (Text → ℕ → Client → End × List (Row F) × Client)
      → End × List (Row F) × Client
  after_step (stop end written client) next = (end, written, client)
  after_step (go cursor next_keepalive written client) next =
      let (end, more, last) = next cursor next_keepalive client in (end, written ++ more, last)

  module _ {ℓ} {Client : Type ℓ} (dumps : Json → Text) (write : Text → Client → Bool × Client) where
    -- `id: …`, `event: …` and `data: …`
    unfoldable pub frame_text : Row F → Text
    unfolding text strip
    frame_text row =
        text "id: "
        ++ id_of row
        ++ text "\nevent: hermes.notification\ndata: "
        ++ dumps (to_object F row.event)
        ++ text "\n\n"

    -- the loop over a batch
    unfoldable pub deliver : List (Row F) → Text → Client → Delivery Client
    unfolding strip frame_text
    deliver [] cursor client = record {
      connected = true;
      cursor = cursor;
      written = [];
      client = client;
    }
    deliver (row ∷ rows) cursor client =
        let (sent, client') = write (frame_text row) client in
        let skipped = deliver rows cursor client in
        let rest = deliver rows (id_of row) client' in
        if is_empty (id_of row)
        then skipped
        else if sent
        then record rest { written = row ∷ rest.written }
        else record { connected = false; cursor = cursor; written = []; client = client' }

    unfoldable pub after_batch : ℕ → Delivery Client → Step Client
    after_batch next_keepalive d =
        if d.connected
        then go d.cursor next_keepalive d.written d.client
        else stop lost_client d.written d.client

    -- a round without an event
    unfoldable pub keep_alive : ℕ → Text → ℕ → Client → Step Client
    unfolding text
    keep_alive now cursor next_keepalive client =
        let (sent, client') = write (text ": keepalive\n\n") client in
        if leb next_keepalive now
        then (if sent then go cursor (now + 10000) [] client' else stop lost_client [] client')
        else go cursor next_keepalive [] client

    unfoldable pub on_batch : ℕ → Text → ℕ → Client → Result (List (Row F)) → Step Client
    unfolding after_batch deliver keep_alive
    on_batch now cursor next_keepalive client (err e) = stop value_error [] client
    on_batch now cursor next_keepalive client (ok []) = keep_alive now cursor next_keepalive client
    on_batch now cursor next_keepalive client (ok (row ∷ rows)) =
        after_batch next_keepalive (deliver (row ∷ rows) cursor client)

    module _ (profiles : List Text) (deadline : ℕ) where
      unfoldable pub on_store : ℕ → Text → ℕ → Client → Option (Store F) → Step Client
      unfolding on_batch
      on_store now cursor next_keepalive client none = stop store_failed [] client
      on_store now cursor next_keepalive client (some s) =
          on_batch now cursor next_keepalive client (read_after_event_id F profiles cursor 100 s)

      unfoldable pub round : Round → Text → ℕ → Client → Step Client
      unfolding on_store
      round r cursor next_keepalive client =
          if ltb r.clock deadline
          then on_store r.later cursor next_keepalive client r.store
          else stop finished [] client

      -- The loop from a round on: how it ended, the rows that were written, and the client.
      unfoldable pub run_loop :
          (ℕ → Round) → ℕ → ℕ → Text → ℕ → Client → End × List (Row F) × Client
      unfolding round after_step
      run_loop rounds zero n cursor next_keepalive client = (running, [], client)
      run_loop rounds (suc fuel) n cursor next_keepalive client =
          after_step (round (rounds n) cursor next_keepalive client) (run_loop rounds fuel (suc n))

  -- What precedes the headers of the response: a refusal, or the profiles and the cursor.
  pub data Opening : Type 0 where
    refuse : Answer → Opening
    open_at : List Text → Text → Opening

  abbrev values_of : List (Text × List Text) → List Text
  values_of [] = []
  values_of ((name, values) ∷ query) =
      if text_eq name (text "after") then values else values_of query

  -- `set(query) - {"after"} or len(query.get("after", [])) > 1`
  unfoldable pub is_bad_query : List (Text × List Text) → Bool
  unfolding text text_eq
  is_bad_query query =
      any (λ p. not (text_eq (p.0) (text "after"))) query || ltb 1 (length (values_of query))

  abbrev first_or_empty : List Text → Text
  first_or_empty [] = []
  first_or_empty (v ∷ vs) = v

  abbrev header_or_empty : Option Text → Text
  header_or_empty none = []
  header_or_empty (some s) = s

  -- `after_event_id`
  unfoldable pub stream_cursor : List (Text × List Text) → RequestHeaders → Text
  unfolding strip text text_eq
  stream_cursor query headers =
      let after_event_id = strip (first_or_empty (values_of query)) in
      if is_empty after_event_id
      then strip (header_or_empty headers.last_event_id)
      else after_event_id

  -- the read that tests the cursor
  unfoldable pub probe : List Text → Text → Option (Store F) → Opening
  probe profiles cursor none = refuse unavailable
  probe profiles cursor (some s) = elim (read_after_event_id F profiles cursor 1 s) [
    | err e ↦ refuse cursor_invalid
    | ok rows ↦ open_at profiles cursor
  ]

  unfoldable pub open_profiles :
      Access (List Text) → List (Text × List Text) → RequestHeaders → Option (Store F) → Opening
  unfolding is_bad_query stream_cursor probe
  open_profiles denied query headers store = refuse stream_unauthorized
  open_profiles crashed query headers store = refuse uncaught_error
  open_profiles (granted []) query headers store = refuse no_profile
  open_profiles (granted (p ∷ ps)) query headers store =
      if is_bad_query query
      then refuse cursor_invalid
      else probe (p ∷ ps) (stream_cursor query headers) store

  -- `_send_direct_notification_stream`, up to the response, with the parsed query
  unfoldable pub open_stream :
      (Text → Text)
      → (Text → Text)
      → Environment
      → RequestHeaders
      → List (Text × List Text)
      → ℕ
      → Option (Store F)
      → Db
      → Opening × Db
  unfolding open_profiles direct_notification_profiles
  open_stream sha256 unquote env headers query now store db =
      let (profiles, db') = direct_notification_profiles sha256 unquote env headers now db in
      (open_profiles profiles query headers store, db')

  -- The response, with two readings of the clock before the loop, on fuel.
  unfoldable pub serve_stream {ℓ} :
      {Client : Type ℓ}
      → (Json → Text)
      → (Text → Client → Bool × Client)
      → Opening
      → ℕ
      → ℕ
      → (ℕ → Round)
      → ℕ
      → Client
      → End × List (Row F) × Client
  unfolding run_loop
  serve_stream dumps write (refuse answer) start started rounds fuel client = (finished, [], client)
  serve_stream dumps write (open_at profiles cursor) start started rounds fuel client =
      run_loop dumps write profiles (start + 25000) rounds fuel 0 cursor (started + 10000) client
