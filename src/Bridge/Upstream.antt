-- ===== src/Bridge/Upstream.antt =====
-- src/hermes_link/integrations/hermes_agent/bridge.py: `_proxy_agent` from the response of the
-- Agent on, and the publication of a completed chat. The client is a socket with a state of any
-- type; a False of its operations is an OSError. `urlopen` is a parameter of the composition.
pub mod Laws
pub mod Event
use hermes_link_server.Prelude.{
  ℕ, Text, text, strip, lower, starts_with, is_empty, Bool, true, false, not, ◌&&◌, Option, none,
  some, List, [], ◌∷◌, ◌++◌, if◌then◌else◌,
}
use hermes_link_server.Json.{Json, str, obj, Fields, end, field}
use hermes_link_server.Notifications.Floats.{Floats}
use hermes_link_server.Notifications.Direct.{Store, publish}
use hermes_link_server.Adapter.Paths.{profile_id_for_protocol_path}
use hermes_link_server.Bridge.Trace.{Terminal, pending, completed}
use hermes_link_server.Bridge.Relay.{Written, returned, relay_chat_stream}
use hermes_link_server.Bridge.Access.{Environment, Answer, refused, discover_profile_ids}
use hermes_link_server.Bridge.Models.{chat_completed_event}
use hermes_link_server.Bridge.Proxy.{
  Incoming, Outgoing, Prepared, not_agent, replied, forward, is_chat_path,
}

-- What `urlopen` returns; an HTTPError is a response. The headers are those that are read, and
-- `reads` is what reading the body gives.
pub record Response : Type 0 where
  pub status : ℕ
  pub content_type : Option Text
  pub profiles : Option Text
  pub content_length : Option Text
  pub reads : List Text

pub data Upstream : Type 0 where
  unreachable : Upstream
  responded : Response → Upstream

-- The status and the headers that are sent to the client, less the constant Cache-Control.
pub record Head : Type 0 where
  pub status : ℕ
  pub content_type : Text
  pub profiles : Text
  pub content_length : Option Text

-- The client's connection.
pub record Socket {ℓ} (Client : Type ℓ) : Type ℓ where
  pub end_headers : Head → Client → Bool × Client
  pub write : Text → Client → Bool × Client

-- `",".join(ids)`
unfoldable pub join_commas : List Text → Text
join_commas [] = []
join_commas (p ∷ []) = p
join_commas (p ∷ q ∷ ps) = p ++ b',' ∷ join_commas (q ∷ ps)

abbrev given_or : Text → Option Text → Text
given_or default none = default
given_or default (some s) = s

-- `if not profile_header`
abbrev or_visible : Text → Option Text → Text
or_visible visible none = visible
or_visible visible (some []) = visible
or_visible visible (some (c ∷ s)) = c ∷ s

-- `is_chat_stream`
unfoldable pub is_chat_stream : Text → Response → Bool
unfolding is_chat_path text starts_with lower
is_chat_stream path response =
    is_chat_path path
    && starts_with (text "text/event-stream") (lower (given_or [] response.content_type))

-- `if response_length and not is_chat_stream`
abbrev sent_length : Bool → Option Text → Option Text
sent_length true l = none
sent_length false none = none
sent_length false (some []) = none
sent_length false (some (c ∷ s)) = some (c ∷ s)

unfoldable pub head_of : Environment → Text → Response → Head
unfolding discover_profile_ids join_commas text
head_of env path response = record {
  status = response.status;
  content_type = given_or (text "application/json") response.content_type;
  profiles = or_visible (join_commas (discover_profile_ids env)) response.profiles;
  content_length = sent_length (is_chat_stream path response) response.content_length;
}

-- the event that is written before the relay
unfoldable pub accepted_event : Fields
unfolding text
accepted_event =
    field "type" (str (text "agent"))
      (field "phase" (str (text "accepted")) (field "summary" (str (text "Agent 已接收任务")) end))

abbrev pub is_completed : Terminal → Bool
is_completed completed = true
is_completed _ = false

-- `_chat_stream_terminal_state`, `_normalize_chat_sse_event`, the decoder of a read and the block
-- of the accepted event.
module _ (env : Environment) (terminal_of : Text → Terminal) (normalize decode : Text → Text)
    (accepted : Text) where
  module _ {ℓ} {Client : Type ℓ} (socket : Socket Client) where
    -- `self._write_chat_stream_chunk if client_connected else lambda _chunk: False`
    unfoldable pub write_if : Bool → Text → Client → Written × Client
    write_if false chunk client = (returned false, client)
    write_if true chunk client =
        let (sent, client') = socket.write chunk client in (returned sent, client')

    -- the loop over a response that is no chat stream; an OSError ends the request
    unfoldable pub copy_reads : List Text → Client → Bool × Client
    copy_reads [] client = (true, client)
    copy_reads ([] ∷ reads) client = (true, client)
    copy_reads ((c ∷ chunk) ∷ reads) client =
        let (sent, client') = socket.write (c ∷ chunk) client in
        let rest = copy_reads reads client' in if sent then rest else (false, client')

    offer_accepted : Bool → Client → Bool × Client
    offer_accepted false client = (false, client)
    offer_accepted true client = socket.write accepted client

    -- The chat stream, after `end_headers`: the state of the chat.
    unfoldable pub relay_response : Bool → List Text → Client → Terminal × Client
    unfolding offer_accepted
    relay_response connected reads client =
        let (connected', client') = offer_accepted connected client in
        relay_chat_stream terminal_of normalize (write_if connected') decode reads client'

    -- What the response leaves: the state of the chat, with `pending` where it is no chat stream
    -- or the request ended by an OSError.
    unfoldable pub send_response : Text → Response → Client → Terminal × Client
    send_response path response client =
        let (connected, client') = socket.end_headers (head_of env path response) client in
        if is_chat_stream path response
        then relay_response connected response.reads client'
        else (pending, (if connected then (copy_reads response.reads client').1 else client'))

  -- The profile and the session for which `_publish_chat_completed` is called.
  unfoldable pub publication_for : (Text → Text) → Incoming → Terminal → Option (Text × Text)
  unfolding strip
  publication_for unquote r terminal =
      if is_completed terminal
      then some
          (profile_id_for_protocol_path unquote r.path, strip (given_or [] r.headers.session_id))
      else none

  -- What `_proxy_agent` did: it returned False, it sent an answer of its own, or it sent the
  -- response of the Agent on, which left the chat in a state.
  pub data Proxied : Type 0 where
    passed : Proxied
    answered_with : Answer → Proxied
    relayed : Option (Text × Text) → Proxied

  -- `_proxy_agent` from `urlopen` on
  module _ {ℓ} {Client : Type ℓ} (socket : Socket Client) (unquote : Text → Text)
      (urlopen : Outgoing → Upstream) where
    open_response : Incoming → Text → Upstream → Client → Proxied × Client
    unfolding publication_for
    open_response r path unreachable client =
        (answered_with (refused 502 "Hermes Agent is unavailable"), client)
    open_response r path (responded response) client =
        let (terminal, client') = send_response socket path response client in
        (relayed (publication_for unquote r terminal), client')

    unfoldable pub complete_proxy : Incoming → Prepared → Client → Proxied × Client
    unfolding open_response
    complete_proxy r not_agent client = (passed, client)
    complete_proxy r (replied a) client = (answered_with a, client)
    complete_proxy r (forward out) client = open_response r out.path (urlopen out) client

module _ (F : Floats) where
  open F use {Real}

  -- `_publish_direct_event`: an error of the store is dropped
  publish_event : Option Fields → Real → Store F → Store F
  publish_event none now s = s
  publish_event (some event) now s = (publish F (obj event) now s).1

  -- `_publish_chat_completed` without the thread that sends the event to the Cloud
  unfoldable pub publish_chat_completed :
      Option (Text × Text) → Text → Text → Real → Store F → Store F
  unfolding publish_event
  publish_chat_completed none run_hex event_hex now s = s
  publish_chat_completed (some (profile, session)) run_hex event_hex now s =
      publish_event (chat_completed_event profile session run_hex event_hex) now s
