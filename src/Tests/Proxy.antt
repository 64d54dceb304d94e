-- ===== src/Tests/Proxy.antt =====
-- Concrete runs of the proxy: a request that is forwarded, its response, and the published event.
use hermes_link_server.Prelude.{
  ℕ, ◌≤◌, ◌<◌, Text, text, text_eq, ◌≡◌, refl, true, false, Option, none, some, List, [], ◌∷◌, ◌++◌,
  all, length, is_profile_id, full_match, is_alnum, is_name_char,
}
use hermes_link_server.Json.{Json, pos, JsonText, malformed, obj}
use hermes_link_server.Adapter.Paths.{
  protocol_exact_paths, protocol_prefix_paths, protocol_to_agent_path,
}
use hermes_link_server.Adapter.Headers.{
  bearer_token, is_device, forward_agent_headers, prepare_agent_headers, server_agent_token,
  set_header,
}
use hermes_link_server.Pairing.Store.{Db}
use hermes_link_server.Attachments.{Bytes}
use hermes_link_server.Identity.{Url}
use hermes_link_server.Bridge.Access.{Environment}
use hermes_link_server.Bridge.Trace.{Terminal, chat_stream_terminal_state}
use hermes_link_server.Bridge.Models.{completed_fields}
use hermes_link_server.Bridge.Proxy.{
  Incoming, Outgoing, forward, prepare_proxy, is_chat_path, is_local_host, is_loopback,
  length_refusal, body_of, target_url, agent_origin, chat_body,
}
use hermes_link_server.Bridge.Proxy.Laws.{IsForwarded, prepare_proxy-IsForwarded}
use hermes_link_server.Bridge.Upstream.{Response, Socket, send_response}
use hermes_link_server.Bridge.Upstream.Laws.{send_response_drains}
use hermes_link_server.Bridge.Upstream.Event.{validate_event-completed}
use hermes_link_server.Notifications.Floats.{whole_seconds}
use hermes_link_server.Notifications.Events.{ok, err, field_invalid, validate_event, is_identifier}

abbrev as_is : Text → Text
as_is s = s

abbrev host : Environment
host = record {
  agent_token = text "agent-token";
  mobile_token = [];
  profile_ids = text "work" ∷ [];
  profile_entries = none;
}

abbrev local : Text → Url
local s = record {
  scheme = text "http";
  hostname = some (text "127.0.0.1");
  username = none;
  password = none;
  query = [];
  fragment = [];
}

abbrev no_bytes : Text → Option Bytes
no_bytes s = none

abbrev to_text : Bytes → Text
to_text b = b

abbrev to_some : Bytes → Option Text
to_some b = some b

abbrev no_json : Bytes → JsonText
no_json b = malformed

abbrev no_dump : Json → Bytes
no_dump v = []

abbrev request : Incoming
request = record {
  method = text "POST";
  path = text "/hermes-link/v1/profiles/work/jobs/7";
  query = text "a=1";
  headers = record {
    authorization = some (text "Bearer agent-token");
    content_type = none;
    last_event_id = none;
    session_id = none;
  };
  accept = none;
  content_length = some (pos 2);
  rfile = text "{}";
}

abbrev empty_db : Db
empty_db = record { tickets = []; devices = [] }

abbrev sent : Outgoing
sent = record {
  path = text "/p/work/api/jobs/7";
  target = text "http://127.0.0.1:8642/p/work/api/jobs/7?a=1";
  method = text "POST";
  headers = ("Authorization", text "Bearer agent-token") ∷ ("Accept", text "application/json") ∷ [];
  body = some (text "{}");
  timeout = 300;
}

proxy_run :
    (prepare_proxy as_is as_is host local
      (text "http://127.0.0.1:8642/")
      no_bytes
      to_text
      to_some
      no_json
      no_dump
      request
      10
      empty_db).0
    ≡ forward sent
unfolding prepare_proxy protocol_to_agent_path protocol_exact_paths protocol_prefix_paths
    is_profile_id text text_eq is_chat_path is_local_host is_loopback length_refusal body_of
    target_url agent_origin chat_body prepare_agent_headers forward_agent_headers bearer_token
    is_device server_agent_token set_header
proxy_run = refl

prepare_proxy-IsForwarded_example :
    IsForwarded as_is as_is host local
      (text "http://127.0.0.1:8642/")
      no_bytes
      to_text
      to_some
      no_json
      no_dump
      request
      10
      empty_db
      sent
prepare_proxy-IsForwarded_example =
    prepare_proxy-IsForwarded as_is as_is host local (text "http://127.0.0.1:8642/") no_bytes
      to_text to_some no_json no_dump request 10 empty_db sent proxy_run

-- A client that keeps what it is sent, and one that is gone.
abbrev listening : Socket (List Text)
listening = record { end_headers = λ h log. (true, log); write = λ s log. (true, log ++ s ∷ []) }

abbrev gone : Socket ℕ
gone = record { end_headers = λ h n. (false, n); write = λ s n. (false, n) }

abbrev chat_path : Text
chat_path = text "/p/work/v1/chat/completions"

abbrev stream : Response
stream = record {
  status = 200;
  content_type = some (text "text/event-stream; charset=utf-8");
  profiles = none;
  content_length = none;
  reads = text "data: a\r\n" ∷ text "\ndata: [DONE]\n\n" ∷ [];
}

abbrev terminal_state : Text → Terminal
terminal_state = chat_stream_terminal_state no_json

send_response_drains_example :
    (send_response host terminal_state as_is as_is
      (text "accepted")
      listening
      chat_path
      stream
      []).0
    ≡ (send_response host terminal_state as_is as_is (text "accepted") gone chat_path stream 0).0
send_response_drains_example =
    send_response_drains host terminal_state as_is as_is (text "accepted") listening gone chat_path
      stream [] 0

abbrev run_hex : Text
run_hex = text "0123456789abcdef0123456789abcdef"

session_run : is_identifier (text "s1") ≡ true
unfolding is_identifier full_match is_name_char is_alnum text
session_run = refl

work_run : is_profile_id (text "work") ≡ true
unfolding is_profile_id text
work_run = refl

hex_run : all is_alnum run_hex ≡ true
unfolding is_alnum text
hex_run = refl

length_run : length run_hex ≡ 32
unfolding text
length_run = refl

abbrev payload : Json
payload = obj (completed_fields (text "work") (text "s1") (text "run_" ++ run_hex) run_hex)

validate_event-completed_example :
    (length (text "s1") ≤ 118
      → validate_event whole_seconds payload
        ≡ ok (record {
          event_id = text "evt_" ++ run_hex;
          event_type = text "chat.completed";
          profile_id = text "work";
          run_id = text "run_" ++ run_hex;
          dedupe_key = text "chat:" ++ (text "s1" ++ (text ":" ++ (text "run_" ++ run_hex)));
          job_id = none;
          session_id = text "s1";
          created_at = none;
        }))
    × (118 < length (text "s1")
        → validate_event whole_seconds payload ≡ err (field_invalid "dedupe_key"))
validate_event-completed_example =
    validate_event-completed (text "s1") run_hex run_hex (hex_run, length_run) (hex_run, length_run)
      session_run whole_seconds (text "work") work_run
