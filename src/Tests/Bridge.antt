-- ===== src/Tests/Bridge.antt =====
-- Concrete runs of the facade: the relay of a chat, the attachments, and the Cloud endpoints.
use hermes_link_server.Prelude.{
  ℕ, Text, text, text_eq, after_prefix, ◌+◌, ◌≤◌, arith, ◌≡◌, refl, true, Option, some, List, [],
  ◌∷◌, ◌++◌,
}
use hermes_link_server.Json.{
  Json, str, arr, obj, Items, nil, cons, Fields, end, field, JsonText, malformed, get_or,
}
use hermes_link_server.Bridge.Sse.{split_blocks}
use hermes_link_server.Bridge.Trace.{completed, chat_stream_terminal_state, trace_payload}
use hermes_link_server.Bridge.Trace.Laws.{IsBoundedTrace, trace_payload-IsBoundedTrace}
use hermes_link_server.Bridge.Relay.{
  Written, returned, os_error, relay_chat_stream, finish_relay, drop_returns, relay_blocks,
  relay_block,
}
use hermes_link_server.Bridge.Relay.Laws.{
  received, relay_text, relay_chat_stream_text, relay_chat_stream_drains,
}
use hermes_link_server.Attachments.{
  Bytes, ok, normalize_messages, max_total_bytes, attach, attach_kind, attach_text, attach_all,
  attach_message, add_total, append_text_file, attachment_name, decode_attachment, is_safe_filename,
  required_text, text_file_types, image_types, content_of, with_field, without,
}
use hermes_link_server.Attachments.Laws.{attached_bytes, normalize_messages_size}

abbrev no_json : Text → JsonText
no_json s = malformed

abbrev same : Text → Text
same s = s

-- A client that takes every block, and one that is gone.
abbrev log_write : Text → List Text → Written × List Text
log_write s log = (returned true, log ++ s ∷ [])

abbrev lost_write : Text → ℕ → Written × ℕ
lost_write s n = (os_error, n)

abbrev reads : List Text
reads = text "data: a\r\n" ∷ text "\ndata: [DO" ∷ text "NE]\n\n" ∷ []

split_run : split_blocks (text "a\n\nb\n\n\nc") ≡ (text "a" ∷ text "b" ∷ [], text "\nc")
unfolding split_blocks text
split_run = refl

relay_chat_stream_text_example :
    relay_chat_stream (chat_stream_terminal_state no_json) same log_write same reads []
    ≡ (completed, text "data: a\n\n" ∷ text "data: [DONE]\n\n" ∷ [])
unfolding relay_text received text chat_stream_terminal_state split_blocks finish_relay drop_returns
    relay_blocks relay_block text_eq after_prefix
relay_chat_stream_text_example =
    relay_chat_stream_text (chat_stream_terminal_state no_json) same log_write same reads []

relay_chat_stream_drains_example :
    (relay_chat_stream (chat_stream_terminal_state no_json) same log_write same reads []).0
    ≡ (relay_chat_stream (chat_stream_terminal_state no_json) same lost_write same reads 0).0
relay_chat_stream_drains_example =
    relay_chat_stream_drains (chat_stream_terminal_state no_json) same log_write lost_write same
      reads [] 0

abbrev kept : Text → Option Text
kept s = some s

abbrev no_text : Json → Text
no_text v = []

abbrev progress : Fields
progress =
    field "tool" (str (text "Terminal"))
      (field "status" (str (text "completed")) (field "label" (str (text "ls  -l")) end))

trace_payload-IsBoundedTrace_example :
    IsBoundedTrace no_json kept no_text no_text
      (trace_payload no_json kept no_text no_text progress)
trace_payload-IsBoundedTrace_example =
    trace_payload-IsBoundedTrace no_json kept no_text no_text progress

abbrev as_bytes : Bytes → Text
as_bytes b = b

abbrev attachment : Json
attachment = obj (
    field "kind" (str (text "Text")) (
      field "name" (str (text "a")) (
        field "media_type" (str (text "text/plain")) (field "data_base64" (str (text "abc")) end))))

abbrev messages : Items
messages =
    cons
      (obj (
        field "role" (str (text "user")) (
          field "content" (str (text "hi")) (field "attachments" (arr (cons attachment nil)) end))))
      nil

abbrev normalized : Items
normalized =
    cons
      (obj (
        field "role" (str (text "user"))
          (field "content" (str (text "hi\n\n[附件：a]\nabc\n[附件结束]")) end)))
      nil

normalize_run : normalize_messages kept as_bytes kept messages 0 ≡ ok (normalized, 3)
unfolding text normalize_messages attach attach_kind attach_text attach_all attach_message add_total
    append_text_file attachment_name decode_attachment is_safe_filename required_text
    text_file_types image_types content_of with_field without text_eq get_or
normalize_run = refl

normalize_messages_size_example :
    (3 ≡ 0 + attached_bytes kept as_bytes kept messages) × (3 ≤ max_total_bytes)
normalize_messages_size_example =
    normalize_messages_size kept as_bytes kept messages 0 normalized 3 (omega arith) normalize_run
