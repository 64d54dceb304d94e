-- ===== src/Bridge/Trace.antt =====
-- src/hermes_link/integrations/hermes_agent/bridge.py: the execution events that the facade writes
-- in place of the tool progress of the Agent, and the state in which a block leaves the chat.
-- `json.loads`, `json.dumps` and `redact_sensitive_text` are parameters.
pub mod Laws
use hermes_link_server.Prelude.{
  ℕ, Text, text, text_eq, strip, lower, after_prefix, full_match, is_space, is_alnum, is_name_char,
  is_empty, contains, take, Bool, true, false, ◌&&◌, ◌||◌, ◌==◌, leb, not, Option, none, some, List,
  [], ◌∷◌, ◌++◌, if◌then◌else◌,
}
use hermes_link_server.Json.{
  Json, null, str, arr, obj, cons, Fields, end, field, JsonText, document, malformed, get, get_or,
  text_or_empty, to_text, is_truthy,
}
use hermes_link_server.Bridge.Sse.{lines_of, join_lines}

-- `TRACE_TOOL_PATTERN`: `^[a-z0-9._-]{1,40}$`
is_tool_char : ℕ → Bool
is_tool_char c =
    (leb b'a' c && leb c b'z') || (leb b'0' c && leb c b'9') || c == b'.' || c == b'_' || c == b'-'

unfoldable pub is_trace_tool : Text → Bool
unfolding full_match is_tool_char
is_trace_tool s = full_match is_tool_char 1 40 s

-- `TRACE_ID_PATTERN`: `^[A-Za-z0-9._-]{1,128}$`
unfoldable pub is_trace_id : Text → Bool
unfolding full_match is_name_char
is_trace_id s = full_match is_name_char 1 128 s

-- `str(raw or default)`
unfoldable pub text_or : Text → Json → Text
unfolding is_truthy to_text
text_or default v = if is_truthy v then to_text v else default

-- `_normalize_trace_tool`
unfoldable pub normalize_trace_tool : Json → Text
unfolding text_or strip lower text
normalize_trace_tool raw_tool =
    let tool = lower (strip (text_or (text "agent-tool") raw_tool)) in
    if is_trace_tool tool then tool else text "agent-tool"

-- `_normalize_trace_status(raw) == "completed"`
unfoldable pub is_completed_status : Json → Bool
unfolding text_or_empty strip lower text
is_completed_status raw_status =
    text_eq (lower (strip (text_or_empty raw_status))) (text "completed")

-- `detail.split()`: the words, with the first one under construction
abbrev word_end : Text → List Text → List Text
word_end [] ws = ws
word_end (c ∷ w) ws = (c ∷ w) ∷ ws

abbrev prefix_word : ℕ → Text × List Text → Text × List Text
prefix_word c (w, ws) = (c ∷ w, ws)

-- The word that the text begins with, and the words that follow.
words_from : Text → Text × List Text
words_from [] = ([], [])
words_from (c ∷ s) =
    let (w, ws) = words_from s in if is_space c then ([], word_end w ws) else prefix_word c (w, ws)

unfoldable pub split_words : Text → List Text
unfolding words_from
split_words s = let (w, ws) = words_from s in word_end w ws

-- `" ".join(words)`
unfoldable pub join_words : List Text → Text
join_words [] = []
join_words (w ∷ []) = w
join_words (w ∷ v ∷ ws) = w ++ b' ' ∷ join_words (v ∷ ws)

-- `_normalize_trace_detail` from the redaction on; `none` is an exception that it raised
unfoldable pub redacted_detail : Option Text → Text
unfolding split_words join_words
redacted_detail none = []
redacted_detail (some detail) = take 280 (join_words (split_words detail))

-- The values that `_normalize_chat_sse_event` reads of a block: the event name, and the data lines.
abbrev event_line : Option Text → Text → Text
event_line none name = name
event_line (some rest) name = strip rest

abbrev data_line : Option Text → List Text → List Text
data_line none parts = parts
data_line (some rest) parts = strip rest ∷ parts

unfoldable pub event_name_of : Text → List Text → Text
unfolding text
event_name_of name [] = name
event_name_of name (l ∷ ls) = event_name_of (event_line (after_prefix (text "event:") l) name) ls

unfoldable pub data_parts_of : List Text → List Text
unfolding text
data_parts_of [] = []
data_parts_of (l ∷ ls) = data_line (after_prefix (text "data:") l) (data_parts_of ls)

abbrev has_parts : List Text → Bool
has_parts [] = false
has_parts (_ ∷ _) = true

-- The chat's state at the end of the stream: "", "completed" or "failed".
pub data Terminal : Type 0 where
  pending completed failed : Terminal

unfoldable pub reason_state : Json → Terminal
unfolding to_text strip lower contains text
reason_state null = pending
reason_state v =
    if contains (lower (strip (to_text v)))
      (text "error" ∷ text "cancel" ∷ text "cancelled" ∷ text "canceled" ∷ [])
    then failed
    else completed

unfoldable pub choices_state : Json → Terminal
unfolding get_or reason_state
choices_state (arr (cons (obj choice) _)) = reason_state (get_or "finish_reason" null choice)
choices_state _ = pending

unfoldable pub data_state : JsonText → Terminal
unfolding get_or choices_state
data_state (document (obj payload)) = choices_state (get_or "choices" null payload)
data_state _ = pending

module _ (loads : Text → JsonText) where
  -- `_chat_stream_terminal_state`
  unfoldable pub chat_stream_terminal_state : Text → Terminal
  unfolding lines_of data_parts_of join_lines strip text data_state
  chat_stream_terminal_state block =
      let data_text = strip (join_lines (data_parts_of (lines_of block))) in
      if text_eq data_text (text "[DONE]")
      then completed
      else if is_empty data_text
      then pending
      else data_state (loads data_text)

  -- `repr` is `str` on lists and dictionaries.
  module _ (redact : Text → Option Text) (dumps repr : Json → Text) where
    -- `str(raw_detail or "")`
    pub detail_text : Json → Text
    unfolding is_truthy text_or_empty
    detail_text (arr vs) = if is_truthy (arr vs) then repr (arr vs) else []
    detail_text (obj fs) = if is_truthy (obj fs) then repr (obj fs) else []
    detail_text v = text_or_empty v

    -- `_normalize_trace_detail`
    unfoldable pub normalize_trace_detail : Json → Text
    unfolding detail_text strip redacted_detail
    normalize_trace_detail raw_detail =
        let detail = strip (detail_text raw_detail) in
        if is_empty detail then [] else redacted_detail (redact detail)

    -- `_execution_sse_event`
    unfoldable pub execution_sse_event : Fields → Text
    unfolding text
    execution_sse_event payload =
        text "event: hermes.execution.event\ndata: " ++ dumps (obj payload)

    abbrev detail_field : Text → Fields
    detail_field [] = end
    detail_field (c ∷ s) = field "detail" (str (c ∷ s)) end

    pub trace_fields : Text → Text → Bool → Text → Fields
    unfolding text
    trace_fields trace_id tool done detail = field "id" (str trace_id) (
        field "type" (str (text "tool")) (
          field "phase" (str (if done then text "completed" else text "started")) (
            field "tool" (str tool) (
              field "status" (str (if done then text "completed" else text "running")) (
                field "summary"
                  (str ((if done then text "已完成工具调用" else text "正在调用工具") ++ text "：" ++ tool))
                  (detail_field detail))))))

    -- the payload of the execution event
    unfoldable pub trace_payload : Fields → Fields
    unfolding get_or text_or_empty strip trace_fields
    trace_payload upstream =
        let raw_id = strip (text_or_empty (get_or "toolCallId" null upstream)) in
        trace_fields (if is_trace_id raw_id then raw_id else [])
          (normalize_trace_tool (get_or "tool" null upstream))
          (is_completed_status (get_or "status" null upstream))
          (normalize_trace_detail (get_or "label" null upstream))

    trace_block : Text → JsonText → Text
    trace_block block (document (obj upstream)) = execution_sse_event (trace_payload upstream)
    trace_block block _ = block

    -- `_normalize_chat_sse_event`
    unfoldable pub normalize_chat_sse_event : Text → Text
    unfolding lines_of event_name_of data_parts_of join_lines text trace_block
    normalize_chat_sse_event block =
        let ls = lines_of block in
        let parts = data_parts_of ls in
        if text_eq (event_name_of (text "message") ls) (text "hermes.tool.progress")
          && has_parts parts
        then trace_block block (loads (join_lines parts))
        else block
