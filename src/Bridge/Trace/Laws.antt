-- ===== src/Bridge/Trace/Laws.antt =====
-- What an execution event can carry, whatever the Agent sent.
use hermes_link_server.Prelude.{
  Text, text, ◌≡◌, refl, true, false, ◌≤◌, length, length-take-le, [], ◌∷◌, arith, Option, none,
  some, Bool, inl, inr, ◌⊎◌, is_empty, strip, if◌then◌else◌,
}
use hermes_link_server.Json.{Json, null, str, Fields, get, get_or, JsonText, text_or_empty}
use hermes_link_server.Bridge.Trace.{
  is_trace_tool, is_trace_id, normalize_trace_tool, redacted_detail, normalize_trace_detail,
  trace_payload, trace_fields, detail_text,
}

checked_or_IsTool :
    (t : Text) (b : Bool)
    → is_trace_tool t ≡ b
    → is_trace_tool (if b then t else text "agent-tool") ≡ true
unfolding is_trace_tool text
checked_or_IsTool t true e = e
checked_or_IsTool t false e = refl

normalize_trace_tool-IsTool : (v : Json) → is_trace_tool (normalize_trace_tool v) ≡ true
unfolding normalize_trace_tool
normalize_trace_tool-IsTool v = checked_or_IsTool _ _ refl

checked_id :
    (t : Text) (b : Bool)
    → is_trace_id t ≡ b
    → let i = (if b then t else []) in (i ≡ []) ⊎ (is_trace_id i ≡ true)
checked_id t true e = inr e
checked_id t false e = inl refl

or_empty_le : (b : Bool) (t : Text) → length t ≤ 280 → length (if b then [] else t) ≤ 280
or_empty_le true t h = omega arith
or_empty_le false t h = h

module _ (loads : Text → JsonText) (redact : Text → Option Text) (dumps repr : Json → Text) where
  redacted_detail_le : (o : Option Text) → length (redacted_detail o) ≤ 280
  unfolding redacted_detail
  redacted_detail_le none = omega arith
  redacted_detail_le (some d) = length-take-le 280 _

  normalize_trace_detail_le :
      (v : Json) → length (normalize_trace_detail loads redact dumps repr v) ≤ 280
  unfolding normalize_trace_detail
  normalize_trace_detail_le v =
      or_empty_le (is_empty (strip (detail_text loads redact dumps repr v)))
        (redacted_detail (redact (strip (detail_text loads redact dumps repr v))))
        (redacted_detail_le (redact (strip (detail_text loads redact dumps repr v))))

  pub record IsBoundedTrace (payload : Fields) : Type 0 where
    pub trace_id : Text
    pub tool : Text
    pub detail : Text
    pub id_field : get "id" payload ≡ some (str trace_id)
    pub id_form : (trace_id ≡ []) ⊎ (is_trace_id trace_id ≡ true)
    pub tool_field : get "tool" payload ≡ some (str tool)
    pub tool_form : is_trace_tool tool ≡ true
    pub detail_field : get "detail" payload ≡ (if is_empty detail then none else some (str detail))
    pub detail_length : length detail ≤ 280

  trace_fields-IsBoundedTrace :
      (i t : Text) (b : Bool) (d : Text)
      → (i ≡ []) ⊎ (is_trace_id i ≡ true)
      → is_trace_tool t ≡ true
      → length d ≤ 280
      → IsBoundedTrace (trace_fields loads redact dumps repr i t b d)
  unfolding trace_fields get
  trace_fields-IsBoundedTrace i t b [] hi ht hd = record {
    trace_id = i;
    tool = t;
    detail = [];
    id_field = refl;
    id_form = hi;
    tool_field = refl;
    tool_form = ht;
    detail_field = refl;
    detail_length = hd;
  }
  trace_fields-IsBoundedTrace i t b (c ∷ s) hi ht hd = record {
    trace_id = i;
    tool = t;
    detail = c ∷ s;
    id_field = refl;
    id_form = hi;
    tool_field = refl;
    tool_form = ht;
    detail_field = refl;
    detail_length = hd;
  }

  -- Whatever the Agent sent, the id of the execution event is empty or matches its pattern, the
  -- tool matches its pattern, and the detail has at most 280 characters; an empty detail is left
  -- out.
  pub trace_payload-IsBoundedTrace :
      (upstream : Fields) → IsBoundedTrace (trace_payload loads redact dumps repr upstream)
  unfolding trace_payload
  trace_payload-IsBoundedTrace upstream =
      trace_fields-IsBoundedTrace _ _ _ _
        (checked_id (strip (text_or_empty (get_or "toolCallId" null upstream))) _ refl)
        (normalize_trace_tool-IsTool _) (normalize_trace_detail_le _)
