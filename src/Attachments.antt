-- ===== src/Attachments.antt =====
-- src/hermes_link/api/attachments.py: the attachments of a chat request. A list of bytes stands for
-- `bytes`; base64, the UTF-8 decoders and the `json` module are parameters.
pub mod Laws
use package.text.Mathlib.Text.{◌==◌ as str_eq}
use hermes_link_server.Prelude.{
  ℕ, ◌+◌, ◌*◌, ◌/◌, Text, text, text_eq, strip, lower, contains, is_empty, length, String, Bool,
  true, false, not, ◌&&◌, ◌||◌, ◌==◌, leb, ltb, all, Option, none, some, List, [], ◌∷◌, ◌++◌,
  if◌then◌else◌,
}
use hermes_link_server.Json.{
  Json, null, bool, int, float, str, arr, obj, Items, nil, cons, Fields, end, field, JsonText,
  document, malformed, get, get_or,
}

abbrev pub max_attachments : ℕ
max_attachments = 4

abbrev pub max_total_bytes : ℕ
max_total_bytes = 4 * 1024 * 1024

abbrev pub max_image_bytes : ℕ
max_image_bytes = 3 * 1024 * 1024

abbrev pub max_text_file_bytes : ℕ
max_text_file_bytes = 512 * 1024

-- class ChatAttachmentError
pub record ChatAttachmentError : Type 0 where
  pub message : Text
  pub code : String

pub data Result {ℓ} (Value : Type ℓ) : Type ℓ where
  err : ChatAttachmentError → Result Value
  ok : Value → Result Value

infixl 5 ◌>>=◌
abbrev pub ◌>>=◌ {ℓ κ} :
    {Value : Type ℓ} {Next : Type κ} → Result Value → (Value → Result Next) → Result Next
err raised >>= next = err raised
ok value >>= next = next value

infixl 5 ◌>>◌
abbrev pub ◌>>◌ {ℓ} : {Next : Type ℓ} → Result (Unit {0}) → Result Next → Result Next
check >> next = check >>= λ _. next

abbrev pub refuse : String → String → ChatAttachmentError
refuse message code = record { message = text message; code = code }

abbrev pub refuse_if : Bool → ChatAttachmentError → Result (Unit {0})
refuse_if true e = err e
refuse_if false e = ok tt

abbrev pub too_large : ChatAttachmentError
too_large = refuse "Attachment is too large" "attachment_too_large"

abbrev required : String → ChatAttachmentError
required name = record {
  message = text "Attachment " ++ text name ++ text " is required";
  code = "attachment_invalid";
}

-- `_string`
unfoldable pub required_text : Json → String → Result Text
required_text (str []) name = err (required name)
required_text (str (c ∷ s)) name = ok (c ∷ s)
required_text _ name = err (required name)

-- `_SAFE_FILENAME`: `^[^\\/\x00-\x1f]{1,128}$`
unfoldable pub is_safe_filename : Text → Bool
is_safe_filename s =
    all (λ c. not (c == 92 || c == b'/' || ltb c 32)) s && (leb 1 (length s) && leb (length s) 128)

-- `_attachment_name`
unfoldable pub attachment_name : Json → Result Text
unfolding required_text is_safe_filename text_eq text
attachment_name value = do
  name ← required_text value "name"
  refuse_if (not (is_safe_filename name) || text_eq name (text ".") || text_eq name (text ".."))
      (refuse "Attachment name is invalid" "attachment_invalid")
  ok name

-- `_IMAGE_TYPES` and `_TEXT_FILE_TYPES`
unfoldable pub image_types : List Text
unfolding text
image_types = text "image/jpeg" ∷ text "image/png" ∷ text "image/gif" ∷ text "image/webp" ∷ []

unfoldable pub text_file_types : List Text
unfolding text
text_file_types =
    text "text/plain"
    ∷ text "text/markdown"
    ∷ text "text/csv"
    ∷ text "text/xml"
    ∷ text "application/json"
    ∷ text "application/xml"
    ∷ text "application/yaml"
    ∷ text "text/yaml"
    ∷ []

-- The local variables of the inner loop.
pub record Draft : Type 0 where
  pub content : Text
  pub image_parts : List Json
  pub total_bytes : ℕ

-- `message.pop(key, None)`
unfoldable pub without : String → Fields → Fields
without k end = end
without k (field j v fs) = let rest = without k fs in if str_eq j k then rest else field j v rest

-- `message[key] = value`
unfoldable pub with_field : String → Json → Fields → Fields
with_field k v end = field k v end
with_field k v (field j w fs) =
    let rest = with_field k v fs in if str_eq j k then field j v fs else field j w rest

abbrev pub items_of : List Json → Items
items_of [] = nil
items_of (v ∷ vs) = cons v (items_of vs)

abbrev pub count : Items → ℕ
count nil = 0
count (cons v vs) = 1 + count vs

abbrev string_field : String → Text → Fields → Fields
string_field name value rest = field name (str value) rest

-- the content of a message that has image parts
unfoldable pub parts_of : Text → List Json → Json
unfolding strip text
parts_of content images = arr (
    if is_empty (strip content)
    then items_of images
    else cons (obj (string_field "type" (text "text") (string_field "text" content end)))
        (items_of images))

unfoldable pub content_of : Draft → Json
unfolding parts_of
content_of d = elim d.image_parts [ [] ↦ str d.content | p ∷ ps ↦ parts_of d.content (p ∷ ps) ]

abbrev request_invalid : String → ChatAttachmentError
request_invalid message = refuse message "chat_request_invalid"

abbrev pub Bytes : Type 0
Bytes = List ℕ

-- `base64.b64decode(…, validate=True)` and `raw.decode("utf-8-sig")` return none where they raise.
module _ (b64decode : Text → Option Bytes) (b64encode : Bytes → Text)
    (utf8_sig : Bytes → Option Text) where
  checked_bytes : Option Bytes → ℕ → Result Bytes
  checked_bytes none maximum =
      err (refuse "Attachment data is not valid base64" "attachment_invalid")
  checked_bytes (some raw) maximum = if ltb maximum (length raw) then err too_large else ok raw

  -- `_decode_attachment`
  unfoldable pub decode_attachment : Json → ℕ → Result Bytes
  unfolding required_text checked_bytes
  decode_attachment value maximum = do
    encoded ← required_text value "data_base64"
    refuse_if (ltb ((maximum + 2) / 3 * 4 + 8) (length encoded)) too_large
    checked_bytes (b64decode encoded) maximum

  file_block : Text → Text → Text
  unfolding text
  file_block name body = text "[附件：" ++ name ++ text "]\n" ++ body ++ text "\n[附件结束]"

  append_decoded : Text → Text → Option Text → Result Text
  unfolding file_block strip text
  append_decoded content name none =
      err (refuse "Text attachment must be UTF-8" "attachment_invalid")
  append_decoded content name (some body) =
      if is_empty (strip body)
      then err (refuse "Text attachment is empty" "attachment_invalid")
      else ok (
          if is_empty content
          then file_block name body
          else content ++ text "\n\n" ++ file_block name body)

  -- `_append_text_file`
  unfoldable pub append_text_file : Text → Text → Bytes → Result Text
  unfolding append_decoded
  append_text_file content name raw = append_decoded content name (utf8_sig raw)

  image_part : Text → Bytes → Json
  unfolding text
  image_part media_type raw = obj (
      string_field "type" (text "image_url") (
        field "image_url"
          (obj (
            string_field "url" (text "data:" ++ media_type ++ text ";base64," ++ b64encode raw)
              end))
          end))

  -- the branch of an image: the draft without the new total, and the data
  unfoldable pub attach_image : Text → Json → Draft → Result (Draft × Bytes)
  unfolding image_types contains image_part
  attach_image media_type encoded d = do
    refuse_if (not (contains media_type image_types))
        (refuse "Unsupported image type" "attachment_type_unsupported")
    raw ← decode_attachment encoded max_image_bytes
    ok (record d { image_parts = d.image_parts ++ image_part media_type raw ∷ [] }, raw)

  -- the branch of a text file
  unfoldable pub attach_text : Text → Text → Json → Draft → Result (Draft × Bytes)
  unfolding text_file_types contains
  attach_text name media_type encoded d = do
    refuse_if (not (contains media_type text_file_types)) (
        refuse "Only UTF-8 text, Markdown, JSON, CSV, XML and YAML files are supported"
          "attachment_type_unsupported")
    raw ← decode_attachment encoded max_text_file_bytes
    content ← append_text_file d.content name raw
    ok (record d { content = content }, raw)

  unfoldable pub attach_kind : Text → Text → Text → Json → Draft → Result (Draft × Bytes)
  unfolding text text_eq
  attach_kind kind name media_type encoded d =
      if text_eq kind (text "image")
      then attach_image media_type encoded d
      else if text_eq kind (text "text")
      then attach_text name media_type encoded d
      else err (refuse "Unsupported attachment kind" "attachment_type_unsupported")

  -- `total_bytes += len(raw)` and the check
  unfoldable pub add_total : Draft × Bytes → Result Draft
  add_total (d, raw) =
      let total = d.total_bytes + length raw in
      if ltb max_total_bytes total
      then err (refuse "Attachments are too large" "attachment_too_large")
      else ok (record d { total_bytes = total })

  -- the body of the inner loop
  unfoldable pub attach : Json → Draft → Result Draft
  unfolding get_or lower
  attach (obj attachment) d = do
    kind ← required_text (get_or "kind" null attachment) "kind"
    name ← attachment_name (get_or "name" null attachment)
    media_type ← required_text (get_or "media_type" null attachment) "media_type"
    attached ←
        attach_kind (lower kind) name (lower media_type) (get_or "data_base64" null attachment) d
    add_total attached
  attach _ d = err (refuse "Attachment is invalid" "attachment_invalid")

  unfoldable pub attach_all : Items → Draft → Result Draft
  attach_all nil d = ok d
  attach_all (cons v vs) d = attach v d >>= attach_all vs

  pub is_user : Json → Bool
  unfolding text text_eq
  is_user (str s) = text_eq s (text "user")
  is_user _ = false

  pub checked_list : Json → Result Items
  checked_list (arr (cons v vs)) =
      if ltb max_attachments (count (cons v vs))
      then err (refuse "Too many attachments" "attachment_count_exceeded")
      else ok (cons v vs)
  checked_list _ = err (refuse "Attachments must be a non-empty list" "attachment_invalid")

  pub checked_content : Json → Result Text
  checked_content (str s) = ok s
  checked_content _ = err (refuse "Attachment messages must use text content" "attachment_invalid")

  -- a message from which a value was popped, which is not None
  unfoldable pub attach_message : Json → Fields → ℕ → Result (Fields × ℕ)
  unfolding is_user checked_list checked_content get_or with_field content_of
  attach_message raw_attachments message total = do
    refuse_if (not (is_user (get_or "role" null message)))
        (refuse "Only user messages may include attachments" "attachment_invalid")
    attachments ← checked_list raw_attachments
    content ← checked_content (get_or "content" (str []) message)
    d ← attach_all attachments (record { content = content; image_parts = []; total_bytes = total })
    ok (with_field "content" (content_of d) message, d.total_bytes)

  pub popped : Json → Fields → ℕ → Result (Fields × ℕ)
  unfolding attach_message
  popped null message total = ok (message, total)
  popped v message total = attach_message v message total

  -- the body of the outer loop
  unfoldable pub normalize_message : Json → ℕ → Result (Fields × ℕ)
  unfolding popped get_or without
  normalize_message (obj message) total =
      popped (get_or "attachments" null message) (without "attachments" message) total
  normalize_message _ total = err (request_invalid "Chat message is invalid")

  unfoldable pub normalize_messages : Items → ℕ → Result (Items × ℕ)
  unfolding normalize_message
  normalize_messages nil total = ok (nil, total)
  normalize_messages (cons v vs) total = do
    (message, total') ← normalize_message v total
    (messages, total'') ← normalize_messages vs total'
    ok (cons (obj message) messages, total'')

  normalize_list : Json → Fields → Result Json
  unfolding normalize_messages with_field
  normalize_list (arr messages) body = do
    (messages', total) ← normalize_messages messages 0
    ok (obj (with_field "messages" (arr messages') body))
  normalize_list _ body = err (request_invalid "Chat request messages are required")

  unfoldable pub normalize_body : JsonText → Result Json
  unfolding normalize_list get_or
  normalize_body (document (obj body)) = normalize_list (get_or "messages" null body) body
  normalize_body (document _) = err (request_invalid "Chat request must be a JSON object")
  normalize_body malformed = err (request_invalid "Chat request must be valid JSON")

  -- `normalize_chat_attachment_request`, with `json.loads` after the UTF-8 decoder for `loads` and
  -- `json.dumps` before the encoder for `dumps`
  unfoldable pub normalize_chat_attachment_request :
      (Bytes → JsonText) → (Json → Bytes) → Bytes → Result Bytes
  normalize_chat_attachment_request loads dumps [] = ok []
  normalize_chat_attachment_request loads dumps (b ∷ payload) = do
    body ← normalize_body (loads (b ∷ payload))
    ok (dumps body)
