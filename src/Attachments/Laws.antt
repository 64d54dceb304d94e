-- ===== src/Attachments/Laws.antt =====
-- How many bytes the attachments of an accepted request hold.
use hermes_link_server.Prelude.{
  ℕ, ◌+◌, ◌≤◌, Text, ◌≡◌, refl, sym, ap, ◌∙◌, Bool, true, false, Option, none, some, [], ◌∷◌,
  length, arith, lower, if◌then◌else◌,
}
use hermes_link_server.Json.{
  Json, null, bool, int, float, str, arr, obj, Items, nil, cons, Fields, get_or,
}
use hermes_link_server.Attachments.{
  Result, err, ok, ◌>>=◌, Bytes, Draft, required_text, refuse_if, decode_attachment, checked_bytes,
  attach_kind, attach_image, attach_text, attachment_name, add_total, attach, attach_all,
  attach_message, checked_list, popped, normalize_message, normalize_messages, max_total_bytes,
  max_image_bytes, max_text_file_bytes, ChatAttachmentError,
}

bind_ok {ℓ κ μ} :
    {A : Type ℓ} {B : Type κ} {P : Type μ} (m : Result A) (f : A → Result B) {b : B}
    → (m >>= f) ≡ ok b
    → ((a : A) → m ≡ ok a → f a ≡ ok b → P)
    → P
bind_ok (err e) f h k = cc
bind_ok (ok a) f h k = k a refl h

if_ok {ℓ κ} :
    {A : Type ℓ} {P : Type κ} (t : Bool) (x y : Result A) {b : A}
    → (if t then x else y) ≡ ok b
    → (x ≡ ok b → P)
    → (y ≡ ok b → P)
    → P
if_ok true x y h f g = f h
if_ok false x y h f g = g h

err_ok {ℓ κ} : {A : Type ℓ} {P : Type κ} (e : ChatAttachmentError) (b : A) → (err e) ≡ (ok b) → P
err_ok e b h = cc

ok_injective {ℓ} : {A : Type ℓ} {a b : A} → (ok a) ≡ (ok b) → a ≡ b
ok_injective h = cc

refuse_if_ok {ℓ} :
    {B : Type ℓ} (t : Bool) (e : ChatAttachmentError) (k : Result B) (b : B)
    → (refuse_if t e >>= λ _. k) ≡ ok b
    → k ≡ ok b
refuse_if_ok true e k b h = cc
refuse_if_ok false e k b h = h

module _ (b64decode : Text → Option Bytes) (b64encode : Bytes → Text)
    (utf8_sig : Bytes → Option Text) where
  size : Option Bytes → ℕ
  size none = 0
  size (some raw) = length raw

  -- The number of bytes that the data of an attachment decodes to.
  unfoldable data_size : Json → ℕ
  unfolding size
  data_size (str s) = size (b64decode s)
  data_size _ = 0

  unfoldable attachment_size : Json → ℕ
  unfolding data_size get_or
  attachment_size (obj a) = data_size (get_or "data_base64" null a)
  attachment_size _ = 0

  unfoldable attachments_size : Items → ℕ
  unfolding attachment_size
  attachments_size nil = 0
  attachments_size (cons v vs) = attachment_size v + attachments_size vs

  unfoldable list_size : Json → ℕ
  unfolding attachments_size
  list_size (arr vs) = attachments_size vs
  list_size _ = 0

  unfoldable message_size : Json → ℕ
  unfolding list_size get_or
  message_size (obj m) = list_size (get_or "attachments" null m)
  message_size _ = 0

  -- The bytes of all attachments of a list of messages.
  unfoldable pub attached_bytes : Items → ℕ
  unfolding message_size
  attached_bytes nil = 0
  attached_bytes (cons v vs) = message_size v + attached_bytes vs

  checked_bytes_ok :
      (o : Option Bytes) (n : ℕ) (raw : Bytes)
      → checked_bytes b64decode b64encode utf8_sig o n ≡ ok raw
      → size o ≡ length raw
  unfolding checked_bytes size
  checked_bytes_ok none n raw h = cc
  checked_bytes_ok (some r) n raw h = ground arith

  decode_attachment_ok :
      (v : Json) (n : ℕ) (raw : Bytes)
      → decode_attachment b64decode b64encode utf8_sig v n ≡ ok raw
      → data_size v ≡ length raw
  unfolding decode_attachment data_size required_text
  decode_attachment_ok (str []) n raw h = cc
  decode_attachment_ok (str (c ∷ s)) n raw h = checked_bytes_ok _ n raw (refuse_if_ok _ _ _ raw h)
  decode_attachment_ok null n raw h = cc
  decode_attachment_ok (bool _) n raw h = cc
  decode_attachment_ok (int _) n raw h = cc
  decode_attachment_ok (float _) n raw h = cc
  decode_attachment_ok (arr _) n raw h = cc
  decode_attachment_ok (obj _) n raw h = cc

  attach_image_ok :
      (media : Text) (v : Json) (d d' : Draft) (raw : Bytes)
      → attach_image b64decode b64encode utf8_sig media v d ≡ ok (d', raw)
      → (d'.total_bytes ≡ d.total_bytes) × (data_size v ≡ length raw)
  unfolding attach_image
  attach_image_ok media v d d' raw h = ground (arith, decode_attachment_ok v max_image_bytes raw)

  attach_text_ok :
      (name media : Text) (v : Json) (d d' : Draft) (raw : Bytes)
      → attach_text b64decode b64encode utf8_sig name media v d ≡ ok (d', raw)
      → (d'.total_bytes ≡ d.total_bytes) × (data_size v ≡ length raw)
  unfolding attach_text
  attach_text_ok name media v d d' raw h =
      ground (arith, decode_attachment_ok v max_text_file_bytes raw)

  attach_kind_ok :
      (kind name media : Text) (v : Json) (d d' : Draft) (raw : Bytes)
      → attach_kind b64decode b64encode utf8_sig kind name media v d ≡ ok (d', raw)
      → (d'.total_bytes ≡ d.total_bytes) × (data_size v ≡ length raw)
  unfolding attach_kind
  attach_kind_ok kind name media v d d' raw h =
      ground (arith, attach_image_ok media v d d' raw, attach_text_ok name media v d d' raw)

  add_total_ok :
      (d : Draft) (raw : Bytes) (d' : Draft)
      → add_total b64decode b64encode utf8_sig (d, raw) ≡ ok d'
      → (d'.total_bytes ≡ d.total_bytes + length raw) × (d'.total_bytes ≤ max_total_bytes)
  unfolding add_total
  add_total_ok d raw d' h = ground arith

  attach_ok :
      (v : Json) (d d' : Draft)
      → attach b64decode b64encode utf8_sig v d ≡ ok d'
      → (d'.total_bytes ≡ d.total_bytes + attachment_size v) × (d'.total_bytes ≤ max_total_bytes)
  unfolding attach attachment_size
  attach_ok (obj a) d d' h = bind_ok (required_text (get_or "kind" null a) "kind") _ h λ kind _ h1.
      bind_ok (attachment_name (get_or "name" null a)) _ h1 λ name _ h2.
        bind_ok (required_text (get_or "media_type" null a) "media_type") _ h2 λ media _ h3.
          bind_ok
            (attach_kind b64decode b64encode utf8_sig (lower kind) name (lower media)
              (get_or "data_base64" null a) d)
            _ h3
            λ x attached h4.
              let (same, sized) = attach_kind_ok _ _ _ _ d x.0 x.1 attached in
              let (total, bound) = add_total_ok x.0 x.1 _ h4 in
              (total ∙ (λ i. same i + sym sized i), bound)
  attach_ok null d d' h = cc
  attach_ok (bool _) d d' h = cc
  attach_ok (int _) d d' h = cc
  attach_ok (float _) d d' h = cc
  attach_ok (str _) d d' h = cc
  attach_ok (arr _) d d' h = cc

  attach_all_ok :
      (vs : Items) (d d' : Draft)
      → d.total_bytes ≤ max_total_bytes
      → attach_all b64decode b64encode utf8_sig vs d ≡ ok d'
      → (d'.total_bytes ≡ d.total_bytes + attachments_size vs) × (d'.total_bytes ≤ max_total_bytes)
  unfolding attach_all attachments_size
  attach_all_ok nil d d' le h =
      let e = ap (λ x. x.total_bytes) (ok_injective h) in (omega (arith, e), omega (arith, e, le))
  attach_all_ok (cons v vs) d d' le h =
      bind_ok (attach b64decode b64encode utf8_sig v d) _ h λ d1 first rest.
        let (total, bound) = attach_ok v d d1 first in
        let (total', bound') = attach_all_ok vs d1 d' bound rest in
        (omega (arith, total, total'), bound')

  checked_list_size :
      (v : Json) (vs : Items)
      → checked_list b64decode b64encode utf8_sig v ≡ ok vs
      → list_size v ≡ attachments_size vs
  unfolding checked_list list_size
  checked_list_size (arr nil) vs h = cc
  checked_list_size (arr (cons w ws)) vs h = ground arith
  checked_list_size null vs h = cc
  checked_list_size (bool _) vs h = cc
  checked_list_size (int _) vs h = cc
  checked_list_size (float _) vs h = cc
  checked_list_size (str _) vs h = cc
  checked_list_size (obj _) vs h = cc

  attach_message_ok :
      (v : Json) (m m' : Fields) (n n' : ℕ)
      → n ≤ max_total_bytes
      → attach_message b64decode b64encode utf8_sig v m n ≡ ok (m', n')
      → (n' ≡ n + list_size v) × (n' ≤ max_total_bytes)
  unfolding attach_message list_size checked_list
  attach_message_ok v m m' n n' le h = grind (arith, attach_all_ok, checked_list_size)

  popped_ok :
      (v : Json) (m m' : Fields) (n n' : ℕ)
      → n ≤ max_total_bytes
      → popped b64decode b64encode utf8_sig v m n ≡ ok (m', n')
      → (n' ≡ n + list_size v) × (n' ≤ max_total_bytes)
  unfolding popped list_size
  popped_ok null m m' n n' le h =
      let e = ap (λ x. x.1) (ok_injective h) in (omega (arith, e), omega (arith, e, le))
  popped_ok (bool b) m m' n n' le h = attach_message_ok (bool b) m m' n n' le h
  popped_ok (int k) m m' n n' le h = attach_message_ok (int k) m m' n n' le h
  popped_ok (float s) m m' n n' le h = attach_message_ok (float s) m m' n n' le h
  popped_ok (str s) m m' n n' le h = attach_message_ok (str s) m m' n n' le h
  popped_ok (arr vs) m m' n n' le h = attach_message_ok (arr vs) m m' n n' le h
  popped_ok (obj fs) m m' n n' le h = attach_message_ok (obj fs) m m' n n' le h

  normalize_message_ok :
      (v : Json) (m' : Fields) (n n' : ℕ)
      → n ≤ max_total_bytes
      → normalize_message b64decode b64encode utf8_sig v n ≡ ok (m', n')
      → (n' ≡ n + message_size v) × (n' ≤ max_total_bytes)
  unfolding normalize_message message_size
  normalize_message_ok (obj m) m' n n' le h = popped_ok _ _ m' n n' le h
  normalize_message_ok null m' n n' le h = cc
  normalize_message_ok (bool _) m' n n' le h = cc
  normalize_message_ok (int _) m' n n' le h = cc
  normalize_message_ok (float _) m' n n' le h = cc
  normalize_message_ok (str _) m' n n' le h = cc
  normalize_message_ok (arr _) m' n n' le h = cc

  -- The total that the loop over the messages returns is the number of bytes that the data of all
  -- attachments decodes to, and is at most `MAX_TOTAL_BYTES`, where the loop starts with at most that.
  pub normalize_messages_size :
      (messages : Items) (start : ℕ) (out : Items) (total : ℕ)
      → start ≤ max_total_bytes
      → normalize_messages b64decode b64encode utf8_sig messages start ≡ ok (out, total)
      → (total ≡ start + attached_bytes messages) × (total ≤ max_total_bytes)
  unfolding normalize_messages attached_bytes
  normalize_messages_size nil n out n' le h =
      let e = ap (λ x. x.1) (ok_injective h) in (omega (arith, e), omega (arith, e, le))
  normalize_messages_size (cons v vs) n out n' le h =
      bind_ok (normalize_message b64decode b64encode utf8_sig v n) _ h λ x first h1.
        bind_ok (normalize_messages b64decode b64encode utf8_sig vs x.1) _ h1 λ y rest done.
          let (total, bound) = normalize_message_ok v x.0 n x.1 le first in
          let (total', bound') = normalize_messages_size vs x.1 y.0 y.1 bound rest in
          let e = ap (λ z. z.1) (ok_injective done) in
          (omega (arith, total, total', e), omega (arith, bound', e))
