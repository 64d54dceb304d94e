-- ===== src/Bridge/Proxy/Laws.antt =====
-- What is forwarded to the Agent.
use hermes_link_server.Prelude.{
  ℕ, ◌*◌, ◌≤◌, ◌<◌, ◌==◌, take, length, length-take-le, Bool-cases, inl, inr, Text, text, ◌≡◌, refl,
  sym, ap, ◌∙◌, Bool, true, false, Option, none, some, ◌++◌, arith,
}
use hermes_link_server.Json.{Json, ℤ, pos, negsuc, JsonText}
use hermes_link_server.Pairing.Store.{Db}
use hermes_link_server.Adapter.Paths.{protocol_to_agent_path}
use hermes_link_server.Adapter.Headers.{
  Headers, Result, ok, err, set_header, server_agent_token, prepare_agent_headers, is_device,
  bearer_token,
}
use hermes_link_server.Adapter.Headers.Laws.{
  header, header-set_header, IsAuthorized, prepare_agent_headers_safe,
}
use hermes_link_server.Attachments.{Bytes, normalize_chat_attachment_request}
use hermes_link_server.Attachments
use hermes_link_server.Identity.{Url}
use hermes_link_server.Bridge.Access.{Environment, Answer, is_too_long}
use hermes_link_server.Bridge.Proxy.{
  Incoming, Outgoing, Prepared, forward, is_loopback, is_chat_path, body_of, chat_body,
  length_refusal, target_url, agent_origin, at_body, at_headers, at_length, at_path, prepare_proxy,
  default_accept,
}

forward_injective : {a b : Outgoing} → forward a ≡ forward b → a ≡ b
forward_injective h = cc

some_same {ℓ} : {A : Type ℓ} {a b : A} → ◌≡◌ {A = Option A} (some a) (some b) → a ≡ b
some_same h = cc

length_bound :
    (o : Option ℤ) → length_refusal o ≡ none → (n : ℕ) × (o ≡ some (pos n)) × (n ≤ 8 * 1024 * 1024)
unfolding length_refusal is_too_long
length_bound none h = cc
length_bound (some (pos n)) h = (n, refl, ground arith)
length_bound (some (negsuc n)) h = cc

-- What is read of the body: nothing where the length is 0, and else as many bytes, if the client
-- sends them.
pub record IsTaken (n : ℕ) (rfile : Bytes) (content : Option Bytes) : Type 0 where
  pub empty : n ≡ 0 → content ≡ none
  pub filled : 0 < n → content ≡ some (take n rfile)
  pub bounded : (b : Bytes) → content ≡ some b → length b ≤ 8 * 1024 * 1024

body_of-IsTaken :
    (n : ℕ) (rfile : Bytes) → n ≤ 8 * 1024 * 1024 → IsTaken n rfile (body_of (some (pos n)) rfile)
unfolding body_of
body_of-IsTaken n rfile h = elim (Bool-cases (n == 0)) [
  | inl z ↦ rw z (record { empty = λ e. refl; filled = λ p. ground arith; bounded = λ b e. cc })
  | inr s ↦ rw s (record {
    empty = λ e. ground arith;
    filled = λ p. refl;
    bounded = λ b e. rw (sym (some_same e)) (omega (arith, h, length-take-le n rfile));
  })
]

module _ (sha256 unquote : Text → Text) (env : Environment) (urlparse : Text → Url)
    (agent_base_url : Text) (b64decode : Text → Option Bytes) (b64encode : Bytes → Text)
    (utf8_sig : Bytes → Option Text) (loads : Bytes → JsonText) (dumps : Json → Bytes) where
  abbrev upstream_token : Text
  upstream_token = server_agent_token env.agent_token env.mobile_token

  abbrev origin : Text
  origin =
      agent_origin sha256 unquote env urlparse agent_base_url b64decode b64encode utf8_sig loads
        dumps

  -- The body of a chat request is that with its attachments converted, if it has one.
  abbrev IsConverted : Option Bytes → Option Bytes → Type 0
  IsConverted none body = body ≡ none
  IsConverted (some content) body =
      (b : Bytes) × (body ≡ some b)
      × (normalize_chat_attachment_request b64decode b64encode utf8_sig loads dumps content
          ≡ Attachments.Result.ok b)

  abbrev chat : Bool → Option Bytes → Attachments.Result (Option Bytes)
  chat =
      chat_body sha256 unquote env urlparse agent_base_url b64decode b64encode utf8_sig loads dumps

  chat_body-IsConverted :
      (content body : Option Bytes)
      → chat true content ≡ Attachments.Result.ok body
      → IsConverted content body
  unfolding chat_body
  chat_body-IsConverted none body h = cc
  chat_body-IsConverted (some content) body h =
      by_result (normalize_chat_attachment_request b64decode b64encode utf8_sig loads dumps content)
        refl h
    where
      by_result :
          (r : Attachments.Result Bytes)
          → normalize_chat_attachment_request b64decode b64encode utf8_sig loads dumps content ≡ r
          → Attachments.◌>>=◌ r (λ b. Attachments.Result.ok (some b)) ≡ Attachments.Result.ok body
          → IsConverted (some content) body
      by_result (Attachments.Result.ok b) e k = (b, cc, e)
      by_result (Attachments.Result.err x) e k = cc

  chat_body-unchanged :
      (content body : Option Bytes)
      → chat false content ≡ Attachments.Result.ok body
      → body ≡ content
  unfolding chat_body
  chat_body-unchanged content body h = cc

  -- A request that is sent to the Agent.
  pub record IsForwarded (r : Incoming) (now : ℕ) (db : Db) (out : Outgoing) : Type 0 where
    pub path : Text
    pub length : ℕ
    pub translated : protocol_to_agent_path unquote r.path ≡ some path
    pub loopback : is_loopback (urlparse origin) ≡ true
    pub measured : r.content_length ≡ some (pos length)
    pub content : Option Bytes
    pub taken : IsTaken length r.rfile content
    pub unchanged : is_chat_path path ≡ false → out.body ≡ content
    pub converted : is_chat_path path ≡ true → IsConverted content out.body
    pub target : out.target ≡ target_url origin path r.query
    pub replaced :
        is_device (bearer_token r.headers) ≡ true
        → header "Authorization" out.headers ≡ some (text "Bearer " ++ upstream_token)
    pub granted :
        is_device (bearer_token r.headers) ≡ true
        → (hs : Headers) × IsAuthorized sha256 unquote r.headers r.path upstream_token now db hs

  abbrev prepare : Incoming → ℕ → Db → Prepared × Db
  prepare =
      prepare_proxy sha256 unquote env urlparse agent_base_url b64decode b64encode utf8_sig loads
        dumps

  abbrev headers_for : Incoming → ℕ → Db → Result Headers × Db
  headers_for r now db = prepare_agent_headers sha256 unquote r.headers r.path upstream_token now db

  at_body-forward :
      (b : Attachments.Result (Option Bytes)) (hs : Headers) (path : Text) (r : Incoming)
      (out : Outgoing)
      → at_body sha256 unquote env urlparse agent_base_url b64decode b64encode utf8_sig loads dumps
          b hs path r
        ≡ forward out
      → (b ≡ Attachments.Result.ok out.body)
        × (out.target ≡ target_url origin path r.query)
        × (out.headers ≡ set_header "Accept" (default_accept r.accept) hs)
  unfolding at_body
  at_body-forward (Attachments.Result.err e) hs path r out h = cc
  at_body-forward (Attachments.Result.ok b) hs path r out h =
      let same = sym (forward_injective h) in
      (
        ap (λ o. Attachments.Result.ok o.body) (sym same),
        ap (λ o. o.target) same,
        ap (λ o. o.headers) same,
      )

  at_headers-forward :
      (res : Result Headers) (path : Text) (r : Incoming) (out : Outgoing)
      → at_headers sha256 unquote env urlparse agent_base_url b64decode b64encode utf8_sig loads
          dumps res path r
        ≡ forward out
      → (hs : Headers) × (res ≡ ok hs)
        × (chat (is_chat_path path) (body_of r.content_length r.rfile)
            ≡ Attachments.Result.ok out.body)
        × (out.target ≡ target_url origin path r.query)
        × (out.headers ≡ set_header "Accept" (default_accept r.accept) hs)
  unfolding at_headers
  at_headers-forward (err e) path r out h = cc
  at_headers-forward (ok hs) path r out h =
      let (body, target, headers) = at_body-forward _ hs path r out h in
      (hs, refl, body, target, headers)

  replaced_authorization :
      (r : Incoming) (now : ℕ) (db : Db) (hs : Headers) (out : Outgoing)
      → (headers_for r now db).0 ≡ ok hs
      → out.headers ≡ set_header "Accept" (default_accept r.accept) hs
      → is_device (bearer_token r.headers) ≡ true
      → header "Authorization" out.headers ≡ some (text "Bearer " ++ upstream_token)
  replaced_authorization r now db hs out e same device =
      ap (header "Authorization") same
      ∙ header-set_header "Accept" "Authorization" (default_accept r.accept) hs
      ∙ ((prepare_agent_headers_safe sha256 unquote r.headers r.path upstream_token now db hs e).1
          device).authorization

  at_length-forward :
      (o : Option Answer) (path : Text) (r : Incoming) (now : ℕ) (db : Db) (out : Outgoing)
      → (at_length sha256 unquote env urlparse agent_base_url b64decode b64encode utf8_sig loads
          dumps o path r now db).0
        ≡ forward out
      → (hs : Headers) × (o ≡ none)
        × ((headers_for r now db).0 ≡ ok hs)
        × (chat (is_chat_path path) (body_of r.content_length r.rfile)
            ≡ Attachments.Result.ok out.body)
        × (out.target ≡ target_url origin path r.query)
        × (out.headers ≡ set_header "Accept" (default_accept r.accept) hs)
  unfolding at_length
  at_length-forward (some a) path r now db out h = cc
  at_length-forward none path r now db out h =
      let (hs, got, body, target, headers) = at_headers-forward _ path r out h in
      (hs, refl, got, body, target, headers)

  at_path-forward :
      (p : Option Text) (r : Incoming) (now : ℕ) (db : Db) (out : Outgoing) (b : Bool)
      → protocol_to_agent_path unquote r.path ≡ p
      → is_loopback (urlparse origin) ≡ b
      → (at_path sha256 unquote env urlparse agent_base_url b64decode b64encode utf8_sig loads dumps
          p r now db).0
        ≡ forward out
      → IsForwarded r now db out
  unfolding at_path
  at_path-forward none r now db out b e l h = cc
  at_path-forward (some path) r now db out false e l h = cc (rw l at h)
  at_path-forward (some path) r now db out true e l h =
      let (hs, open_length, got, body, target, same) =
        at_length-forward _ path r now db out (rw l at h) in
      let (n, measured, bounded) = length_bound r.content_length open_length in
      let safe =
        prepare_agent_headers_safe sha256 unquote r.headers r.path upstream_token now db hs got in
      record {
        path = path;
        length = n;
        translated = e;
        loopback = l;
        measured = measured;
        content = body_of (some (pos n)) r.rfile;
        taken = body_of-IsTaken n r.rfile bounded;
        unchanged = λ plain. chat_body-unchanged _ out.body (rw (measured, plain) at body);
        converted = λ is_chat. chat_body-IsConverted _ out.body (rw (measured, is_chat) at body);
        target = target;
        replaced = replaced_authorization r now db hs out got same;
        granted = λ device. (hs, safe.1 device);
      }

  -- A request is sent to the Agent only if its path is that of an Agent endpoint and the base URL is
  -- an HTTP address of the local host. The body that is read holds at most 8 MiB, and as many
  -- bytes as Content-Length says if the client sends them; it is sent as it is, or, to the chat
  -- endpoint, with its attachments converted. A device token must be authenticated for the profile
  -- of the path, and Authorization then carries the Agent token.
  pub prepare_proxy-IsForwarded :
      (r : Incoming) (now : ℕ) (db : Db) (out : Outgoing)
      → (prepare r now db).0 ≡ forward out
      → IsForwarded r now db out
  unfolding prepare_proxy
  prepare_proxy-IsForwarded r now db out h = at_path-forward _ r now db out _ refl refl h
