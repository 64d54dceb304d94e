-- ===== src/Bridge/Proxy.antt =====
-- src/hermes_link/integrations/hermes_agent/bridge.py: `_proxy_agent` up to the request that it
-- sends to the Agent.
pub mod Laws
use hermes_link_server.Prelude.{
  ℕ, ◌*◌, Text, text, text_eq, rstrip, is_empty, contains, String, Bool, true, false, not, ◌&&◌,
  ◌||◌, ◌==◌, take, Option, none, some, List, [], ◌∷◌, ◌++◌, if◌then◌else◌,
}
use hermes_link_server.Json.{Json, ℤ, pos, JsonText}
use hermes_link_server.Pairing.Store.{Db}
use hermes_link_server.Adapter.Paths.{protocol_to_agent_path}
use hermes_link_server.Adapter.Headers.{
  RequestHeaders, Headers, Result, ok, err, set_header, server_agent_token, prepare_agent_headers,
}
use hermes_link_server.Attachments.{Bytes, normalize_chat_attachment_request}
use hermes_link_server.Attachments
use hermes_link_server.Identity.{Url}
use hermes_link_server.Bridge.Access.{
  Environment, Answer, failed, refused, attachment_refused, is_too_long,
}

-- A request as `_proxy_agent` reads it: `content_length` is the header under `int`, and `rfile`
-- holds the bytes that the client sends behind the headers, up to the end of the connection.
pub record Incoming : Type 0 where
  pub method : Text
  pub path : Text
  pub query : Text
  pub headers : RequestHeaders
  pub accept : Option Text
  pub content_length : Option ℤ
  pub rfile : Bytes

-- The `urllib.request.Request`, the timeout in seconds, and the Agent path that the handler keeps.
pub record Outgoing : Type 0 where
  pub path : Text
  pub target : Text
  pub method : Text
  pub headers : Headers
  pub body : Option Bytes
  pub timeout : ℕ

pub data Prepared : Type 0 where
  not_agent : Prepared
  replied : Answer → Prepared
  forward : Outgoing → Prepared

-- `str.endswith`
unfoldable pub ends_with : Text → Text → Bool
unfolding text_eq
ends_with suffix [] = is_empty suffix
ends_with suffix (c ∷ s) = text_eq suffix (c ∷ s) || ends_with suffix s

-- `path.endswith("/v1/chat/completions")`
unfoldable pub is_chat_path : Text → Bool
unfolding ends_with text
is_chat_path path = ends_with (text "/v1/chat/completions") path

unfoldable pub is_local_host : Option Text → Bool
unfolding contains text
is_local_host none = false
is_local_host (some host) = contains host (text "127.0.0.1" ∷ text "localhost" ∷ [])

unfoldable pub is_loopback : Url → Bool
unfolding is_local_host text text_eq
is_loopback u = text_eq u.scheme (text "http") && is_local_host u.hostname

-- the two checks of Content-Length
unfoldable pub length_refusal : Option ℤ → Option Answer
unfolding is_too_long
length_refusal none = some (refused 400 "Invalid Content-Length")
length_refusal (some n) =
    if is_too_long (8 * 1024 * 1024) n then some (refused 413 "Request body is too large") else none

-- `self.rfile.read(content_length) if content_length else None`
unfoldable pub body_of : Option ℤ → Bytes → Option Bytes
body_of (some (pos n)) rfile = if n == 0 then none else some (take n rfile)
body_of _ rfile = some rfile

abbrev pub default_accept : Option Text → Text
default_accept none = text "application/json"
default_accept (some s) = s

unfoldable pub target_url : Text → Text → Text → Text
unfolding text
target_url origin path query = origin ++ path ++ (if is_empty query then [] else text "?" ++ query)

-- The parameters of the attachments, and the base URL of the Agent.
module _ (sha256 unquote : Text → Text) (env : Environment) (urlparse : Text → Url)
    (agent_base_url : Text) (b64decode : Text → Option Bytes) (b64encode : Bytes → Text)
    (utf8_sig : Bytes → Option Text) (loads : Bytes → JsonText) (dumps : Json → Bytes) where
  -- `os.environ.get("HERMES_AGENT_BASE_URL", …).rstrip("/")`
  unfoldable pub agent_origin : Text
  unfolding rstrip
  agent_origin = rstrip (λ c. c == b'/') agent_base_url

  -- the body of a chat request, with its attachments converted
  unfoldable pub chat_body : Bool → Option Bytes → Attachments.Result (Option Bytes)
  chat_body false body = Attachments.Result.ok body
  chat_body true none = Attachments.Result.ok none
  chat_body true (some content) =
      Attachments.◌>>=◌
        (normalize_chat_attachment_request b64decode b64encode utf8_sig loads dumps content)
        λ b. Attachments.Result.ok (some b)

  pub at_body : Attachments.Result (Option Bytes) → Headers → Text → Incoming → Prepared
  unfolding set_header target_url
  at_body (Attachments.Result.err e) headers path r = replied (attachment_refused e)
  at_body (Attachments.Result.ok body) headers path r = forward (record {
    path = path;
    target = target_url agent_origin path r.query;
    method = r.method;
    headers = set_header "Accept" (default_accept r.accept) headers;
    body = body;
    timeout = if is_chat_path path then 3600 else 300;
  })

  pub at_headers : Result Headers → Text → Incoming → Prepared
  unfolding at_body
  at_headers (err e) path r = replied (failed e.status e.message e.code)
  at_headers (ok headers) path r =
      at_body (chat_body (is_chat_path path) (body_of r.content_length r.rfile)) headers path r

  pub at_length : Option Answer → Text → Incoming → ℕ → Db → Prepared × Db
  unfolding at_headers
  at_length (some refusal) path r now db = (replied refusal, db)
  at_length none path r now db =
      let (headers, db') =
        prepare_agent_headers sha256 unquote r.headers r.path
          (server_agent_token env.agent_token env.mobile_token) now db in
      (at_headers headers path r, db')

  pub at_path : Option Text → Incoming → ℕ → Db → Prepared × Db
  unfolding at_length length_refusal
  at_path none r now db = (not_agent, db)
  at_path (some path) r now db =
      if is_loopback (urlparse agent_origin)
      then at_length (length_refusal r.content_length) path r now db
      else (replied (refused 500 "Hermes Agent adapter origin is invalid"), db)

  -- `_proxy_agent`, as far as `urlopen`
  unfoldable pub prepare_proxy : Incoming → ℕ → Db → Prepared × Db
  unfolding at_path
  prepare_proxy r now db = at_path (protocol_to_agent_path unquote r.path) r now db
