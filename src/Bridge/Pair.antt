-- ===== src/Bridge/Pair.antt =====
-- src/hermes_link/integrations/hermes_agent/bridge.py: the pairing endpoint of `do_POST`, in front
-- of `exchange_pairing_payload`.
use hermes_link_server.Prelude.{ℕ, ◌*◌, Text, String, none, some, if◌then◌else◌}
use hermes_link_server.Json.{JsonText, document, malformed}
use hermes_link_server.Pairing.Store.{Db}
use hermes_link_server.Pairing.Http.{Reply, error, exchange_pairing_payload}
use hermes_link_server.Bridge.Access.{Body, is_too_long}

abbrev rejected : ℕ → String → Reply
rejected status message = record { status = status; body = error message "pairing_invalid" }

module _ (sha256 : Text → Text) (now : ℕ) (hex random : Text) where
  exchange_content : JsonText → Db → Reply × Db
  exchange_content malformed db = (rejected 400 "Invalid pairing JSON", db)
  exchange_content (document payload) db = exchange_pairing_payload sha256 now hex random payload db

  -- `POST /hermes-link/v1/pairing`
  unfoldable pub post_pairing : Body → Db → Reply × Db
  unfolding exchange_content is_too_long
  post_pairing body db = elim body.content_length [
    | none ↦ (rejected 400 "Invalid Content-Length", db)
    | some n ↦
        if is_too_long (16 * 1024) n
        then (rejected 413 "Pairing payload is too large", db)
        else exchange_content body.content db
  ]
