-- ===== src/Pairing/Http.antt =====
-- src/hermes_link/pairing/http.py: `exchange_pairing_payload`.
pub mod Laws
use hermes_link_server.Prelude.{ℕ, Text, String, Bool, not, Option, none, some, if◌then◌else◌}
use hermes_link_server.Json.{Json, null, bool, int, str, obj, pos, Fields, get, get_or, equals_nat}
use hermes_link_server.Pairing.Validation.{
  PairingError, Failure, pairing, integrity, Result, ok, err,
}
use hermes_link_server.Pairing.Store.{Db, Exchange, exchange}

-- the second component of the returned pair
pub data Body : Type 0 where
  exchanged : Exchange → Body
  error : String → String → Body

pub record Reply : Type 0 where
  pub status : ℕ
  pub body : Body

abbrev pub bad_request : String → String → Reply
bad_request message code = record { status = 400; body = error message code }

-- the try block: a PairingError names its status, any other exception is a 503
reply_of : Result Exchange → Reply
reply_of (ok e) = record { status = 200; body = exchanged e }
reply_of (err (pairing e)) = record { status = e.status; body = error e.message e.code }
reply_of (err integrity) = record {
  status = 503;
  body = error "Pairing service is unavailable" "pairing_unavailable";
}

-- `payload.get("code")` where it is a `str`
code_of : Option Json → Option Text
code_of (some (str s)) = some s
code_of _ = none

module _ (sha256 : Text → Text) (now : ℕ) (hex random : Text) where
  exchange_code : Option Text → Db → Reply × Db
  unfolding reply_of
  exchange_code none db = (bad_request "Pairing code is required" "pairing_invalid", db)
  exchange_code (some code) db =
      let (r, db') = exchange sha256 code now hex random db in (reply_of r, db')

  unfoldable pub exchange_pairing_payload : Json → Db → Reply × Db
  unfolding exchange_code code_of get get_or equals_nat
  exchange_pairing_payload (obj payload) db =
      if not (equals_nat 1 (get_or "schema_version" (int (pos 1)) payload))
      then (bad_request "Unsupported pairing schema" "pairing_schema_unsupported", db)
      else exchange_code (code_of (get "code" payload)) db
  exchange_pairing_payload _ db =
      (bad_request "Pairing payload must be an object" "pairing_invalid", db)
