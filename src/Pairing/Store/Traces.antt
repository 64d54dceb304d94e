-- ===== src/Pairing/Store/Traces.antt =====
-- Sequences of calls on one pairing database: every process that opens the file makes some of
-- them, in some order (each call is one transaction), and none is undone later.
use hermes_link_server.Prelude.{ℕ, Text, List, [], ◌∷◌}
use hermes_link_server.Json.{ℤ}
use hermes_link_server.Pairing.Store.{
  Db, create_ticket, exchange, device_profile_ids, authenticate_device_token, revoke_device_token,
}

-- One call with its arguments, the clock and the texts that it draws.
pub data Call : Type 0 where
  create : Text → Text → ℤ → ℕ → List Text → Text → Call
  redeem_code : Text → ℕ → Text → Text → Call
  scope : Text → ℕ → Call
  authenticate : Text → Text → ℕ → Call
  revoke : Text → ℕ → Call

module _ (sha256 : Text → Text) where
  unfoldable pub perform : Call → Db → Db
  perform (create base_url token ttl now profiles code) db =
      (create_ticket sha256 base_url token ttl now profiles code db).1
  perform (redeem_code code now hex random) db = (exchange sha256 code now hex random db).1
  perform (scope token now) db = (device_profile_ids sha256 token now db).1
  perform (authenticate token profile now) db =
      (authenticate_device_token sha256 token profile now db).1
  perform (revoke token now) db = (revoke_device_token sha256 token now db).1

  unfoldable pub run : List Call → Db → Db
  unfolding perform
  run [] db = db
  run (c ∷ cs) db = run cs (perform c db)
