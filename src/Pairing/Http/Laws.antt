-- ===== src/Pairing/Http/Laws.antt =====
-- The replies of the pairing endpoint, and what they say of the database.
use hermes_link_server.Prelude.{
  ℕ, Text, ◌≡◌, refl, ◌⊎◌, inl, inr, Option, none, some, [], ◌∷◌, ◌++◌, Bool-cases, String,
}
use hermes_link_server.Json.{Json, int, obj, pos, get, get_or, equals_nat}
use hermes_link_server.Pairing.Validation.{pairing, integrity, Result}
use hermes_link_server.Pairing.Store.{Device, Db, Exchange, connect}
use hermes_link_server.Pairing.Store.Cases
use hermes_link_server.Pairing.Http.{
  exchanged, error, Reply, reply_of, code_of, exchange_code, exchange_pairing_payload,
}

-- What a reply says of the database. `stored`: status 200, with the device that was added.
-- `refused`: status 400 or 503 and an error body, and at most the migration of `_connect` was
-- written.
pub data Outcome (sha256 : Text → Text) (db : Db) (reply : Reply) (after : Db) : Type 0 where
  stored :
      (e : Exchange) (d : Device)
      → reply ≡ record { status = 200; body = exchanged e }
      → after.devices ≡ db.devices ++ d ∷ []
      → d.device_id ≡ e.device_id
      → d.token_hash ≡ sha256 e.device_token
      → Outcome sha256 db reply after
  refused :
      (message code : String)
      → reply.body ≡ error message code
      → (reply.status ≡ 400) ⊎ (reply.status ≡ 503)
      → (after ≡ db) ⊎ (after ≡ connect sha256 db)
      → Outcome sha256 db reply after

module _ (sha256 : Text → Text) where
  reply_of-Outcome :
      (db : Db) (r : Result Exchange) (after : Db)
      → Cases.Outcome sha256 db r after
      → Outcome sha256 db (reply_of r) after
  unfolding reply_of
  reply_of-Outcome db r after (Cases.stored e d returned added id token) =
      rw returned (stored e d refl added id token)
  reply_of-Outcome db r after (Cases.refused (pairing p) failed usual kept) =
      rw failed (refused p.message p.code refl (inl usual) kept)
  reply_of-Outcome db r after (Cases.refused integrity failed usual kept) =
      rw failed (refused _ _ refl (inr refl) kept)

  exchange_code-Outcome :
      (code : Option Text) (now : ℕ) (hex random : Text) (db : Db)
      → let r = exchange_code sha256 now hex random code db in Outcome sha256 db r.0 r.1
  unfolding exchange_code
  exchange_code-Outcome none now hex random db = refused _ _ refl (inl refl) (inl refl)
  exchange_code-Outcome (some code) now hex random db =
      reply_of-Outcome db _ _ (Cases.exchange-Outcome sha256 code now hex random db)

  -- The endpoint replies with status 200 and a device that it has just stored, or with status 400
  -- or 503 and an error body; then no device was stored and no ticket was used.
  pub exchange_pairing_payload-Outcome :
      (now : ℕ) (hex random : Text) (payload : Json) (db : Db)
      → let r = exchange_pairing_payload sha256 now hex random payload db in
        Outcome sha256 db r.0 r.1
  unfolding exchange_pairing_payload
  exchange_pairing_payload-Outcome now hex random (obj payload) db =
      elim (Bool-cases (equals_nat 1 (get_or "schema_version" (int (pos 1)) payload))) [
        | inl supported ↦
            rw supported (exchange_code-Outcome (code_of (get "code" payload)) now hex random db)
        | inr other ↦ rw other (refused _ _ refl (inl refl) (inl refl))
      ]
  exchange_pairing_payload-Outcome now hex random _ db = refused _ _ refl (inl refl) (inl refl)
