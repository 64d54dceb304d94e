-- ===== src/Pairing/Store/Grant.antt =====
-- When `exchange` grants a device, and what the granted token can do.
use hermes_link_server.Prelude.{
  ℕ, Text, text, text_eq_refl, contains, strip, ◌≡◌, refl, ap, ◌∙◌, true, false, ◌<◌, ◌↔◌, ◌⊎◌,
  Option, none, some, List, [], ◌∷◌, ◌++◌, arith, any, find, update, find-append, full_match,
  is_url_safe,
}
use hermes_link_server.Prelude.Words.{strip-no_space, no_space-url_safe}
use hermes_link_server.Pairing.Validation.{Result, ok, err, validate_code, is_device_token}
use hermes_link_server.Pairing.Profiles.{load_profiles, dump_profiles}
use hermes_link_server.Pairing.Profiles.Laws.{load-dump, load_profiles-IsScope}
use hermes_link_server.Pairing.Store.{
  Ticket, Device, Db, Exchange, has_code, has_token, has_id, is_active, mark_used, connect,
  new_device, granted, redeem, exchange_checked, exchange, device_profile_ids, allows,
  current_profile, authenticate_device_token,
}

module _ (sha256 : Text → Text) where
  -- What the exchange of a code requires of the database, and what it returns.
  pub record IsRedeemable (code : Text) (now : ℕ) (device_id token : Text) (db : Db) (e : Exchange)
      : Type 0 where
    pub row : Ticket
    pub listed : find (has_code (sha256 code)) db.tickets ≡ some row
    pub unused : row.used_at ≡ none
    pub fresh : now < row.expires_at
    pub new_id : any (has_id device_id) db.devices ≡ false
    pub new_token : any (has_token (sha256 token)) db.devices ≡ false
    pub returned : e ≡ granted sha256 row device_id token

  redeem-IsRedeemable :
      (found : Option Ticket) (code : Text) (now : ℕ) (id token : Text) (db : Db) (e : Exchange)
      → find (has_code (sha256 code)) db.tickets ≡ found
      → (redeem sha256 found (sha256 code) now id token db).0 ≡ ok e
      → IsRedeemable code now id token db e
  unfolding redeem
  redeem-IsRedeemable none code now id token db e f r = cc
  redeem-IsRedeemable (some row) code now id token db e f r = record {
    row = row;
    listed = f;
    unused = ground arith;
    fresh = ground arith;
    new_id = ground arith;
    new_token = ground arith;
    returned = ground arith;
  }

  redeem_grants :
      (row : Ticket) (h : Text) (now : ℕ) (id token : Text) (db : Db)
      → row.used_at ≡ none
      → now < row.expires_at
      → any (has_id id) db.devices ≡ false
      → any (has_token (sha256 token)) db.devices ≡ false
      → redeem sha256 (some row) h now id token db ≡ (
        ok (granted sha256 row id token),
        record {
          tickets = update (has_code h) (mark_used now) db.tickets;
          devices = db.devices ++ new_device sha256 row now id token ∷ [];
        },
      )
  unfolding redeem
  redeem_grants row h now id token db unused fresh new_id new_token = ground arith

  exchange_checked-IsRedeemable :
      (checked : Result Text) (now : ℕ) (id token : Text) (db : Db) (e : Exchange)
      → (exchange_checked sha256 checked now id token db).0 ≡ ok e
      → (code : Text) × (checked ≡ ok code) × IsRedeemable code now id token (connect sha256 db) e
  unfolding exchange_checked
  exchange_checked-IsRedeemable (err f) now id token db e r = cc
  exchange_checked-IsRedeemable (ok code) now id token db e r =
      (code, refl, redeem-IsRedeemable _ code now id token (connect sha256 db) e refl r)

  exchange_checked_grants :
      (checked : Result Text) (code : Text) (now : ℕ) (id token : Text) (db : Db) (e : Exchange)
      → checked ≡ ok code
      → (q : IsRedeemable code now id token (connect sha256 db) e)
      → exchange_checked sha256 checked now id token db ≡ (
        ok e,
        record {
          tickets = update (has_code (sha256 code)) (mark_used now) (connect sha256 db).tickets;
          devices = db.devices ++ new_device sha256 q.row now id token ∷ [];
        },
      )
  unfolding exchange_checked
  exchange_checked_grants checked code now id token db e valid q =
      rw (valid, q.listed, q.returned)
        (redeem_grants q.row (sha256 code) now id token (connect sha256 db) q.unused q.fresh
          q.new_id q.new_token)

  exchange_grants :
      (code c : Text) (now : ℕ) (hex random : Text) (db : Db) (e : Exchange)
      → validate_code code ≡ ok c
      → (q : IsRedeemable c now (text "dev_" ++ hex) (text "hmd_" ++ random) (connect sha256 db) e)
      → (exchange sha256 code now hex random db).1 ≡ record {
        tickets = update (has_code (sha256 c)) (mark_used now) (connect sha256 db).tickets;
        devices =
            db.devices
            ++ new_device sha256 q.row now (text "dev_" ++ hex) (text "hmd_" ++ random) ∷ [];
      }
  unfolding exchange
  exchange_grants code c now hex random db e valid q =
      ap (λ x. x.1) (exchange_checked_grants (validate_code code) c now _ _ db e valid q)

  -- `exchange` returns a device exactly when the stripped code is well formed, its ticket is
  -- stored, was not used and has not expired, and the drawn device id and token are new; it then
  -- returns the base URL and the scope of the ticket.
  pub exchange-eq-ok_iff :
      (code : Text) (now : ℕ) (hex random : Text) (db : Db) (e : Exchange)
      → ((exchange sha256 code now hex random db).0 ≡ ok e) ↔ (
          (c : Text) × (validate_code code ≡ ok c)
          × IsRedeemable c now (text "dev_" ++ hex) (text "hmd_" ++ random) (connect sha256 db) e)
  unfolding exchange
  exchange-eq-ok_iff code now hex random db e = (
    exchange_checked-IsRedeemable (validate_code code) now _ _ db e,
    λ q. ap (λ x. x.0) (exchange_checked_grants (validate_code code) q.0 now _ _ db e q.1 q.2),
  )

  -- The device that is stored last is the one that its token finds.
  find-new_device :
      (row : Ticket) (now : ℕ) (id token : Text) (ds : List Device)
      → any (has_token (sha256 token)) ds ≡ false
      → find (is_active (sha256 token)) (ds ++ new_device sha256 row now id token ∷ [])
        ≡ some (new_device sha256 row now id token)
  unfolding new_device
  find-new_device row now id token ds fresh =
      find-append _ ds _ (none_active (sha256 token) ds fresh)
      ∙ ground (arith, text_eq_refl (sha256 token))
    where
      none_active :
          (h : Text) (xs : List Device)
          → any (has_token h) xs ≡ false
          → any (is_active h) xs ≡ false
      none_active h [] f = refl
      none_active h (x ∷ xs) f = ground (arith, none_active h xs)

  -- The documented form of `secrets.token_urlsafe(32)`: 43 URL-safe characters.
  abbrev pub IsTokenBody : Text → Type 0
  IsTokenBody random = full_match is_url_safe 32 128 random ≡ true

  is_device_token-hmd :
      (random : Text) → IsTokenBody random → is_device_token (text "hmd_" ++ random) ≡ true
  unfolding is_device_token
  is_device_token-hmd random h = h

  strip-hmd :
      (random : Text) → IsTokenBody random → strip (text "hmd_" ++ random) ≡ text "hmd_" ++ random
  unfolding full_match text is_url_safe
  strip-hmd random h =
      strip-no_space (text "hmd_" ++ random)
        (no_space-url_safe (text "hmd_" ++ random) (ground arith))

  device_profile_ids_new :
      (row : Ticket) (now later : ℕ) (id random : Text) (tickets : List Ticket) (ds : List Device)
      → IsTokenBody random
      → any (has_token (sha256 (text "hmd_" ++ random))) ds ≡ false
      → (device_profile_ids sha256 (text "hmd_" ++ random) later (record {
        tickets = tickets;
        devices = ds ++ new_device sha256 row now id (text "hmd_" ++ random) ∷ [];
      })).0
        ≡ some (load_profiles row.profiles_json)
  unfolding device_profile_ids new_device dump_profiles
  device_profile_ids_new row now later id random tickets ds form fresh =
      rw
        (
          strip-hmd random form,
          is_device_token-hmd random form,
          find-new_device row now id (text "hmd_" ++ random) ds fresh,
        )
        (ap some (load-dump _ (load_profiles-IsScope row.profiles_json)))

  allows_iff :
      (ps : List Text) (p : Text)
      → (allows sha256 (some ps) p ≡ true) ↔ ((ps ≡ []) ⊎ (contains p ps ≡ true))
  unfolding allows contains
  allows_iff [] p = ground arith
  allows_iff (q ∷ ps) p = ground arith

  authenticate_iff :
      (token profile : Text) (later : ℕ) (db : Db) (ps : List Text)
      → (device_profile_ids sha256 token later db).0 ≡ some ps
      → ((authenticate_device_token sha256 token profile later db).0 ≡ true)
        ↔ ((ps ≡ []) ⊎ (contains (current_profile sha256 profile) ps ≡ true))
  unfolding authenticate_device_token
  authenticate_iff token profile later db ps known = rw known (allows_iff ps _)

  -- A device token that `exchange` has just returned has the scope that `exchange` returned beside
  -- it, and is authenticated for a profile exactly if the scope is empty or holds the profile. The
  -- drawn text has the documented form of `token_urlsafe`.
  pub exchange-authenticate :
      (code : Text) (now : ℕ) (hex random : Text) (db : Db) (e : Exchange) (later : ℕ)
      (profile : Text)
      → IsTokenBody random
      → (exchange sha256 code now hex random db).0 ≡ ok e
      → let after = (exchange sha256 code now hex random db).1 in
        ((device_profile_ids sha256 e.device_token later after).0 ≡ some e.profiles)
        × (((authenticate_device_token sha256 e.device_token profile later after).0 ≡ true)
            ↔ ((e.profiles ≡ []) ⊎ (contains (current_profile sha256 profile) e.profiles ≡ true)))
  unfolding connect granted device_profile_ids
  exchange-authenticate code now hex random db e later profile form r =
      (known, authenticate_iff e.device_token profile later _ e.profiles known)
    where
      known :
          (device_profile_ids sha256 e.device_token later
            (exchange sha256 code now hex random db).1).0
          ≡ some e.profiles
      known =
          let (c, valid, q) = (exchange-eq-ok_iff code now hex random db e).0 r in
          rw (q.returned, exchange_grants code c now hex random db e valid q)
            (device_profile_ids_new q.row now later _ random _ db.devices form q.new_token)
