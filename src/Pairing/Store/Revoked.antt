-- ===== src/Pairing/Store/Revoked.antt =====
-- A revoked device token never authenticates again.
use hermes_link_server.Prelude.{
  ℕ, Text, text_eq_sound, text_eq, strip, ◌≡◌, refl, Bool, true, false, Option, none, some, List,
  [], ◌∷◌, ◌++◌, arith, ap, ◌∙◌, any, find, update, any-append, any-update, find-eq-none,
  Bool-cases, inl, inr,
}
use hermes_link_server.Pairing.Validation.{Result, ok, err, validate_code, is_device_token}
use hermes_link_server.Pairing.Store.{
  Ticket, Device, Db, has_token, has_id, is_active, mark_seen, mark_revoked, connect,
  create_checked, create_ticket, redeem, new_device, exchange_checked, exchange, scope_of,
  device_profile_ids, authenticate_device_token, revoke_device_token,
}
use hermes_link_server.Pairing.Store.Traces.{
  Call, create, redeem_code, scope, authenticate, revoke, perform, run,
}

any-is_active-mark_revoked :
    (h k : Text) (now : ℕ) (ds : List Device)
    → any (is_active h) ds ≡ false
    → any (is_active h) (update (is_active k) (mark_revoked now) ds) ≡ false
any-is_active-mark_revoked h k now [] e = refl
any-is_active-mark_revoked h k now (d ∷ ds) e =
    ground (arith, any-is_active-mark_revoked h k now ds)

-- The UPDATE of `revoke_device_token` leaves no active row of its token.
none_active-mark_revoked :
    (h : Text) (now : ℕ) (ds : List Device)
    → any (is_active h) (update (is_active h) (mark_revoked now) ds) ≡ false
none_active-mark_revoked h now [] = refl
none_active-mark_revoked h now (d ∷ ds) = ground (arith, none_active-mark_revoked h now ds)

any-has_token_of_is_active :
    (h : Text) (ds : List Device) → any (is_active h) ds ≡ true → any (has_token h) ds ≡ true
any-has_token_of_is_active h [] e = cc
any-has_token_of_is_active h (d ∷ ds) e = ground (arith, any-has_token_of_is_active h ds)

-- The token has a row, and no active one.
pub record IsRevoked (h : Text) (ds : List Device) : Type 0 where
  pub known : any (has_token h) ds ≡ true
  pub inactive : any (is_active h) ds ≡ false

IsRevoked-mark_seen :
    (h : Text) (p : Device → Bool) (now : ℕ) (ds : List Device)
    → IsRevoked h ds
    → IsRevoked h (update p (mark_seen now) ds)
IsRevoked-mark_seen h p now ds r = record {
  known = any-update (has_token h) p (mark_seen now) (λ d. refl) ds ∙ r.known;
  inactive = any-update (is_active h) p (mark_seen now) (λ d. refl) ds ∙ r.inactive;
}

IsRevoked-mark_revoked :
    (h k : Text) (now : ℕ) (ds : List Device)
    → IsRevoked h ds
    → IsRevoked h (update (is_active k) (mark_revoked now) ds)
IsRevoked-mark_revoked h k now ds r = record {
  known = any-update (has_token h) (is_active k) (mark_revoked now) (λ d. refl) ds ∙ r.known;
  inactive = any-is_active-mark_revoked h k now ds r.inactive;
}

has_token-ne :
    (h k : Text) (ds : List Device)
    → any (has_token h) ds ≡ true
    → any (has_token k) ds ≡ false
    → text_eq k h ≡ false
has_token-ne h k ds known fresh = elim (Bool-cases (text_eq k h)) [
  | inl same ↦ let e = text_eq_sound k h same in cc (ap (λ x. any (has_token x) ds) e)
  | inr other ↦ other
]

-- A row whose token hash is new does not bring a revoked token back.
IsRevoked-append :
    (h : Text) (d : Device) (ds : List Device)
    → any (has_token d.token_hash) ds ≡ false
    → IsRevoked h ds
    → IsRevoked h (ds ++ d ∷ [])
IsRevoked-append h d ds fresh r =
    let other = has_token-ne h d.token_hash ds r.known fresh in
    record {
      known = any-append (has_token h) ds (d ∷ []) ∙ ground (arith, r.known);
      inactive = any-append (is_active h) ds (d ∷ []) ∙ ground (arith, r.inactive, other);
    }

module _ (sha256 : Text → Text) (h : Text) where
  redeem-IsRevoked :
      (row : Option Ticket) (k : Text) (now : ℕ) (id token : Text) (db : Db)
      → IsRevoked h db.devices
      → IsRevoked h (redeem sha256 row k now id token db).1.devices
  unfolding redeem
  redeem-IsRevoked none k now id token db r = r
  redeem-IsRevoked (some row) k now id token db r =
      ground (arith, IsRevoked-append h (new_device sha256 row now id token) db.devices)

  exchange_checked-IsRevoked :
      (checked : Result Text) (now : ℕ) (id token : Text) (db : Db)
      → IsRevoked h db.devices
      → IsRevoked h (exchange_checked sha256 checked now id token db).1.devices
  unfolding exchange_checked
  exchange_checked-IsRevoked (err e) now id token db r = r
  exchange_checked-IsRevoked (ok code) now id token db r =
      redeem-IsRevoked _ (sha256 code) now id token (connect sha256 db) r

  create_checked-devices :
      (inputs : Result (Text × Text)) (now ttl : ℕ) (profiles : List Text) (code : Text) (db : Db)
      → (create_checked sha256 inputs now ttl profiles code db).1.devices ≡ db.devices
  unfolding create_checked
  create_checked-devices (err e) now ttl profiles code db = refl
  create_checked-devices (ok (base_url, token)) now ttl profiles code db = ground arith

  device_profile_ids-IsRevoked :
      (token : Text) (now : ℕ) (db : Db)
      → IsRevoked h db.devices
      → IsRevoked h (device_profile_ids sha256 token now db).1.devices
  unfolding device_profile_ids
  device_profile_ids-IsRevoked token now db r = elim (Bool-cases (is_device_token (strip token))) [
    | inl valid ↦ rw valid (scope_of-IsRevoked _ r)
    | inr malformed ↦ rw malformed r
  ]
    where
      scope_of-IsRevoked :
          (row : Option Device)
          → IsRevoked h db.devices
          → IsRevoked h (scope_of sha256 row now (connect sha256 db)).1.devices
      scope_of-IsRevoked none r = r
      scope_of-IsRevoked (some row) r =
          IsRevoked-mark_seen h (has_id row.device_id) now db.devices r

  revoke-IsRevoked :
      (token : Text) (now : ℕ) (db : Db)
      → IsRevoked h db.devices
      → IsRevoked h (revoke_device_token sha256 token now db).1.devices
  unfolding revoke_device_token
  revoke-IsRevoked token now db r = elim (Bool-cases (is_device_token (strip token))) [
    | inl valid ↦ rw valid (IsRevoked-mark_revoked h (sha256 (strip token)) now db.devices r)
    | inr malformed ↦ rw malformed r
  ]

  perform-IsRevoked :
      (c : Call) (db : Db) → IsRevoked h db.devices → IsRevoked h (perform sha256 c db).devices
  unfolding perform authenticate_device_token create_ticket exchange
  perform-IsRevoked (create u t ttl now ps code) db r =
      rw (create_checked-devices _ now _ ps code db) r
  perform-IsRevoked (redeem_code code now hex random) db r =
      exchange_checked-IsRevoked (validate_code code) now _ _ db r
  perform-IsRevoked (scope token now) db r = device_profile_ids-IsRevoked token now db r
  perform-IsRevoked (authenticate token profile now) db r =
      device_profile_ids-IsRevoked token now db r
  perform-IsRevoked (revoke token now) db r = revoke-IsRevoked token now db r

  pub run-IsRevoked :
      (cs : List Call) (db : Db) → IsRevoked h db.devices → IsRevoked h (run sha256 cs db).devices
  unfolding run
  run-IsRevoked [] db r = r
  run-IsRevoked (c ∷ cs) db r = run-IsRevoked cs (perform sha256 c db) (perform-IsRevoked c db r)

module _ (sha256 : Text → Text) where
  scope_of_inactive :
      (h : Text) (now : ℕ) (db : Db)
      → IsRevoked h db.devices
      → scope_of sha256 (find (is_active h) db.devices) now db ≡ (none, db)
  unfolding scope_of
  scope_of_inactive h now db r = rw (find-eq-none (is_active h) db.devices r.inactive)

  -- A token whose row is revoked has no scope.
  pub device_profile_ids_revoked :
      (token : Text) (now : ℕ) (db : Db)
      → IsRevoked (sha256 (strip token)) db.devices
      → (device_profile_ids sha256 token now db).0 ≡ none
  unfolding device_profile_ids
  device_profile_ids_revoked token now db r = elim (Bool-cases (is_device_token (strip token))) [
    | inl valid ↦
        rw valid
          (ap (λ x. x.0) (scope_of_inactive (sha256 (strip token)) now (connect sha256 db) r))
    | inr malformed ↦ rw malformed
  ]

  revoke-IsRevoked_self :
      (token : Text) (now : ℕ) (db : Db)
      → (revoke_device_token sha256 token now db).0 ≡ true
      → IsRevoked (sha256 (strip token)) (revoke_device_token sha256 token now db).1.devices
  unfolding revoke_device_token
  revoke-IsRevoked_self token now db done =
      let h = sha256 (strip token) in
      elim (Bool-cases (is_device_token (strip token))) [
        | inl valid ↦ rw valid (record {
          known =
              any-update (has_token h) (is_active h) (mark_revoked now) (λ d. refl) db.devices
              ∙ any-has_token_of_is_active h db.devices (rw valid at done);
          inactive = none_active-mark_revoked h now db.devices;
        })
        | inr malformed ↦ cc (rw malformed at done)
      ]

  authenticate_revoked :
      (token profile : Text) (now : ℕ) (db : Db)
      → IsRevoked (sha256 (strip token)) db.devices
      → (authenticate_device_token sha256 token profile now db).0 ≡ false
  unfolding authenticate_device_token
  authenticate_revoked token profile now db r = rw (device_profile_ids_revoked token now db r)

  revoke_revoked :
      (token : Text) (now : ℕ) (db : Db)
      → IsRevoked (sha256 (strip token)) db.devices
      → (revoke_device_token sha256 token now db).0 ≡ false
  unfolding revoke_device_token
  revoke_revoked token now db r = elim (Bool-cases (is_device_token (strip token))) [
    | inl valid ↦ rw valid r.inactive
    | inr malformed ↦ rw malformed
  ]

  -- Once `revoke_device_token` has returned true for a token, then after any further calls on the
  -- database `device_profile_ids` returns None for the token, `authenticate_device_token` returns
  -- false for it and every profile, and `revoke_device_token` returns false for it.
  pub revoke_forever :
      (token : Text) (now : ℕ) (db : Db) (cs : List Call) (profile : Text) (later : ℕ)
      → (revoke_device_token sha256 token now db).0 ≡ true
      → let after = run sha256 cs (revoke_device_token sha256 token now db).1 in
        ((device_profile_ids sha256 token later after).0 ≡ none)
        × ((authenticate_device_token sha256 token profile later after).0 ≡ false)
        × ((revoke_device_token sha256 token later after).0 ≡ false)
  revoke_forever token now db cs profile later done =
      let h = sha256 (strip token) in
      let r = run-IsRevoked sha256 h cs _ (revoke-IsRevoked_self token now db done) in
      (
        device_profile_ids_revoked token later _ r,
        authenticate_revoked token profile later _ r,
        revoke_revoked token later _ r,
      )
