-- ===== src/Pairing/Store/Cases.antt =====
-- The ways out of an exchange.
use hermes_link_server.Prelude.{
  ℕ, Text, ◌≡◌, refl, false, ◌⊎◌, inl, inr, Option, none, some, [], ◌∷◌, ◌++◌, arith, Bool-cases,
  is_some, leb, update,
}
use hermes_link_server.Pairing.Validation.{
  Failure, pairing, integrity, Result, ok, err, validate_code, pairing_error,
}
use hermes_link_server.Pairing.Store.{
  Ticket, Device, Db, Exchange, has_code, mark_used, connect, redeem, conflicts, granted,
  new_device, exchange_checked, exchange,
}

-- A PairingError with the default status, or an IntegrityError.
abbrev pub IsRefusal : Failure → Type 0
IsRefusal (pairing e) = e.status ≡ 400
IsRefusal integrity = Unit

-- `stored`: a device was added to the table. `refused`: at most the migration of `_connect` was
-- written.
pub data Outcome (sha256 : Text → Text) (db : Db) (r : Result Exchange) (after : Db) : Type 0 where
  stored :
      (e : Exchange) (d : Device)
      → r ≡ ok e
      → after.devices ≡ db.devices ++ d ∷ []
      → d.device_id ≡ e.device_id
      → d.token_hash ≡ sha256 e.device_token
      → Outcome sha256 db r after
  refused :
      (f : Failure)
      → r ≡ err f
      → IsRefusal f
      → (after ≡ db) ⊎ (after ≡ connect sha256 db)
      → Outcome sha256 db r after

module _ (sha256 : Text → Text) where
  -- One case for each way out of the transaction.
  pub redeem-cases :
      (row : Ticket) (h : Text) (now : ℕ) (id token : Text) (db : Db)
      → let r = redeem sha256 (some row) h now id token db in
        ((r ≡ (
          ok (granted sha256 row id token),
          record {
            tickets = update (has_code h) (mark_used now) db.tickets;
            devices = db.devices ++ new_device sha256 row now id token ∷ [];
          },
        ))
          × (conflicts sha256 (new_device sha256 row now id token) db.devices ≡ false))
        ⊎ (r ≡ (err (pairing_error "Pairing code has already been used" "pairing_used"), db))
        ⊎ (r ≡ (err (pairing_error "Pairing code has expired" "pairing_expired"), db))
        ⊎ (r ≡ (err integrity, db))
  unfolding redeem
  redeem-cases row h now id token db = elim (Bool-cases (is_some row.used_at)) [
    | inl used ↦ rw used (inr (inl refl))
    | inr unused ↦ elim (Bool-cases (leb row.expires_at now)) [
      | inl expired ↦ rw (unused, expired) (inr (inr (inl refl)))
      | inr fresh ↦
          elim (Bool-cases (conflicts sha256 (new_device sha256 row now id token) db.devices)) [
            | inl taken ↦ rw (unused, fresh, taken) (inr (inr (inr refl)))
            | inr free ↦ rw (unused, fresh, free) (inl (refl, refl))
          ]
    ]
  ]

  redeem-Outcome :
      (row : Option Ticket) (h : Text) (now : ℕ) (id token : Text) (db : Db)
      → let r = redeem sha256 row h now id token (connect sha256 db) in Outcome sha256 db r.0 r.1
  unfolding redeem
  redeem-Outcome none h now id token db = refused _ refl refl (inr refl)
  redeem-Outcome (some row) h now id token db =
      elim (redeem-cases row h now id token (connect sha256 db)) [
        | inl (e, _) ↦ rw e (unfold connect granted new_device in stored _ _ refl refl refl refl)
        | inr (inl e) ↦ rw e (refused _ refl refl (inr refl))
        | inr (inr (inl e)) ↦ rw e (refused _ refl refl (inr refl))
        | inr (inr (inr e)) ↦ rw e (refused _ refl tt (inr refl))
      ]

  validate_code-IsRefusal : (code : Text) (f : Failure) → validate_code code ≡ err f → IsRefusal f
  unfolding validate_code
  validate_code-IsRefusal code (pairing e) v = ground arith
  validate_code-IsRefusal code integrity v = tt

  exchange_checked-Outcome :
      (code : Text) (checked : Result Text) (now : ℕ) (id token : Text) (db : Db)
      → validate_code code ≡ checked
      → let r = exchange_checked sha256 checked now id token db in Outcome sha256 db r.0 r.1
  unfolding exchange_checked
  exchange_checked-Outcome code (err f) now id token db v =
      refused f refl (validate_code-IsRefusal code f v) (inl refl)
  exchange_checked-Outcome code (ok c) now id token db v =
      redeem-Outcome _ (sha256 c) now id token db

  pub exchange-Outcome :
      (code : Text) (now : ℕ) (hex random : Text) (db : Db)
      → let r = exchange sha256 code now hex random db in Outcome sha256 db r.0 r.1
  unfolding exchange
  exchange-Outcome code now hex random db =
      exchange_checked-Outcome code (validate_code code) now _ _ db refl
