-- ===== src/Pairing/Store/Spent.antt =====
-- A pairing code is redeemed at most once.
use hermes_link_server.Prelude.{
  ℕ, Text, text_eq, ◌≡◌, refl, Bool, true, false, is_some, Option, none, some, List, [], ◌∷◌, ◌++◌,
  arith, find, update, if◌then◌else◌, Bool-cases, inl, inr,
}
use hermes_link_server.Json.{ℤ}
use hermes_link_server.Pairing.Validation.{Result, ok, err, pairing_error, validate_code}
use hermes_link_server.Pairing.Store.{
  Ticket, Db, Exchange, has_code, mark_used, is_legacy, hash_legacy, connect, insert_ticket,
  create_checked, create_ticket, redeem, exchange_checked, exchange, device_profile_ids, scope_of,
  authenticate_device_token, revoke_device_token,
}
use hermes_link_server.Pairing.Store.Traces.{
  Call, create, redeem_code, scope, authenticate, revoke, perform, run,
}

-- The row that the SELECT finds has been used.
pub is_spent : Text → List Ticket → Bool
is_spent h [] = false
is_spent h (t ∷ ts) = if has_code h t then is_some t.used_at else is_spent h ts

is_spent-append :
    (h : Text) (ts us : List Ticket) → is_spent h ts ≡ true → is_spent h (ts ++ us) ≡ true
unfolding is_spent
is_spent-append h [] us s = cc
is_spent-append h (t ∷ ts) us s = ground (arith, is_spent-append h ts us)

is_spent-mark_used :
    (h k : Text) (now : ℕ) (ts : List Ticket)
    → is_spent h ts ≡ true
    → is_spent h (update (has_code k) (mark_used now) ts) ≡ true
unfolding is_spent
is_spent-mark_used h k now [] s = cc
is_spent-mark_used h k now (t ∷ ts) s = ground (arith, is_spent-mark_used h k now ts)

is_spent_of_find :
    (h : Text) (now : ℕ) (row : Ticket) (ts : List Ticket)
    → find (has_code h) ts ≡ some row
    → is_spent h (update (has_code h) (mark_used now) ts) ≡ true
unfolding is_spent
is_spent_of_find h now row [] e = cc
is_spent_of_find h now row (t ∷ ts) e = ground (arith, is_spent_of_find h now row ts)

find_of_is_spent :
    (h : Text) (ts : List Ticket)
    → is_spent h ts ≡ true
    → (row : Ticket) × (find (has_code h) ts ≡ some row) × (is_some row.used_at ≡ true)
unfolding is_spent
find_of_is_spent h [] s = cc
find_of_is_spent h (t ∷ ts) s = elim (Bool-cases (text_eq t.code_hash h)) [
  | inl same ↦ (t, ground arith, ground arith)
  | inr other ↦
      let (row, found, used) = find_of_is_spent h ts (ground arith) in (row, ground arith, used)
]

module _ (sha256 : Text → Text) (h : Text) where
  is_spent-update_legacy :
      (ts : List Ticket)
      → is_spent h ts ≡ true
      → is_spent h (update is_legacy (hash_legacy sha256) ts) ≡ true
  unfolding is_spent hash_legacy
  is_spent-update_legacy [] s = cc
  is_spent-update_legacy (t ∷ ts) s = elim (Bool-cases (is_legacy t)) [
    | inl old ↦ rw old (ground (arith, is_spent-update_legacy ts))
    | inr new ↦ rw new (ground (arith, is_spent-update_legacy ts))
  ]

  -- A used ticket stays used whatever call is made, and no later row can take its place.
  abbrev IsSpent : Db → Type 0
  IsSpent db = is_spent h db.tickets ≡ true

  connect-IsSpent : (db : Db) → IsSpent db → IsSpent (connect sha256 db)
  unfolding connect
  connect-IsSpent db s = is_spent-update_legacy db.tickets s

  insert_ticket-IsSpent :
      (t : Ticket) (db : Db) → IsSpent db → IsSpent (insert_ticket sha256 t db).1
  unfolding insert_ticket
  insert_ticket-IsSpent t db s = ground (arith, is_spent-append h db.tickets (t ∷ []))

  create_checked-IsSpent :
      (inputs : Result (Text × Text)) (now ttl : ℕ) (profiles : List Text) (code : Text) (db : Db)
      → IsSpent db
      → IsSpent (create_checked sha256 inputs now ttl profiles code db).1
  unfolding create_checked
  create_checked-IsSpent (err e) now ttl profiles code db s = s
  create_checked-IsSpent (ok (base_url, token)) now ttl profiles code db s =
      insert_ticket-IsSpent _ (connect sha256 db) (connect-IsSpent db s)

  create_ticket-IsSpent :
      (base_url token : Text) (ttl : ℤ) (now : ℕ) (profiles : List Text) (code : Text) (db : Db)
      → IsSpent db
      → IsSpent (create_ticket sha256 base_url token ttl now profiles code db).1
  unfolding create_ticket
  create_ticket-IsSpent base_url token ttl now profiles code db s =
      create_checked-IsSpent _ now _ profiles code db s

  redeem-IsSpent :
      (row : Option Ticket) (k : Text) (now : ℕ) (id token : Text) (db : Db)
      → IsSpent db
      → IsSpent (redeem sha256 row k now id token db).1
  unfolding redeem
  redeem-IsSpent none k now id token db s = s
  redeem-IsSpent (some row) k now id token db s =
      ground (arith, is_spent-mark_used h k now db.tickets s)

  exchange_checked-IsSpent :
      (checked : Result Text) (now : ℕ) (id token : Text) (db : Db)
      → IsSpent db
      → IsSpent (exchange_checked sha256 checked now id token db).1
  unfolding exchange_checked
  exchange_checked-IsSpent (err e) now id token db s = s
  exchange_checked-IsSpent (ok code) now id token db s =
      redeem-IsSpent _ (sha256 code) now id token (connect sha256 db) (connect-IsSpent db s)

  exchange-IsSpent :
      (code : Text) (now : ℕ) (hex random : Text) (db : Db)
      → IsSpent db
      → IsSpent (exchange sha256 code now hex random db).1
  unfolding exchange
  exchange-IsSpent code now hex random db s =
      exchange_checked-IsSpent (validate_code code) now _ _ db s

  device_profile_ids-IsSpent :
      (token : Text) (now : ℕ) (db : Db)
      → IsSpent db
      → IsSpent (device_profile_ids sha256 token now db).1
  unfolding device_profile_ids scope_of
  device_profile_ids-IsSpent token now db s = ground (arith, connect-IsSpent db s)

  revoke-IsSpent :
      (token : Text) (now : ℕ) (db : Db)
      → IsSpent db
      → IsSpent (revoke_device_token sha256 token now db).1
  unfolding revoke_device_token
  revoke-IsSpent token now db s = ground (arith, connect-IsSpent db s)

  perform-IsSpent : (c : Call) (db : Db) → IsSpent db → IsSpent (perform sha256 c db)
  unfolding perform authenticate_device_token
  perform-IsSpent (create u t ttl now ps code) db s = create_ticket-IsSpent u t ttl now ps code db s
  perform-IsSpent (redeem_code code now hex random) db s = exchange-IsSpent code now hex random db s
  perform-IsSpent (scope token now) db s = device_profile_ids-IsSpent token now db s
  perform-IsSpent (authenticate token profile now) db s = device_profile_ids-IsSpent token now db s
  perform-IsSpent (revoke token now) db s = revoke-IsSpent token now db s

  run-IsSpent : (cs : List Call) (db : Db) → IsSpent db → IsSpent (run sha256 cs db)
  unfolding run
  run-IsSpent [] db s = s
  run-IsSpent (c ∷ cs) db s = run-IsSpent cs (perform sha256 c db) (perform-IsSpent c db s)

module _ (sha256 : Text → Text) where
  -- A code that is redeemed is a ticket that is spent.
  redeem-spends :
      (row : Option Ticket) (h : Text) (now : ℕ) (id token : Text) (db : Db) {e : Exchange}
      → find (has_code h) db.tickets ≡ row
      → (redeem sha256 row h now id token db).0 ≡ ok e
      → is_spent h (redeem sha256 row h now id token db).1.tickets ≡ true
  unfolding redeem
  redeem-spends none h now id token db f e = cc
  redeem-spends (some row) h now id token db f e =
      ground (arith, is_spent_of_find h now row db.tickets f)

  exchange_checked-spends :
      (checked : Result Text) (now : ℕ) (id token : Text) (db : Db) {e : Exchange}
      → (exchange_checked sha256 checked now id token db).0 ≡ ok e
      → (code : Text) × (checked ≡ ok code)
        × (is_spent (sha256 code) (exchange_checked sha256 checked now id token db).1.tickets
            ≡ true)
  unfolding exchange_checked
  exchange_checked-spends (err e) now id token db h = cc
  exchange_checked-spends (ok code) now id token db h =
      (code, refl, redeem-spends _ (sha256 code) now id token (connect sha256 db) refl h)

  redeem_spent :
      (h : Text) (now : ℕ) (id token : Text) (db : Db)
      → is_spent h db.tickets ≡ true
      → redeem sha256 (find (has_code h) db.tickets) h now id token db
        ≡ (err (pairing_error "Pairing code has already been used" "pairing_used"), db)
  redeem_spent h now id token db s =
      let (row, found, used) = find_of_is_spent h db.tickets s in
      rw found (unfold redeem in ground arith)

  exchange_checked_spent :
      (checked : Result Text) (code : Text) (now : ℕ) (id token : Text) (db : Db)
      → checked ≡ ok code
      → is_spent (sha256 code) db.tickets ≡ true
      → exchange_checked sha256 checked now id token db ≡ (
        err (pairing_error "Pairing code has already been used" "pairing_used"),
        connect sha256 db,
      )
  unfolding exchange_checked
  exchange_checked_spent checked code now id token db valid s = rw valid (
      redeem_spent (sha256 code) now id token (connect sha256 db)
        (connect-IsSpent sha256 (sha256 code) db s))

  -- Once `exchange` has returned a device for a code, then after any further calls on the
  -- database, and whatever the clock and the random texts, `exchange` of the same code fails with
  -- `pairing_used`, and returns the database as `_connect` leaves it.
  pub exchange_once :
      (code : Text) (now : ℕ) (hex random : Text) (db : Db) {e : Exchange} (cs : List Call)
      (later : ℕ) (hex' random' : Text)
      → (exchange sha256 code now hex random db).0 ≡ ok e
      → let after = run sha256 cs (exchange sha256 code now hex random db).1 in
        exchange sha256 code later hex' random' after ≡ (
          err (pairing_error "Pairing code has already been used" "pairing_used"),
          connect sha256 after,
        )
  unfolding exchange
  exchange_once code now hex random db cs later hex' random' h =
      let (c, valid, spent) = exchange_checked-spends (validate_code code) now _ _ db h in
      exchange_checked_spent (validate_code code) c later _ _ _ valid
        (run-IsSpent sha256 (sha256 c) cs _ spent)
