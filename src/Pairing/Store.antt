-- ===== src/Pairing/Store.antt =====
-- src/hermes_link/pairing/store.py: the two tables and the methods of `PairingStore`. A method
-- takes the database, the clock and the random texts that it draws, and returns the database as it
-- is committed. A rollback returns the database as `_connect` left it.
pub mod Traces
pub mod Spent
pub mod Revoked
pub mod Grant
pub mod Lifecycle
pub mod Cases
pub mod Unique
use hermes_link_server.Prelude.{
  ℕ, ◌+◌, Text, text, text_eq, contains, is_empty, is_some, strip, Bool, true, false, not, ◌&&◌,
  ◌||◌, Option, none, some, List, [], ◌∷◌, ◌++◌, leb, ltb, if◌then◌else◌, length, any, find, update,
}
use hermes_link_server.Prelude.Url.{quote}
use hermes_link_server.Json.{ℤ, pos, negsuc, JsonText}
use hermes_link_server.Pairing.Profiles.{normalize_profiles, load_profiles, dump_profiles}
use hermes_link_server.Pairing.Validation.{
  Failure, pairing, integrity, Result, ok, err, ◌>>=◌, ◌>>◌, pairing_error, reject_if,
  validate_base_url, validate_code, is_device_token, code_invalid,
}

-- a row of pairing_tickets
pub record Ticket : Type 0 where
  pub code_hash : Text
  pub base_url : Text
  pub api_token : Text
  pub api_token_hash : Option Text
  pub profiles_json : JsonText
  pub created_at : ℕ
  pub expires_at : ℕ
  pub used_at : Option ℕ

-- a row of pairing_devices
pub record Device : Type 0 where
  pub device_id : Text
  pub token_hash : Text
  pub base_url : Text
  pub profiles_json : JsonText
  pub created_at : ℕ
  pub last_used_at : ℕ
  pub revoked_at : Option ℕ

-- The rows of a table, in the order of insertion.
pub record Db : Type 0 where
  pub tickets : List Ticket
  pub devices : List Device

pub record PairingTicket : Type 0 where
  pub pairing_url : Text
  pub expires_at : ℕ

-- The dictionary that `exchange` returns, less its constant schema version.
pub record Exchange : Type 0 where
  pub base_url : Text
  pub device_id : Text
  pub device_token : Text
  pub profiles : List Text

-- `WHERE code_hash = ?`
abbrev pub has_code : Text → Ticket → Bool
has_code h t = text_eq t.code_hash h

-- `WHERE token_hash = ? AND revoked_at IS NULL`
abbrev pub is_active : Text → Device → Bool
is_active h d = text_eq d.token_hash h && not (is_some d.revoked_at)

abbrev pub has_token : Text → Device → Bool
has_token h d = text_eq d.token_hash h

abbrev pub has_id : Text → Device → Bool
has_id i d = text_eq d.device_id i

abbrev pub mark_used : ℕ → Ticket → Ticket
mark_used now t = record t { used_at = some now }

abbrev pub mark_seen : ℕ → Device → Device
mark_seen now d = record d { last_used_at = now }

abbrev pub mark_revoked : ℕ → Device → Device
mark_revoked now d = record d { revoked_at = some now }

missing_hash : Option Text → Bool
missing_hash none = true
missing_hash (some h) = is_empty h

-- a row of `legacy_rows`
pub is_legacy : Ticket → Bool
unfolding missing_hash
is_legacy t = missing_hash t.api_token_hash && not (is_empty t.api_token)

-- `ttl_seconds < 30 or ttl_seconds > 3600`, of a Python integer
ttl_out_of_range : ℤ → Bool
ttl_out_of_range (pos n) = ltb n 30 || ltb 3600 n
ttl_out_of_range (negsuc n) = true

-- The time to live where it is in range.
abbrev ttl_value : ℤ → ℕ
ttl_value (pos n) = n
ttl_value (negsuc n) = 0

pub ticket_url : Text → Text → Text
unfolding quote text
ticket_url base_url code = base_url ++ text "/api/mobile/pair?code=" ++ quote code ++ text "&v=1"

-- `hashlib.sha256(text.encode()).hexdigest()`
module _ (sha256 : Text → Text) where
  -- the UPDATE of one legacy row
  hash_legacy : Ticket → Ticket
  hash_legacy t = record t { api_token = []; api_token_hash = some (sha256 t.api_token) }

  -- `_connect`, over tables that have all their columns
  unfoldable pub connect : Db → Db
  unfolding is_legacy hash_legacy
  connect db = record db { tickets = update is_legacy hash_legacy db.tickets }

  new_ticket : Text → Text → ℕ → ℕ → List Text → Text → Ticket
  new_ticket base_url token now ttl profile_ids code = record {
    code_hash = sha256 code;
    base_url = base_url;
    api_token = [];
    api_token_hash = some (sha256 token);
    profiles_json = dump_profiles (normalize_profiles profile_ids);
    created_at = now;
    expires_at = now + ttl;
    used_at = none;
  }

  -- The INSERT, which fails where the primary key is taken.
  insert_ticket : Ticket → Db → Result (Unit {0}) × Db
  insert_ticket t db =
      if any (has_code t.code_hash) db.tickets
      then (err integrity, db)
      else (ok tt, record db { tickets = db.tickets ++ t ∷ [] })

  checked_inputs : Text → Text → ℤ → Result (Text × Text)
  unfolding ttl_out_of_range strip
  checked_inputs base_url api_token ttl_seconds = do
    normalized_url ← validate_base_url base_url
    let token = strip api_token
    reject_if (ltb (length token) 8 || ltb 4096 (length token))
        (pairing_error "Pairing API token is invalid" "pairing_token_invalid")
    reject_if (ttl_out_of_range ttl_seconds)
        (pairing_error "Pairing TTL must be between 30 and 3600 seconds" "pairing_invalid")
    ok (normalized_url, token)

  create_checked : Result (Text × Text) → ℕ → ℕ → List Text → Text → Db → Result PairingTicket × Db
  unfolding new_ticket insert_ticket ticket_url connect
  create_checked (err e) now ttl profile_ids code db = (err e, db)
  create_checked (ok (base_url, token)) now ttl profile_ids code db =
      let (r, db') =
        insert_ticket (new_ticket base_url token now ttl profile_ids code) (connect db) in
      (
        r >>= λ _. ok (record { pairing_url = ticket_url base_url code; expires_at = now + ttl }),
        db',
      )

  -- `create_ticket`, with `code` for `secrets.token_urlsafe(32)`
  unfoldable pub create_ticket :
      Text → Text → ℤ → ℕ → List Text → Text → Db → Result PairingTicket × Db
  unfolding checked_inputs create_checked
  create_ticket base_url api_token ttl_seconds now profile_ids code db =
      create_checked (checked_inputs base_url api_token ttl_seconds) now (ttl_value ttl_seconds)
        profile_ids code db

  pub new_device : Ticket → ℕ → Text → Text → Device
  new_device row now device_id device_token = record {
    device_id = device_id;
    token_hash = sha256 device_token;
    base_url = row.base_url;
    profiles_json = dump_profiles (load_profiles row.profiles_json);
    created_at = now;
    last_used_at = now;
    revoked_at = none;
  }

  -- Both INSERT constraints of pairing_devices: the primary key, and the unique token hash.
  pub conflicts : Device → List Device → Bool
  conflicts d devices = any (has_id d.device_id) devices || any (has_token d.token_hash) devices

  pub granted : Ticket → Text → Text → Exchange
  granted row device_id device_token = record {
    base_url = row.base_url;
    device_id = device_id;
    device_token = device_token;
    profiles = load_profiles row.profiles_json;
  }

  -- From the SELECT of the ticket to the commit; every error rolls back to `db`.
  pub redeem : Option Ticket → Text → ℕ → Text → Text → Db → Result Exchange × Db
  unfolding new_device conflicts granted
  redeem none h now device_id device_token db = (err code_invalid, db)
  redeem (some row) h now device_id device_token db =
      let device = new_device row now device_id device_token in
      if is_some row.used_at
      then (err (pairing_error "Pairing code has already been used" "pairing_used"), db)
      else if leb row.expires_at now
      then (err (pairing_error "Pairing code has expired" "pairing_expired"), db)
      else if conflicts device db.devices
      then (err integrity, db)
      else (
        ok (granted row device_id device_token),
        record {
          tickets = update (has_code h) (mark_used now) db.tickets;
          devices = db.devices ++ device ∷ [];
        },
      )

  exchange_checked : Result Text → ℕ → Text → Text → Db → Result Exchange × Db
  unfolding redeem connect
  exchange_checked (err e) now device_id device_token db = (err e, db)
  exchange_checked (ok code) now device_id device_token db =
      redeem (find (has_code (sha256 code)) (connect db).tickets) (sha256 code) now device_id
        device_token (connect db)

  -- `exchange`, with `hex` for `secrets.token_hex(16)` and `random` for `secrets.token_urlsafe(32)`
  unfoldable pub exchange : Text → ℕ → Text → Text → Db → Result Exchange × Db
  unfolding exchange_checked text
  exchange code now hex random db =
      exchange_checked (validate_code code) now (text "dev_" ++ hex) (text "hmd_" ++ random) db

  scope_of : Option Device → ℕ → Db → Option (List Text) × Db
  scope_of none now db = (none, db)
  scope_of (some row) now db = (
    some (load_profiles row.profiles_json),
    record db { devices = update (has_id row.device_id) (mark_seen now) db.devices },
  )

  unfoldable pub device_profile_ids : Text → ℕ → Db → Option (List Text) × Db
  unfolding scope_of connect strip
  device_profile_ids token now db =
      let normalized = strip token in
      if is_device_token normalized
      then scope_of (find (is_active (sha256 normalized)) (connect db).devices) now (connect db)
      else (none, db)

  -- `str(profile_id or "default").strip() or "default"`
  pub current_profile : Text → Text
  unfolding strip text
  current_profile profile_id = let s = strip profile_id in if is_empty s then text "default" else s

  pub allows : Option (List Text) → Text → Bool
  allows none profile_id = false
  allows (some []) profile_id = true
  allows (some (p ∷ ps)) profile_id = contains profile_id (p ∷ ps)

  unfoldable pub authenticate_device_token : Text → Text → ℕ → Db → Bool × Db
  unfolding allows current_profile
  authenticate_device_token token profile_id now db =
      let (profiles, db') = device_profile_ids token now db in
      (allows profiles (current_profile profile_id), db')

  unfoldable pub revoke_device_token : Text → ℕ → Db → Bool × Db
  unfolding connect strip
  revoke_device_token token now db =
      let normalized = strip token in
      let h = sha256 normalized in
      if is_device_token normalized
      then (
        any (is_active h) db.devices,
        record (connect db) { devices = update (is_active h) (mark_revoked now) db.devices },
      )
      else (false, db)
