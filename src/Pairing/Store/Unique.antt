-- ===== src/Pairing/Store/Unique.antt =====
-- The keys of the two tables, and the plaintext tokens of old rows.
use hermes_link_server.Prelude.{
  ℕ, Text, text_eq, contains, strip, ◌≡◌, refl, ap, ◌∙◌, Bool, false, Option, none, some, List, [],
  ◌∷◌, ◌++◌, arith, any, update, Bool-cases, inl, inr,
}
use hermes_link_server.Prelude.Words.{Distinct, Distinct-snoc}
use hermes_link_server.Pairing.Validation.{Result, ok, err, validate_code, is_device_token}
use hermes_link_server.Pairing.Store.{
  Ticket, Device, Db, has_code, has_id, is_active, mark_used, mark_seen, mark_revoked, is_legacy,
  hash_legacy, connect, insert_ticket, create_checked, create_ticket, conflicts, redeem,
  exchange_checked, exchange, scope_of, device_profile_ids, authenticate_device_token,
  revoke_device_token,
}
use hermes_link_server.Pairing.Store.Cases.{redeem-cases}
use hermes_link_server.Pairing.Store.Traces.{
  Call, create, redeem_code, scope, authenticate, revoke, perform, run,
}

-- The values of a column.
abbrev pub column {ℓ} : {A : Type ℓ} → (A → Text) → List A → List Text
column f [] = []
column f (x ∷ xs) = f x ∷ column f xs

column-update {ℓ} :
    {A : Type ℓ} (f : A → Text) (p : A → Bool) (g : A → A)
    → ((x : A) → f (g x) ≡ f x)
    → (xs : List A) → column f (update p g xs) ≡ column f xs
column-update f p g same [] = refl
column-update f p g same (x ∷ xs) = ground (arith, same x, column-update f p g same xs)

column-append {ℓ} :
    {A : Type ℓ} (f : A → Text) (xs ys : List A) → column f (xs ++ ys) ≡ column f xs ++ column f ys
column-append f [] ys = refl
column-append f (x ∷ xs) ys = ap (λ r. f x ∷ r) (column-append f xs ys)

contains-column {ℓ} :
    {A : Type ℓ} (f : A → Text) (s : Text) (xs : List A)
    → contains s (column f xs) ≡ any (λ x. text_eq (f x) s) xs
unfolding contains
contains-column f s [] = refl
contains-column f s (x ∷ xs) = ground (arith, contains-column f s xs)

-- No two rows of a table have one key.
abbrev pub HasKey {ℓ} : {A : Type ℓ} → (A → Text) → List A → Type 0
HasKey f xs = Distinct (column f xs)

HasKey-update {ℓ} :
    {A : Type ℓ} (f : A → Text) (p : A → Bool) (g : A → A)
    → ((x : A) → f (g x) ≡ f x)
    → (xs : List A) → HasKey f xs
    → HasKey f (update p g xs)
HasKey-update f p g same xs k = rw (column-update f p g same xs) k

HasKey-snoc {ℓ} :
    {A : Type ℓ} (f : A → Text) (xs : List A) (x : A)
    → HasKey f xs
    → any (λ y. text_eq (f y) (f x)) xs ≡ false
    → HasKey f (xs ++ x ∷ [])
HasKey-snoc f xs x k new =
    rw (column-append f xs (x ∷ []))
      (Distinct-snoc (column f xs) (f x) k (contains-column f (f x) xs ∙ new))

-- The PRIMARY KEY and UNIQUE constraints of the two tables.
pub record IsKeyed (db : Db) : Type 0 where
  pub codes : HasKey (λ (t : Ticket). t.code_hash) db.tickets
  pub ids : HasKey (λ (d : Device). d.device_id) db.devices
  pub tokens : HasKey (λ (d : Device). d.token_hash) db.devices

module _ (sha256 : Text → Text) where
  connect-IsKeyed : (db : Db) → IsKeyed db → IsKeyed (connect sha256 db)
  unfolding connect hash_legacy
  connect-IsKeyed db k = record {
    codes = HasKey-update _ is_legacy (hash_legacy sha256) (λ t. refl) db.tickets k.codes;
    ids = k.ids;
    tokens = k.tokens;
  }

  insert_ticket-IsKeyed :
      (t : Ticket) (db : Db) → IsKeyed db → IsKeyed (insert_ticket sha256 t db).1
  unfolding insert_ticket
  insert_ticket-IsKeyed t db k = elim (Bool-cases (any (has_code t.code_hash) db.tickets)) [
    | inl taken ↦ rw taken k
    | inr new ↦
        rw new (record {
          codes = HasKey-snoc _ db.tickets t k.codes new;
          ids = k.ids;
          tokens = k.tokens;
        })
  ]

  create_checked-IsKeyed :
      (inputs : Result (Text × Text)) (now ttl : ℕ) (profiles : List Text) (code : Text) (db : Db)
      → IsKeyed db
      → IsKeyed (create_checked sha256 inputs now ttl profiles code db).1
  unfolding create_checked
  create_checked-IsKeyed (err e) now ttl profiles code db k = k
  create_checked-IsKeyed (ok (url, token)) now ttl profiles code db k =
      insert_ticket-IsKeyed _ (connect sha256 db) (connect-IsKeyed db k)

  stored-IsKeyed :
      (h : Text) (now : ℕ) (d : Device) (db : Db)
      → IsKeyed db
      → conflicts sha256 d db.devices ≡ false
      → IsKeyed (record {
        tickets = update (has_code h) (mark_used now) db.tickets;
        devices = db.devices ++ d ∷ [];
      })
  unfolding conflicts
  stored-IsKeyed h now d db k free = record {
    codes = HasKey-update _ (has_code h) (mark_used now) (λ t. refl) db.tickets k.codes;
    ids = HasKey-snoc _ db.devices d k.ids (ground arith);
    tokens = HasKey-snoc _ db.devices d k.tokens (ground arith);
  }

  redeem-IsKeyed :
      (row : Option Ticket) (h : Text) (now : ℕ) (id token : Text) (db : Db)
      → IsKeyed db
      → IsKeyed (redeem sha256 row h now id token db).1
  unfolding redeem
  redeem-IsKeyed none h now id token db k = k
  redeem-IsKeyed (some row) h now id token db k = elim (redeem-cases sha256 row h now id token db) [
    | inl (e, free) ↦ rw e (stored-IsKeyed h now _ db k free)
    | inr (inl e) ↦ rw e k
    | inr (inr (inl e)) ↦ rw e k
    | inr (inr (inr e)) ↦ rw e k
  ]

  exchange_checked-IsKeyed :
      (checked : Result Text) (now : ℕ) (id token : Text) (db : Db)
      → IsKeyed db
      → IsKeyed (exchange_checked sha256 checked now id token db).1
  unfolding exchange_checked
  exchange_checked-IsKeyed (err e) now id token db k = k
  exchange_checked-IsKeyed (ok code) now id token db k =
      redeem-IsKeyed _ (sha256 code) now id token (connect sha256 db) (connect-IsKeyed db k)

  devices-IsKeyed :
      (p : Device → Bool) (f : Device → Device) (db : Db)
      → ((d : Device) → (f d).device_id ≡ d.device_id)
      → ((d : Device) → (f d).token_hash ≡ d.token_hash)
      → IsKeyed db
      → IsKeyed (record (connect sha256 db) { devices = update p f db.devices })
  devices-IsKeyed p f db same_id same_token k = record {
    codes = (connect-IsKeyed db k).codes;
    ids = HasKey-update _ p f same_id db.devices k.ids;
    tokens = HasKey-update _ p f same_token db.devices k.tokens;
  }

  scope_of-IsKeyed :
      (row : Option Device) (now : ℕ) (db : Db)
      → IsKeyed db
      → IsKeyed (scope_of sha256 row now (connect sha256 db)).1
  unfolding scope_of connect
  scope_of-IsKeyed none now db k = connect-IsKeyed db k
  scope_of-IsKeyed (some row) now db k =
      devices-IsKeyed (has_id row.device_id) (mark_seen now) db (λ d. refl) (λ d. refl) k

  device_profile_ids-IsKeyed :
      (token : Text) (now : ℕ) (db : Db)
      → IsKeyed db
      → IsKeyed (device_profile_ids sha256 token now db).1
  unfolding device_profile_ids
  device_profile_ids-IsKeyed token now db k = elim (Bool-cases (is_device_token (strip token))) [
    | inl valid ↦ rw valid (scope_of-IsKeyed _ now db k)
    | inr malformed ↦ rw malformed k
  ]

  revoke-IsKeyed :
      (token : Text) (now : ℕ) (db : Db)
      → IsKeyed db
      → IsKeyed (revoke_device_token sha256 token now db).1
  unfolding revoke_device_token
  revoke-IsKeyed token now db k = elim (Bool-cases (is_device_token (strip token))) [
    | inl valid ↦ rw valid (
        devices-IsKeyed (is_active (sha256 (strip token))) (mark_revoked now) db (λ d. refl)
          (λ d. refl) k)
    | inr malformed ↦ rw malformed k
  ]

  perform-IsKeyed : (c : Call) (db : Db) → IsKeyed db → IsKeyed (perform sha256 c db)
  unfolding perform authenticate_device_token create_ticket exchange
  perform-IsKeyed (create u t ttl now ps code) db k = create_checked-IsKeyed _ now _ ps code db k
  perform-IsKeyed (redeem_code code now hex random) db k =
      exchange_checked-IsKeyed (validate_code code) now _ _ db k
  perform-IsKeyed (scope token now) db k = device_profile_ids-IsKeyed token now db k
  perform-IsKeyed (authenticate token profile now) db k = device_profile_ids-IsKeyed token now db k
  perform-IsKeyed (revoke token now) db k = revoke-IsKeyed token now db k

  -- If the code hashes, the device ids and the token hashes of a database are each distinct, they
  -- are so after any calls, whatever the clock and the drawn texts.
  pub run-IsKeyed : (cs : List Call) (db : Db) → IsKeyed db → IsKeyed (run sha256 cs db)
  unfolding run
  run-IsKeyed [] db k = k
  run-IsKeyed (c ∷ cs) db k = run-IsKeyed cs (perform sha256 c db) (perform-IsKeyed c db k)
