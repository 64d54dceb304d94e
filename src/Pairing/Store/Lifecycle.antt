-- ===== src/Pairing/Store/Lifecycle.antt =====
-- A ticket from its creation to its exchange or its expiry.
use hermes_link_server.Prelude.{
  ℕ, ◌+◌, ◌≤◌, Text, text, text_eq_refl, length, strip, ◌≡◌, refl, ap, ◌∙◌, false, true, some, List,
  [], ◌∷◌, ◌++◌, arith, any, find, update, any-update, find-append, update-append, ltb,
  if◌then◌else◌, all, full_match, is_url_safe,
}
use hermes_link_server.Json.{ℤ, pos, negsuc}
use hermes_link_server.Pairing.Validation.{
  Result, Failure, ok, err, pairing_error, validate_base_url, validate_code,
}
use hermes_link_server.Pairing.Profiles.{normalize_profiles}
use hermes_link_server.Pairing.Profiles.Laws.{load-dump, normalize_profiles-IsScope}
use hermes_link_server.Pairing.Store.{
  Ticket, Device, Db, PairingTicket, has_code, has_token, has_id, is_legacy, hash_legacy, connect,
  new_ticket, insert_ticket, checked_inputs, create_checked, create_ticket, ttl_value, ticket_url,
  redeem, exchange_checked, exchange,
}
use hermes_link_server.Prelude.Words.{strip-no_space, no_space-url_safe}

token_body_chars : (s : Text) → full_match is_url_safe 32 128 s ≡ true → all is_url_safe s ≡ true
unfolding full_match
token_body_chars s h = ground arith

module _ (sha256 : Text → Text) where
  -- The inputs that `create_ticket` accepts, and the ticket that it stores for them.
  pub record IsIssued (base_url api_token : Text) (ttl : ℤ) (now : ℕ) (profiles : List Text)
      (code : Text) (db : Db) (p : PairingTicket) : Type 0 where
    pub url : Text
    pub seconds : ℕ
    pub valid_url : validate_base_url base_url ≡ ok url
    pub token_length : (8 ≤ length (strip api_token)) × (length (strip api_token) ≤ 4096)
    pub ttl_range : (ttl ≡ pos seconds) × (30 ≤ seconds) × (seconds ≤ 3600)
    pub new_code : any (has_code (sha256 code)) db.tickets ≡ false
    pub pairing_url : p.pairing_url ≡ ticket_url url code
    pub expires : p.expires_at ≡ now + seconds

  checked_inputs-ok :
      (base_url api_token : Text) (ttl : ℤ) (url token : Text)
      → checked_inputs sha256 base_url api_token ttl ≡ ok (url, token)
      → (validate_base_url base_url ≡ ok url)
        × (token ≡ strip api_token)
        × (8 ≤ length (strip api_token))
        × (length (strip api_token) ≤ 4096)
        × (ttl ≡ pos (ttl_value ttl))
        × (30 ≤ ttl_value ttl)
        × (ttl_value ttl ≤ 3600)
  unfolding checked_inputs
  checked_inputs-ok base_url api_token (pos n) url token e = ground arith
  checked_inputs-ok base_url api_token (negsuc n) url token e = ground arith

  has_code-connect :
      (h : Text) (db : Db)
      → any (has_code h) (connect sha256 db).tickets ≡ any (has_code h) db.tickets
  unfolding connect
  has_code-connect h db =
      any-update (has_code h) is_legacy (hash_legacy sha256) (unfold hash_legacy in λ t. refl)
        db.tickets

  insert_ticket-ok :
      (t : Ticket) (db : Db)
      → (insert_ticket sha256 t db).0 ≡ ok tt
      → (any (has_code t.code_hash) db.tickets ≡ false)
        × ((insert_ticket sha256 t db).1 ≡ record db { tickets = db.tickets ++ t ∷ [] })
  unfolding insert_ticket
  insert_ticket-ok t db e = ground arith

  create_checked-ok :
      (url token : Text) (now ttl : ℕ) (profiles : List Text) (code : Text) (db : Db)
      (p : PairingTicket)
      → (create_checked sha256 (ok (url, token)) now ttl profiles code db).0 ≡ ok p
      → (any (has_code (sha256 code)) db.tickets ≡ false)
        × (p.pairing_url ≡ ticket_url url code)
        × (p.expires_at ≡ now + ttl)
        × ((create_checked sha256 (ok (url, token)) now ttl profiles code db).1 ≡ record {
          tickets =
              (connect sha256 db).tickets ++ new_ticket sha256 url token now ttl profiles code ∷ [];
          devices = db.devices;
        })
  unfolding create_checked
  create_checked-ok url token now ttl profiles code db p e =
      ground (arith, has_code-connect (sha256 code) db)

  create_checked_err :
      (f : Failure) (now ttl : ℕ) (profiles : List Text) (code : Text) (db : Db) (p : PairingTicket)
      → ¬ ((create_checked sha256 (err f) now ttl profiles code db).0 ≡ ok p)
  unfolding create_checked
  create_checked_err f now ttl profiles code db p e = cc

  -- From the inputs and the stored state of a `create_ticket` that returned.
  record IsCreated (base_url api_token : Text) (ttl : ℤ) (now : ℕ) (profiles : List Text)
      (code : Text) (db after : Db) (p : PairingTicket) : Type 0 where
    issued : IsIssued base_url api_token ttl now profiles code db p
    stored : after ≡ record {
      tickets =
          (connect sha256 db).tickets
          ++ new_ticket sha256 issued.url (strip api_token) now issued.seconds profiles code ∷ [];
      devices = db.devices;
    }

  create_from-IsCreated :
      (inputs : Result (Text × Text)) (base_url api_token : Text) (ttl : ℤ) (now : ℕ)
      (profiles : List Text) (code : Text) (db : Db) (p : PairingTicket)
      → checked_inputs sha256 base_url api_token ttl ≡ inputs
      → (create_checked sha256 inputs now (ttl_value ttl) profiles code db).0 ≡ ok p
      → IsCreated base_url api_token ttl now profiles code db
          (create_checked sha256 inputs now (ttl_value ttl) profiles code db).1
          p
  create_from-IsCreated (err f) base_url api_token ttl now profiles code db p i e =
      absurd (create_checked_err f now (ttl_value ttl) profiles code db p e)
  create_from-IsCreated (ok (url, token)) base_url api_token ttl now profiles code db p i e =
      let (valid, same, l1, l2, t1, t2, t3) =
        checked_inputs-ok base_url api_token ttl url token i in
      let (new, printed, expires, stored) =
        create_checked-ok url token now (ttl_value ttl) profiles code db p e in
      record {
        issued = record {
          url = url;
          seconds = ttl_value ttl;
          valid_url = valid;
          token_length = (l1, l2);
          ttl_range = (t1, t2, t3);
          new_code = new;
          pairing_url = printed;
          expires = expires;
        };
        stored = rw (← same) stored;
      }

  create_ticket-IsCreated :
      (base_url api_token : Text) (ttl : ℤ) (now : ℕ) (profiles : List Text) (code : Text) (db : Db)
      (p : PairingTicket)
      → (create_ticket sha256 base_url api_token ttl now profiles code db).0 ≡ ok p
      → IsCreated base_url api_token ttl now profiles code db
          (create_ticket sha256 base_url api_token ttl now profiles code db).1
          p
  unfolding create_ticket
  create_ticket-IsCreated base_url api_token ttl now profiles code db p e =
      create_from-IsCreated _ base_url api_token ttl now profiles code db p refl e

  -- `create_ticket` returns a ticket only for a valid base URL, an API token of 8 to 4096
  -- characters, a time to live of 30 to 3600 seconds and a code that no ticket has; the ticket
  -- then carries the normalized URL with the code, and expires the time to live after the clock.
  pub create_ticket-IsIssued :
      (base_url api_token : Text) (ttl : ℤ) (now : ℕ) (profiles : List Text) (code : Text) (db : Db)
      (p : PairingTicket)
      → (create_ticket sha256 base_url api_token ttl now profiles code db).0 ≡ ok p
      → IsIssued base_url api_token ttl now profiles code db p
  create_ticket-IsIssued base_url api_token ttl now profiles code db p e =
      (create_ticket-IsCreated base_url api_token ttl now profiles code db p e).issued

  connect-new_ticket :
      (tickets : List Ticket) (devices : List Device) (url token : Text) (now ttl : ℕ)
      (profiles : List Text) (code : Text)
      → any (has_code (sha256 code)) tickets ≡ false
      → find
          (has_code (sha256 code))
          (connect sha256 (record {
            tickets = tickets ++ new_ticket sha256 url token now ttl profiles code ∷ [];
            devices = devices;
          })).tickets
        ≡ some (new_ticket sha256 url token now ttl profiles code)
  unfolding connect new_ticket
  connect-new_ticket tickets devices url token now ttl profiles code fresh =
      rw
        (update-append is_legacy (hash_legacy sha256) tickets
          (new_ticket sha256 url token now ttl profiles code ∷ []))
        (find-append (has_code (sha256 code)) (update is_legacy (hash_legacy sha256) tickets) _ (
            any-update (has_code (sha256 code)) is_legacy (hash_legacy sha256) (λ t. refl) tickets
            ∙ fresh)
          ∙ ground (arith, text_eq_refl (sha256 code)))

  exchange_checked_of_find :
      (checked : Result Text) (code : Text) (row : Ticket) (now : ℕ) (id token : Text) (db : Db)
      → checked ≡ ok code
      → find (has_code (sha256 code)) (connect sha256 db).tickets ≡ some row
      → exchange_checked sha256 checked now id token db
        ≡ redeem sha256 (some row) (sha256 code) now id token (connect sha256 db)
  unfolding exchange_checked
  exchange_checked_of_find checked code row now id token db valid found = rw (valid, found)

  redeem_new :
      (url token : Text) (now ttl : ℕ) (profiles : List Text) (code : Text) (h : Text) (later : ℕ)
      (id secret : Text) (db : Db)
      → any (has_id id) db.devices ≡ false
      → any (has_token (sha256 secret)) db.devices ≡ false
      → (redeem sha256
          (some (new_ticket sha256 url token now ttl profiles code))
          h
          later
          id
          secret
          db).0
        ≡ (if ltb later (now + ttl)
            then ok (record {
              base_url = url;
              device_id = id;
              device_token = secret;
              profiles = normalize_profiles profiles;
            })
            else err (pairing_error "Pairing code has expired" "pairing_expired"))
  unfolding redeem new_ticket
  redeem_new url token now ttl profiles code h later id secret db new_id new_token =
      ground (arith, load-dump (normalize_profiles profiles) (normalize_profiles-IsScope profiles))

  validate_code-token_body :
      (code : Text) → full_match is_url_safe 32 128 code ≡ true → validate_code code ≡ ok code
  unfolding validate_code
  validate_code-token_body code form =
      rw (strip-no_space code (no_space-url_safe code (token_body_chars code form)), form)

  exchange_after :
      (checked : Result Text) (code url token : Text) (now ttl : ℕ) (profiles : List Text)
      (later : ℕ) (id secret : Text) (tickets : List Ticket) (devices : List Device) (after : Db)
      → checked ≡ ok code
      → after ≡ record {
        tickets = tickets ++ new_ticket sha256 url token now ttl profiles code ∷ [];
        devices = devices;
      }
      → any (has_code (sha256 code)) tickets ≡ false
      → any (has_id id) devices ≡ false
      → any (has_token (sha256 secret)) devices ≡ false
      → (exchange_checked sha256 checked later id secret after).0 ≡ (
          if ltb later (now + ttl)
          then ok (record {
            base_url = url;
            device_id = id;
            device_token = secret;
            profiles = normalize_profiles profiles;
          })
          else err (pairing_error "Pairing code has expired" "pairing_expired"))
  unfolding connect
  exchange_after checked code url token now ttl profiles later id secret tickets devices after valid
        stored fresh new_id new_token =
      rw stored (
        ap (λ x. x.0)
          (exchange_checked_of_find checked code (new_ticket sha256 url token now ttl profiles code)
            later id secret _ valid
            (connect-new_ticket tickets devices url token now ttl profiles code fresh))
        ∙ redeem_new url token now ttl profiles code (sha256 code) later id secret _ new_id
            new_token)

  -- The code of a ticket that `create_ticket` has just returned is exchanged, as long as the clock
  -- is before the expiry of the ticket, for a device with the normalized base URL and the
  -- normalized scope; from the expiry on the exchange fails with `pairing_expired`. The code has
  -- the documented form of `token_urlsafe`, and the drawn device id and token are new.
  pub create_ticket-exchange :
      (base_url api_token : Text) (ttl : ℤ) (now : ℕ) (profiles : List Text) (code : Text) (db : Db)
      (p : PairingTicket) (url : Text) (later : ℕ) (hex random : Text)
      → (create_ticket sha256 base_url api_token ttl now profiles code db).0 ≡ ok p
      → validate_base_url base_url ≡ ok url
      → full_match is_url_safe 32 128 code ≡ true
      → any (has_id (text "dev_" ++ hex)) db.devices ≡ false
      → any (has_token (sha256 (text "hmd_" ++ random))) db.devices ≡ false
      → (exchange sha256 code later hex random
          (create_ticket sha256 base_url api_token ttl now profiles code db).1).0
        ≡ (if ltb later p.expires_at
            then ok (record {
              base_url = url;
              device_id = text "dev_" ++ hex;
              device_token = text "hmd_" ++ random;
              profiles = normalize_profiles profiles;
            })
            else err (pairing_error "Pairing code has expired" "pairing_expired"))
  unfolding exchange
  create_ticket-exchange base_url api_token ttl now profiles code db p url later hex random e valid
        form new_id new_token =
      let c = create_ticket-IsCreated base_url api_token ttl now profiles code db p e in
      let same : url ≡ c.issued.url = cc (c.issued.valid_url) in
      rw (c.issued.expires, same)
        (exchange_after (validate_code code) code c.issued.url (strip api_token) now
          c.issued.seconds profiles later _ _ (connect sha256 db).tickets db.devices _
          (validate_code-token_body code form) c.stored
          (has_code-connect (sha256 code) db ∙ c.issued.new_code) new_id new_token)
