-- ===== src/Identity.antt =====
-- src/hermes_link/identity/server.py: the Server's identity, its Cloud configuration and the Cloud
-- binding attestation. The two files are the state; `urlparse`, base64, the key generator and the
-- Ed25519 signature are parameters. Errors of the file system are not modelled.
pub mod Laws
pub mod Attestation
use hermes_link_server.Prelude.{
  ℕ, ◌+◌, Text, text, text_eq, strip, rstrip, after_prefix, full_match, is_alnum, is_name_char,
  is_url_safe, is_profile_id, is_empty, is_some, contains, length, Bool, true, false, not, ◌||◌,
  ◌==◌, Option, none, some, List, [], ◌∷◌, ◌++◌, String, if◌then◌else◌,
}
use hermes_link_server.Json.{
  Json, null, bool, int, float, str, arr, obj, ℤ, pos, Fields, end, field, JsonText, document,
  malformed, get, get_or, to_text, text_or_empty, texts,
}

-- What an operation raises.
pub data Failure : Type 0 where
  value_error : String → Failure
  runtime_error : String → Failure
  type_error : Failure

pub data Result {ℓ} (Value : Type ℓ) : Type ℓ where
  err : Failure → Result Value
  ok : Value → Result Value

infixl 5 ◌>>=◌
abbrev pub ◌>>=◌ {ℓ κ} :
    {Value : Type ℓ} {Next : Type κ} → Result Value → (Value → Result Next) → Result Next
err raised >>= next = err raised
ok value >>= next = next value

abbrev pub checked {ℓ} : {Value : Type ℓ} → Bool → String → Value → Result Value
checked true message value = ok value
checked false message value = err (value_error message)

-- `SERVER_ID_PATTERN`: `^server_[A-Za-z0-9]{32}$`
pub server_body : Option Text → Bool
unfolding full_match is_alnum
server_body none = false
server_body (some s) = full_match is_alnum 32 32 s

unfoldable pub is_server_id : Text → Bool
unfolding server_body after_prefix text
is_server_id s = server_body (after_prefix (text "server_") s)

-- `INSTALLATION_ID_PATTERN`: `^[A-Za-z0-9._-]{1,128}$`
unfoldable pub is_installation_id : Text → Bool
unfolding full_match is_name_char
is_installation_id s = full_match is_name_char 1 128 s

-- `_validate_server_id`, of a text
unfoldable pub validate_server_id : Text → Result Text
unfolding strip
validate_server_id value =
    let server_id = strip value in checked (is_server_id server_id) "server_id is invalid" server_id

-- `_validate_installation_id`
unfoldable pub validate_installation_id : Json → Result Text
unfolding strip text_or_empty
validate_installation_id value =
    let installation_id = strip (text_or_empty value) in
    checked (is_installation_id installation_id) "installation_id is invalid" installation_id

-- `_normalize_profiles`, of a list of texts
pub collect_profiles : List Text → List Text → Result (List Text)
unfolding strip contains
collect_profiles profiles [] = ok profiles
collect_profiles profiles (value ∷ values) =
    let profile_id = strip value in
    let known = collect_profiles profiles values in
    let added = collect_profiles (profiles ++ profile_id ∷ []) values in
    if not (is_profile_id profile_id)
    then err (value_error "profile_id is invalid")
    else if contains profile_id profiles
    then known
    else added

pub required_profiles : List Text → Result (List Text)
required_profiles [] = err (value_error "at least one profile is required")
required_profiles (p ∷ ps) = ok (p ∷ ps)

unfoldable pub normalize_profiles : List Text → Result (List Text)
unfolding collect_profiles required_profiles
normalize_profiles values = collect_profiles [] values >>= required_profiles

-- What `urlparse` returns; `hostname`, `username` and `password` may be None.
pub record Url : Type 0 where
  pub scheme : Text
  pub hostname : Option Text
  pub username : Option Text
  pub password : Option Text
  pub query : Text
  pub fragment : Text

abbrev is_missing : Option Text → Bool
is_missing none = true
is_missing (some s) = is_empty s

unfoldable pub is_https_origin : Url → Bool
unfolding text text_eq
is_https_origin u = not (
    not (text_eq u.scheme (text "https"))
    || is_missing u.hostname
    || is_some u.username
    || is_some u.password
    || not (is_empty u.query)
    || not (is_empty u.fragment))

pub record Identity : Type 0 where
  pub server_id : Text
  pub public_key : Text
  pub private_key_pem : Text

pub record CloudConfig : Type 0 where
  pub cloud_url : Text
  pub installation_id : Text
  pub server_id : Text

-- The two files; none is a file that does not exist.
pub record Files : Type 0 where
  pub identity : Option JsonText
  pub config : Option JsonText

-- `str(value[key])`: a missing key is a KeyError
unfoldable pub text_at : String → Fields → Result Text
unfolding get to_text
text_at k fs = elim (get k fs) [ none ↦ err (value_error "KeyError") | some v ↦ ok (to_text v) ]

-- What `_write_restricted` leaves in a file.
unfoldable pub identity_document : Identity → Fields
unfolding text
identity_document i = field "schema_version" (str (text "2")) (
    field "server_id" (str i.server_id)
      (field "public_key" (str i.public_key) (field "private_key_pem" (str i.private_key_pem) end)))

unfoldable pub config_document : CloudConfig → Fields
config_document c = field "schema_version" (int (pos 2)) (
    field "cloud_url" (str c.cloud_url)
      (field "installation_id" (str c.installation_id) (field "server_id" (str c.server_id) end)))

loaded : Fields → Result CloudConfig
unfolding text_at
loaded fs = do
  cloud_url ← text_at "cloud_url" fs
  installation_id ← text_at "installation_id" fs
  server_id ← text_at "server_id" fs
  checked_id ← validate_server_id server_id
  ok (record { cloud_url = cloud_url; installation_id = installation_id; server_id = checked_id })

abbrev to_option {ℓ} : {A : Type ℓ} → Result A → Option A
to_option (err e) = none
to_option (ok a) = some a

-- `load_cloud_config`, with none for the empty dictionary
unfoldable pub load_cloud_config : Files → Option CloudConfig
unfolding loaded
load_cloud_config files = elim files.config [
  | some (document (obj fs)) ↦ to_option (loaded fs)
  | _ ↦ none
]

-- `clear_cloud_config`
unfoldable pub clear_cloud_config : Files → Files
clear_cloud_config files = record files { config = none }

module _ (urlparse : Text → Url) (decoded_length : Text → Option ℕ) where
  -- `_validate_cloud_url`
  unfoldable pub validate_cloud_url : Json → Result Text
  unfolding strip rstrip text_or_empty is_https_origin
  validate_cloud_url value =
      let cloud_url = rstrip (λ c. c == b'/') (strip (text_or_empty value)) in
      checked (is_https_origin (urlparse cloud_url))
        "cloud_url must be an HTTPS origin without credentials or query data" cloud_url

  is_32 : Option ℕ → Bool
  is_32 none = false
  is_32 (some n) = n == 32

  -- `_validate_public_key`; `decoded_length` is the length of `urlsafe_b64decode`, padded
  unfoldable pub validate_public_key : Text → Result Text
  unfolding is_32 strip
  validate_public_key value =
      let public_key = strip value in
      checked (is_32 (decoded_length public_key)) "server public key is invalid" public_key

  read_identity : Fields → Result Identity
  unfolding text_at
  read_identity fs = do
    raw_id ← text_at "server_id" fs
    server_id ← validate_server_id raw_id
    private_key_pem ← text_at "private_key_pem" fs
    raw_key ← text_at "public_key" fs
    public_key ← validate_public_key raw_key
    _ ← checked (not (is_empty private_key_pem)) "private key missing" private_key_pem
    ok (record {
      server_id = server_id;
      public_key = public_key;
      private_key_pem = private_key_pem;
    })

  stored_identity : JsonText → Result Identity
  unfolding read_identity
  stored_identity (document (obj fs)) = elim (read_identity fs) [
    | ok i ↦ ok i
    | err e ↦ err (runtime_error "Hermes Server Cloud identity file is invalid")
  ]
  stored_identity _ = err (runtime_error "Hermes Server Cloud identity file is invalid")

  -- `get_or_create_identity`, with the identity that a new key pair would give
  unfoldable pub get_or_create_identity : Identity → Files → Result Identity × Files
  unfolding stored_identity identity_document
  get_or_create_identity new files = elim files.identity [
    | some content ↦ (stored_identity content, files)
    | none ↦ (ok new, record files { identity = some (document (obj (identity_document new))) })
  ]

  -- the check of the requested Server id
  pub matching : Text → Text → Identity → Fields → Result CloudConfig
  unfolding get_or to_text
  matching cloud_url installation_id identity payload = do
    server_id ← validate_server_id (to_text (get_or "server_id" (str identity.server_id) payload))
    _ ←
        checked (text_eq server_id identity.server_id) "server_id does not match this Hermes Server"
          server_id
    ok (record { cloud_url = cloud_url; installation_id = installation_id; server_id = server_id })

  pub write_config : Result CloudConfig → Files → Result CloudConfig × Files
  unfolding config_document
  write_config (err e) files = (err e, files)
  write_config (ok c) files =
      (ok c, record files { config = some (document (obj (config_document c))) })

  pub configure_checked :
      Result (Text × Text) → Identity → Fields → Files → Result CloudConfig × Files
  unfolding get_or_create_identity matching write_config
  configure_checked (err e) new payload files = (err e, files)
  configure_checked (ok (cloud_url, installation_id)) new payload files =
      let (identity, files') = get_or_create_identity new files in
      write_config (identity >>= λ i. matching cloud_url installation_id i payload) files'

  -- The target and the installation that a payload names.
  unfoldable pub target_of : Fields → Result (Text × Text)
  unfolding get_or
  target_of payload = do
    cloud_url ← validate_cloud_url (get_or "cloud_url" null payload)
    installation_id ← validate_installation_id (get_or "installation_id" null payload)
    ok (cloud_url, installation_id)

  -- `configure_cloud`
  unfoldable pub configure_cloud : Fields → Identity → Files → Result CloudConfig × Files
  unfolding configure_checked target_of
  configure_cloud payload new files = configure_checked (target_of payload) new payload files
