-- ===== src/Pairing/Validation.antt =====
-- src/hermes_link/pairing/store.py: the patterns, and the checks on URLs and codes.
use hermes_link_server.Prelude.{
  ℕ, Text, text, strip, rstrip, after_prefix, full_match, is_url_safe, String, Bool, true, false,
  not, ◌&&◌, ◌||◌, Option, none, some, ◌==◌, if◌then◌else◌, any, all, is_empty,
}

-- class PairingError
pub record PairingError : Type 0 where
  pub message : String
  pub status : ℕ
  pub code : String

-- An exception of a store operation: a PairingError, or the sqlite3.IntegrityError of an INSERT.
pub data Failure : Type 0 where
  pairing : PairingError → Failure
  integrity : Failure

-- What a store operation returns or raises.
pub data Result {ℓ} (Value : Type ℓ) : Type ℓ where
  err : Failure → Result Value
  ok : Value → Result Value

-- The statement that follows, unless an exception is on its way.
infixl 5 ◌>>=◌
abbrev pub ◌>>=◌ {ℓ κ} :
    {Value : Type ℓ} {Next : Type κ} → Result Value → (Value → Result Next) → Result Next
err raised >>= next = err raised
ok value >>= next = next value

infixl 5 ◌>>◌
abbrev pub ◌>>◌ {ℓ} : {Next : Type ℓ} → Result (Unit {0}) → Result Next → Result Next
check >> next = check >>= λ _. next

-- `raise PairingError(message, code=code)`, whose status is 400 by default
abbrev pub pairing_error : String → String → Failure
pairing_error message code = pairing (record { message = message; status = 400; code = code })

abbrev pub reject_if : Bool → Failure → Result (Unit {0})
reject_if true e = err e
reject_if false e = ok tt

-- `BASE_URL_PATTERN`: `^https?://[^/?#]+$`
is_authority : Text → Bool
is_authority s = not (is_empty s) && all (λ c. not (c == b'/' || c == b'?' || c == b'#')) s

authority_follows : Option Text → Bool
authority_follows none = false
authority_follows (some s) = is_authority s

unfoldable pub is_base_url : Text → Bool
unfolding is_authority authority_follows text after_prefix
is_base_url s =
    authority_follows (after_prefix (text "http://") s)
    || authority_follows (after_prefix (text "https://") s)

abbrev pub is_slash : ℕ → Bool
is_slash c = c == b'/'

unfoldable pub validate_base_url : Text → Result Text
unfolding strip rstrip is_base_url
validate_base_url base_url =
    let normalized = rstrip is_slash (strip base_url) in
    if not (is_base_url normalized) || any (λ c. c == b'@') normalized
    then err (pairing_error "Pairing base URL must use HTTP or HTTPS" "pairing_url_invalid")
    else ok normalized

-- `PAIRING_CODE_PATTERN`: `^[A-Za-z0-9_-]{32,128}$`
unfoldable pub is_pairing_code : Text → Bool
unfolding full_match is_url_safe
is_pairing_code s = full_match is_url_safe 32 128 s

abbrev pub code_invalid : Failure
code_invalid = pairing_error "Pairing code is invalid" "pairing_invalid"

unfoldable pub validate_code : Text → Result Text
unfolding strip is_pairing_code
validate_code code =
    let normalized = strip code in
    if is_pairing_code normalized then ok normalized else err code_invalid

-- `DEVICE_TOKEN_PATTERN`: `^hmd_[A-Za-z0-9_-]{32,128}$`
token_body_follows : Option Text → Bool
token_body_follows none = false
token_body_follows (some s) = full_match is_url_safe 32 128 s

unfoldable pub is_device_token : Text → Bool
unfolding token_body_follows full_match is_url_safe text after_prefix
is_device_token s = token_body_follows (after_prefix (text "hmd_") s)
