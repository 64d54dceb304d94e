-- ===== src/Identity/Attestation.antt =====
-- src/hermes_link/identity/server.py: `create_cloud_binding_attestation`.
use hermes_link_server.Prelude.{
  ℕ, ◌+◌, Text, text, after_prefix, full_match, is_url_safe, Bool, false, ◌==◌, Option, none, some,
  List, ◌++◌, if◌then◌else◌,
}
use hermes_link_server.Json.{
  Json, null, bool, int, float, str, arr, obj, ℤ, pos, Fields, end, field, get_or, texts,
}
use hermes_link_server.Identity.{
  value_error, runtime_error, type_error, Result, ok, err, ◌>>=◌, checked, Url, Identity, Files,
  normalize_profiles, get_or_create_identity, target_of,
}

-- `ATTESTATION_NONCE_PATTERN`: `^att_[A-Za-z0-9_-]{24,128}$`
nonce_body : Option Text → Bool
unfolding full_match is_url_safe
nonce_body none = false
nonce_body (some s) = full_match is_url_safe 24 128 s

unfoldable pub is_nonce : Text → Bool
unfolding nonce_body after_prefix text
is_nonce s = nonce_body (after_prefix (text "att_") s)

pub record Attestation : Type 0 where
  pub server_id : Text
  pub public_key : Text
  pub installation_id : Text
  pub cloud_url : Text
  pub profiles : List Text
  pub issued_at : ℕ
  pub expires_at : ℕ
  pub nonce : Text

unfoldable pub attestation_document : Attestation → Fields
attestation_document a = field "schema_version" (int (pos 1)) (
    field "server_id" (str a.server_id) (
      field "public_key" (str a.public_key) (
        field "installation_id" (str a.installation_id) (
          field "cloud_url" (str a.cloud_url) (
            field "profiles" (arr (texts a.profiles)) (
              field "issued_at" (int (pos a.issued_at)) (
                field "expires_at" (int (pos a.expires_at)) (field "nonce" (str a.nonce) end))))))))

module _ (urlparse : Text → Url) (decoded_length : Text → Option ℕ) where
  -- `int` of a float and of a text, and `_sign_attestation` on the canonical JSON
  module _ (int_of_text : Text → Option ℤ) (sign : Text → Fields → Result Text) where
    is_one : Option ℤ → Result Bool
    is_one none = err (value_error "invalid literal for int()")
    is_one (some (pos n)) = ok (n == 1)
    is_one (some _) = ok false

    -- `int(value) == 1`
    unfoldable pub is_version_one : Json → Result Bool
    unfolding is_one
    is_version_one null = err type_error
    is_version_one (bool b) = ok b
    is_version_one (int n) = is_one (some n)
    is_version_one (float s) = is_one (int_of_text s)
    is_version_one (str s) = is_one (int_of_text s)
    is_version_one (arr _) = err type_error
    is_version_one (obj _) = err type_error

    -- The scope of an attestation: the target, and the profiles.
    pub scope_of : Fields → List Text → Result ((Text × Text) × List Text)
    unfolding is_version_one get_or target_of
    scope_of payload profiles = do
      supported ← is_version_one (get_or "schema_version" (int (pos 0)) payload)
      _ ← checked supported "Cloud attestation schema_version is unsupported" supported
      target ← target_of urlparse decoded_length payload
      normalized ← normalize_profiles profiles
      ok (target, normalized)

    unfoldable pub attestation_of : (Text × Text) × List Text → ℕ → Text → Identity → Attestation
    unfolding text
    attestation_of ((cloud_url, installation_id), profiles) now random identity = record {
      server_id = identity.server_id;
      public_key = identity.public_key;
      installation_id = installation_id;
      cloud_url = cloud_url;
      profiles = profiles;
      issued_at = now;
      expires_at = now + 300;
      nonce = text "att_" ++ random;
    }

    -- the check of the nonce, and the signature
    pub signed : Attestation → Text → Result (Attestation × Text)
    signed a private_key_pem =
        if is_nonce a.nonce
        then (sign private_key_pem (attestation_document a) >>= λ s. ok (a, s))
        else err (runtime_error "Cloud attestation nonce generation failed")

    pub attest_scope :
        Result ((Text × Text) × List Text)
        → ℕ
        → Text
        → Identity
        → Files
        → Result (Attestation × Text) × Files
    unfolding get_or_create_identity attestation_of signed
    attest_scope (err e) now random new files = (err e, files)
    attest_scope (ok scope) now random new files =
        let (identity, files') = get_or_create_identity urlparse decoded_length new files in
        (identity >>= λ i. signed (attestation_of scope now random i) i.private_key_pem, files')

    -- `create_cloud_binding_attestation`, with `random` for `secrets.token_urlsafe(24)`
    unfoldable pub create_cloud_binding_attestation :
        Fields → List Text → ℕ → Text → Identity → Files → Result (Attestation × Text) × Files
    unfolding scope_of attest_scope
    create_cloud_binding_attestation payload profiles now random new files =
        attest_scope (scope_of payload profiles) now random new files
