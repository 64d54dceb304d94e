-- ===== src/Bridge/Cloud.antt =====
-- src/hermes_link/integrations/hermes_agent/bridge.py: the handlers of the Cloud endpoints and of
-- the revocation of a device. The parameters are those of the identity and of the pairing store.
pub mod Laws
use package.text.Mathlib.Text.{◌==◌ as str_eq}
use hermes_link_server.Prelude.{
  ℕ, Text, text, contains, String, Bool, true, false, not, ◌&&◌, ◌||◌, any, all, Option, none, some,
  List, [], ◌∷◌, if◌then◌else◌,
}
use hermes_link_server.Json.{
  Json, bool, int, str, arr, obj, ℤ, pos, Fields, end, field, keys, texts,
}
use hermes_link_server.Pairing.Store.{Db, revoke_device_token}
use hermes_link_server.Adapter.Headers.{RequestHeaders, bearer_token, is_device}
use hermes_link_server.Identity.{
  Failure, value_error, runtime_error, type_error, Result, ok, err, Url, Identity, CloudConfig,
  Files, get_or_create_identity, configure_cloud, clear_cloud_config,
}
use hermes_link_server.Identity.Attestation.{
  Attestation, attestation_document, create_cloud_binding_attestation,
}
use hermes_link_server.Bridge.Access.{
  Environment, Access, denied, crashed, granted, Answer, failed, answered, Body, Read, payload_of,
  answer_with, read_local_json, cloud_control_profiles,
}

-- The pairing database and the files of the identity.
pub record State : Type 0 where
  pub db : Db
  pub files : Files

-- What a handler does: it answers, or an exception that it does not catch ends the request.
pub data Handled : Type 0 where
  answer : Answer → Handled
  uncaught : Handled

abbrev pub unauthorized : Answer
unauthorized = failed 401 "Cloud control authorization failed" "cloud_control_unauthorized"

-- `set(payload) - {…}`
unfoldable pub has_other_fields : List String → Fields → Bool
has_other_fields known fs = any (λ k. all (λ j. not (str_eq k j)) known) (keys fs)

abbrev pub attestation_fields : List String
attestation_fields = "schema_version" ∷ "cloud_url" ∷ "installation_id" ∷ []

abbrev pub configuration_fields : List String
configuration_fields = "schema_version" ∷ "cloud_url" ∷ "installation_id" ∷ "server_id" ∷ []

identity_answer : List Text → Result Identity → Answer
identity_answer profiles (err e) =
    failed 503 "Hermes Server Cloud identity is unavailable" "cloud_identity_unavailable"
identity_answer profiles (ok i) = answered (
    obj (
      field "schema_version" (int (pos 2)) (
        field "server_id" (str i.server_id)
          (field "public_key" (str i.public_key) (field "profiles" (arr (texts profiles)) end)))))

attestation_answer : Result (Attestation × Text) → Handled
unfolding attestation_document
attestation_answer (ok (a, signature)) = answer (
    answered (
      obj (
        field "schema_version" (int (pos 1)) (
          field "attestation" (obj (attestation_document a))
            (field "attestation_signature" (str signature) end)))))
attestation_answer (err type_error) = uncaught
attestation_answer (err _) =
    answer (failed 400 "Cloud attestation is invalid" "cloud_attestation_invalid")

configuration_answer : Result CloudConfig → Handled
configuration_answer (ok c) = answer (
    answered (
      obj (
        field "ok" (bool true) (
          field "schema_version" (int (pos 2)) (
            field "cloud_url" (str c.cloud_url) (
              field "installation_id" (str c.installation_id)
                (field "server_id" (str c.server_id) end)))))))
configuration_answer (err (value_error _)) =
    answer (failed 400 "Cloud configuration is invalid" "cloud_config_invalid")
configuration_answer (err (runtime_error _)) =
    answer (failed 503 "Cloud configuration is unavailable" "cloud_config_unavailable")
configuration_answer (err type_error) = uncaught

-- the answer of `DELETE /hermes-link/v1/pairing/device` to a device token
revocation_answer : Bool → Answer
revocation_answer true = answered (obj (field "revoked" (bool true) end))
revocation_answer false =
    failed 401 "Invalid or revoked Hermes Link device token" "device_token_invalid"

module _ (sha256 unquote : Text → Text) (env : Environment) (urlparse : Text → Url)
    (decoded_length : Text → Option ℕ) (int_of_text : Text → Option ℤ)
    (sign : Text → Fields → Result Text) where
  get_identity_for : Access (List Text) → Identity → Files → Handled × Files
  unfolding identity_answer
  get_identity_for denied new files = (answer unauthorized, files)
  get_identity_for crashed new files = (uncaught, files)
  get_identity_for (granted profiles) new files =
      let (identity, files') = get_or_create_identity urlparse decoded_length new files in
      (answer (identity_answer profiles identity), files')

  -- `GET /hermes-link/v1/cloud/identity`
  unfoldable pub get_cloud_identity : RequestHeaders → ℕ → Identity → State → Handled × State
  unfolding get_identity_for
  get_cloud_identity headers now new s =
      let (profiles, db) = cloud_control_profiles sha256 unquote env headers now s.db in
      let (handled, files) = get_identity_for profiles new s.files in
      (handled, record { db = db; files = files })

  attest_read : List Text → ℕ → Text → Identity → Read → Files → Handled × Files
  unfolding has_other_fields attestation_answer
  attest_read profiles now random new (answer_with a) files = (answer a, files)
  attest_read profiles now random new (payload_of fs) files =
      let (r, files') =
        create_cloud_binding_attestation urlparse decoded_length int_of_text sign fs profiles now
          random new files in
      if has_other_fields attestation_fields fs
      then (
        answer (failed 400 "Cloud attestation fields are invalid" "cloud_attestation_invalid"),
        files,
      )
      else (attestation_answer r, files')

  attest_for : Access (List Text) → ℕ → Text → Identity → Body → Files → Handled × Files
  unfolding attest_read read_local_json
  attest_for denied now random new body files = (answer unauthorized, files)
  attest_for crashed now random new body files = (uncaught, files)
  attest_for (granted profiles) now random new body files =
      attest_read profiles now random new (read_local_json body) files

  -- `POST /hermes-link/v1/cloud/attestation`
  unfoldable pub post_cloud_attestation :
      RequestHeaders → ℕ → Text → Identity → Body → State → Handled × State
  unfolding attest_for
  post_cloud_attestation headers now random new body s =
      let (profiles, db) = cloud_control_profiles sha256 unquote env headers now s.db in
      let (handled, files) = attest_for profiles now random new body s.files in
      (handled, record { db = db; files = files })

  configure_read : Identity → Read → Files → Handled × Files
  unfolding has_other_fields configuration_answer
  configure_read new (answer_with a) files = (answer a, files)
  configure_read new (payload_of fs) files =
      let (r, files') = configure_cloud urlparse decoded_length fs new files in
      if has_other_fields configuration_fields fs
      then (
        answer (failed 400 "Cloud configuration fields are invalid" "cloud_config_invalid"),
        files,
      )
      else (configuration_answer r, files')

  configure_for : Access (List Text) → Identity → Body → Files → Handled × Files
  unfolding configure_read read_local_json
  configure_for denied new body files = (answer unauthorized, files)
  configure_for crashed new body files = (uncaught, files)
  configure_for (granted profiles) new body files = configure_read new (read_local_json body) files

  -- `POST /hermes-link/v1/cloud/configure`
  unfoldable pub post_cloud_configure :
      RequestHeaders → ℕ → Identity → Body → State → Handled × State
  unfolding configure_for
  post_cloud_configure headers now new body s =
      let (profiles, db) = cloud_control_profiles sha256 unquote env headers now s.db in
      let (handled, files) = configure_for profiles new body s.files in
      (handled, record { db = db; files = files })

  clear_for : Access (List Text) → Files → Handled × Files
  unfolding clear_cloud_config
  clear_for denied files = (answer unauthorized, files)
  clear_for crashed files = (uncaught, files)
  clear_for (granted profiles) files =
      (answer (answered (obj (field "ok" (bool true) end))), clear_cloud_config files)

  -- `DELETE /hermes-link/v1/cloud/configure`
  unfoldable pub delete_cloud_configure : RequestHeaders → ℕ → State → Handled × State
  unfolding clear_for
  delete_cloud_configure headers now s =
      let (profiles, db) = cloud_control_profiles sha256 unquote env headers now s.db in
      let (handled, files) = clear_for profiles s.files in
      (handled, record { db = db; files = files })

  -- `DELETE /hermes-link/v1/pairing/device`: none where the request goes on to the Agent
  unfoldable pub delete_pairing_device : RequestHeaders → ℕ → State → Option Handled × State
  unfolding revocation_answer
  delete_pairing_device headers now s =
      let token = bearer_token headers in
      let (revoked, db) = revoke_device_token sha256 token now s.db in
      if is_device token
      then (some (answer (revocation_answer revoked)), record s { db = db })
      else (none, s)
