-- ===== src/Bridge/Cloud/Laws.antt =====
-- Who can change the Cloud configuration.
use hermes_link_server.Prelude.{
  ℕ, ◌≤◌, Text, text_eq, text_eq_sound, is_empty, length, ltb, true, false, ◌||◌, ◌&&◌, ◌≡◌, ◌⊎◌,
  inl, inr, refl, Option, none, some, List, Bool-cases, arith,
}
use hermes_link_server.Json.{ℤ, Fields}
use hermes_link_server.Pairing.Store.{Db, device_profile_ids}
use hermes_link_server.Adapter.Headers.{RequestHeaders, bearer_token, is_device, server_agent_token}
use hermes_link_server.Identity.{Result, Url, Identity}
use hermes_link_server.Bridge.Access.{
  Environment, Body, Access, denied, crashed, is_ascii, compare_server_token, all_profiles,
  allowed_profiles, discover_profile_ids, cloud_control_profiles,
}
use hermes_link_server.Bridge.Cloud.{
  State, Handled, answer, uncaught, unauthorized, get_cloud_identity, post_cloud_attestation,
  post_cloud_configure, delete_cloud_configure,
}

compare_server_token_cases :
    (expected token : Text)
    → (compare_server_token expected token ≡ denied)
      ⊎ ((compare_server_token expected token ≡ crashed)
          × ((is_ascii token && is_ascii expected) ≡ false))
      ⊎ ((8 ≤ length expected) × (token ≡ expected))
unfolding compare_server_token
compare_server_token_cases expected token =
    elim (Bool-cases (ltb (length expected) 8 || is_empty token)) [
      | inl short ↦ inl (rw short refl)
      | inr long ↦ elim (Bool-cases (is_ascii token && is_ascii expected)) [
        | inr other ↦ inr (inl (rw (long, other) refl, other))
        | inl ascii ↦ elim (Bool-cases (text_eq token expected)) [
          | inl same ↦ inr (inr (ground arith, text_eq_sound token expected same))
          | inr differs ↦ inl (rw (long, ascii, differs) refl)
        ]
      ]
    ]

module _ (sha256 unquote : Text → Text) (env : Environment) (urlparse : Text → Url)
    (decoded_length : Text → Option ℕ) (int_of_text : Text → Option ℤ)
    (sign : Text → Fields → Result Text) where
  -- the token that the Cloud endpoints ask for
  abbrev expected_token : Text
  expected_token = server_agent_token env.mobile_token env.agent_token

  -- A caller with the token of a device that is not revoked, or with that of the Server, which has
  -- at least 8 characters.
  abbrev IsCaller : RequestHeaders → ℕ → Db → Type 0
  IsCaller headers now db =
      ((is_device (bearer_token headers) ≡ true)
        × ((ps : List Text) × ((device_profile_ids sha256 (bearer_token headers) now db).0
              ≡ some ps)))
      ⊎ ((8 ≤ length expected_token) × (bearer_token headers ≡ expected_token))

  -- What is known of the caller, by the outcome of the check.
  abbrev Outcome : RequestHeaders → ℕ → Db → Access (List Text) → Type 0
  Outcome headers now db a =
      (a ≡ denied)
      ⊎ ((a ≡ crashed) × ((is_ascii (bearer_token headers) && is_ascii expected_token) ≡ false))
      ⊎ IsCaller headers now db

  allowed_profiles_cases :
      (headers : RequestHeaders) (now : ℕ) (db : Db) (o : Option (List Text))
      → is_device (bearer_token headers) ≡ true
      → (device_profile_ids sha256 (bearer_token headers) now db).0 ≡ o
      → Outcome headers now db (allowed_profiles (discover_profile_ids env) o)
  allowed_profiles_cases headers now db none d e = inl refl
  allowed_profiles_cases headers now db (some ps) d e = inr (inr (inl (d, (ps, e))))

  server_token_cases :
      (headers : RequestHeaders) (now : ℕ) (db : Db)
      → Outcome headers now db (
          all_profiles
            (discover_profile_ids env)
            (compare_server_token expected_token (bearer_token headers)))
  server_token_cases headers now db =
      elim (compare_server_token_cases expected_token (bearer_token headers)) [
        | inl e ↦ inl (rw e refl)
        | inr (inl (e, other)) ↦ inr (inl (rw e refl, other))
        | inr (inr same) ↦ inr (inr (inr same))
      ]

  control_device :
      (headers : RequestHeaders) (now : ℕ) (db : Db)
      → is_device (bearer_token headers) ≡ true
      → (cloud_control_profiles sha256 unquote env headers now db).0
        ≡ allowed_profiles
            (discover_profile_ids env)
            (device_profile_ids sha256 (bearer_token headers) now db).0
  unfolding cloud_control_profiles
  control_device headers now db device = rw device refl

  control_server :
      (headers : RequestHeaders) (now : ℕ) (db : Db)
      → is_device (bearer_token headers) ≡ false
      → (cloud_control_profiles sha256 unquote env headers now db).0
        ≡ all_profiles
            (discover_profile_ids env)
            (compare_server_token expected_token (bearer_token headers))
  unfolding cloud_control_profiles
  control_server headers now db other = rw other refl

  control_profiles_cases :
      (headers : RequestHeaders) (now : ℕ) (db : Db)
      → Outcome headers now db (cloud_control_profiles sha256 unquote env headers now db).0
  control_profiles_cases headers now db = elim (Bool-cases (is_device (bearer_token headers))) [
    | inl device ↦
        rw (control_device headers now db device)
          (allowed_profiles_cases headers now db _ device refl)
    | inr other ↦ rw (control_server headers now db other) (server_token_cases headers now db)
  ]

  -- A handler left the files as they were, with the answer 401 or, for a token that is not ASCII,
  -- with an exception; or its caller is known.
  pub IsGuarded : RequestHeaders → ℕ → State → Handled × State → Type 0
  IsGuarded headers now s r =
      ((r.0 ≡ answer unauthorized) × (r.1.files ≡ s.files))
      ⊎ ((r.0 ≡ uncaught)
          × (r.1.files ≡ s.files)
          × ((is_ascii (bearer_token headers) && is_ascii expected_token) ≡ false))
      ⊎ IsCaller headers now s.db

  -- Each of the four Cloud endpoints, whatever the body: it answers 401 and leaves the identity and
  -- the configuration as they are; or it ends with an exception, leaves them as they are, and the
  -- token of the request or of the Server is not ASCII; or the caller has the token of a device
  -- that the pairing store knows, or the token of the Server, which has at least 8 characters.
  pub cloud_endpoints-IsGuarded :
      (headers : RequestHeaders) (now : ℕ) (random : Text) (new : Identity) (body : Body)
      (s : State)
      → IsGuarded headers now s (
          get_cloud_identity sha256 unquote env urlparse decoded_length int_of_text sign headers now
            new s)
        × IsGuarded headers now s (
            post_cloud_attestation sha256 unquote env urlparse decoded_length int_of_text sign
              headers now random new body s)
        × IsGuarded headers now s (
            post_cloud_configure sha256 unquote env urlparse decoded_length int_of_text sign headers
              now new body s)
        × IsGuarded headers now s (
            delete_cloud_configure sha256 unquote env urlparse decoded_length int_of_text sign
              headers now s)
  unfolding get_cloud_identity post_cloud_attestation post_cloud_configure delete_cloud_configure
      IsGuarded
  cloud_endpoints-IsGuarded headers now random new body s =
      elim (control_profiles_cases headers now s.db) [
        | inl e ↦ (
          inl (rw e refl, rw e refl),
          inl (rw e refl, rw e refl),
          inl (rw e refl, rw e refl),
          inl (rw e refl, rw e refl),
        )
        | inr (inl (e, other)) ↦ (
          inr (inl (rw e refl, rw e refl, other)),
          inr (inl (rw e refl, rw e refl, other)),
          inr (inl (rw e refl, rw e refl, other)),
          inr (inl (rw e refl, rw e refl, other)),
        )
        | inr (inr caller) ↦
            (inr (inr caller), inr (inr caller), inr (inr caller), inr (inr caller))
      ]
