-- ===== src/Adapter/Headers/Laws.antt =====
-- A device token is never sent to the Agent.
use package.text.Mathlib.Text.{◌==◌ as str_eq}
use package.text.Mathlib.TextEquality.{eq_iff}
use hermes_link_server.Prelude.{
  ℕ, Text, text, is_empty, String, ◌≡◌, refl, ◌≤◌, Bool, true, false, Option, none, some, [], ◌∷◌,
  ◌++◌, arith, length, if◌then◌else◌, Bool-cases, inl, inr,
}
use hermes_link_server.Pairing.Store.{Db, authenticate_device_token}
use hermes_link_server.Adapter.Paths.{profile_id_for_protocol_path}
use hermes_link_server.Adapter.Headers.{
  RequestHeaders, DeviceAuthorizationError, ok, err, Headers, forward_agent_headers, bearer_token,
  set_header, is_device, authorized, prepare_agent_headers, token_invalid,
}

-- The value of a header.
pub header : String → Headers → Option Text
header name [] = none
header name ((k, v) ∷ rest) = if str_eq k name then some v else header name rest

err-ne-ok : (f : DeviceAuthorizationError) (hs : Headers) → ¬ (err f ≡ ok hs)
err-ne-ok f hs e = cc

pub header-set_header :
    (k j : String) (v : Text) (hs : Headers)
    → header j (set_header k v hs) ≡ (if str_eq k j then some v else header j hs)
unfolding header set_header
header-set_header k j v [] = refl
header-set_header k j v ((i, w) ∷ hs) =
    ground (arith, eq_iff k j, eq_iff i k, eq_iff i j, header-set_header k j v hs)

module _ (sha256 unquote : Text → Text) where
  -- What a request with a device token needs, and what is sent for it.
  pub record IsAuthorized (h : RequestHeaders) (path upstream : Text) (now : ℕ) (db : Db)
      (hs : Headers) : Type 0 where
    pub scoped : is_empty (profile_id_for_protocol_path unquote path) ≡ false
    pub authenticated :
        (authenticate_device_token sha256
          (bearer_token h)
          (profile_id_for_protocol_path unquote path)
          now
          db).0
        ≡ true
    pub configured : 8 ≤ length upstream
    pub authorization : header "Authorization" hs ≡ some (text "Bearer " ++ upstream)
    pub others :
        (name : String)
        → str_eq "Authorization" name ≡ false
        → header name hs ≡ header name (forward_agent_headers h)

  authorized-ok :
      (valid : Bool) (upstream : Text) (forwarded hs : Headers)
      → authorized sha256 unquote valid upstream forwarded ≡ ok hs
      → (valid ≡ true)
        × (8 ≤ length upstream)
        × (hs ≡ set_header "Authorization" (text "Bearer " ++ upstream) forwarded)
  unfolding authorized
  authorized-ok false upstream forwarded hs e = cc
  authorized-ok true upstream forwarded hs e = ground arith

  authorized-IsAuthorized :
      (h : RequestHeaders) (path upstream : Text) (now : ℕ) (db : Db) (hs : Headers)
      → is_empty (profile_id_for_protocol_path unquote path) ≡ false
      → authorized sha256 unquote
          (authenticate_device_token sha256
            (bearer_token h)
            (profile_id_for_protocol_path unquote path)
            now
            db).0
          upstream
          (forward_agent_headers h)
        ≡ ok hs
      → IsAuthorized h path upstream now db hs
  authorized-IsAuthorized h path upstream now db hs scoped e =
      let forwarded = forward_agent_headers h in
      let (valid, configured, same) = authorized-ok _ upstream forwarded hs e in
      record {
        scoped = scoped;
        authenticated = valid;
        configured = configured;
        authorization = rw same (
            header-set_header "Authorization" "Authorization" (text "Bearer " ++ upstream)
              forwarded);
        others = λ name other. rw (
          same,
          header-set_header "Authorization" name (text "Bearer " ++ upstream) forwarded,
          other,
        );
      }

  -- A request without a device token keeps the headers that are forwarded and touches no row. With a
  -- device token, headers are returned only if the path names a valid profile for which the token is
  -- authenticated and the Server has an Agent token of at least 8 characters; then Authorization
  -- carries the Agent token in place of the device token, and the other headers are unchanged.
  pub prepare_agent_headers_safe :
      (h : RequestHeaders) (path upstream : Text) (now : ℕ) (db : Db) (hs : Headers)
      → (prepare_agent_headers sha256 unquote h path upstream now db).0 ≡ ok hs
      → ((is_device (bearer_token h) ≡ false)
          → prepare_agent_headers sha256 unquote h path upstream now db
            ≡ (ok (forward_agent_headers h), db))
        × ((is_device (bearer_token h) ≡ true) → IsAuthorized h path upstream now db hs)
  unfolding prepare_agent_headers
  prepare_agent_headers_safe h path upstream now db hs e =
      (λ agent. rw agent, λ device. device_case device)
    where
      device_case : is_device (bearer_token h) ≡ true → IsAuthorized h path upstream now db hs
      device_case device =
          elim (Bool-cases (is_empty (profile_id_for_protocol_path unquote path))) [
            | inl missing ↦ absurd (err-ne-ok token_invalid hs (rw (device, missing) at e))
            | inr scoped ↦
                authorized-IsAuthorized h path upstream now db hs scoped (rw (device, scoped) at e)
          ]
