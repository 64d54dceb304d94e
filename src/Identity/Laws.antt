-- ===== src/Identity/Laws.antt =====
-- What the Cloud configuration that `configure_cloud` writes holds.
use hermes_link_server.Prelude.{
  ℕ, Text, text, text_eq, text_eq_sound, strip, ◌≡◌, refl, sym, ap, ◌∙◌, Bool, true, Option, none,
  some, [], ◌∷◌, arith, all, all-append, String, is_alnum, is_url_safe, after_prefix,
  after_prefix_sound, full_match,
}
use hermes_link_server.Prelude.Words.{strip-no_space, no_space-url_safe}
use hermes_link_server.Json.{document, obj, Fields}
use hermes_link_server.Identity.{
  Result, err, ok, ◌>>=◌, checked, Url, Identity, CloudConfig, Files, is_server_id, server_body,
  write_config, validate_server_id, config_document, load_cloud_config, get_or_create_identity,
  matching, configure_checked, configure_cloud, target_of,
}

checked_ok {ℓ} :
    {A : Type ℓ} (b : Bool) (m : String) (v a : A) → checked b m v ≡ ok a → (b ≡ true) × (v ≡ a)
checked_ok b m v a h = ground arith

is_alnum-url_safe : (s : Text) → all is_alnum s ≡ true → all is_url_safe s ≡ true
unfolding is_url_safe
is_alnum-url_safe [] h = refl
is_alnum-url_safe (c ∷ s) h = ground (arith, is_alnum-url_safe s)

prefix_safe : all is_url_safe (text "server_") ≡ true
unfolding text is_url_safe
prefix_safe = refl

server_id_parts :
    (o : Option Text) → server_body o ≡ true → (r : Text) × (o ≡ some r) × (all is_alnum r ≡ true)
unfolding server_body full_match
server_id_parts none h = cc
server_id_parts (some r) h = (r, refl, ground arith)

strip-server_id : (s : Text) → is_server_id s ≡ true → strip s ≡ s
unfolding is_server_id
strip-server_id s h =
    let (r, e, a) = server_id_parts (after_prefix (text "server_") s) h in
    strip-no_space s (
      no_space-url_safe s (
        rw (after_prefix_sound (text "server_") s r e) (
          all-append is_url_safe (text "server_") r
          ∙ ground (arith, prefix_safe, is_alnum-url_safe r a))))

ok_injective {ℓ} : {A : Type ℓ} {a b : A} → (ok a) ≡ (ok b) → a ≡ b
ok_injective h = cc

-- An accepted Server id is accepted again as it is.
validate_server_id_twice : (s t : Text) → validate_server_id s ≡ ok t → validate_server_id t ≡ ok t
unfolding validate_server_id
validate_server_id_twice s t h =
    let (good, same) = checked_ok _ _ _ _ h in
    let good' = ap is_server_id (sym same) ∙ good in rw (strip-server_id t good', good') refl

module _ (urlparse : Text → Url) (decoded_length : Text → Option ℕ) where
  matching_from :
      (r : Result Text) (u i : Text) (identity : Identity) (c : CloudConfig)
      → ((t : Text) → r ≡ ok t → validate_server_id t ≡ ok t)
      → (r >>= λ server_id.
          checked
            (text_eq server_id identity.server_id)
            "server_id does not match this Hermes Server"
            server_id
          >>= λ _. ok (record { cloud_url = u; installation_id = i; server_id = server_id }))
        ≡ ok c
      → (c.server_id ≡ identity.server_id)
        × (c.cloud_url ≡ u)
        × (c.installation_id ≡ i)
        × (validate_server_id c.server_id ≡ ok c.server_id)
  matching_from (err e) u i identity c f h = cc
  matching_from (ok t) u i identity c f h =
      ground (arith, text_eq_sound t identity.server_id, f t refl)

  matching_ok :
      (u i : Text) (identity : Identity) (payload : Fields) (c : CloudConfig)
      → matching urlparse decoded_length u i identity payload ≡ ok c
      → (c.server_id ≡ identity.server_id)
        × (c.cloud_url ≡ u)
        × (c.installation_id ≡ i)
        × (validate_server_id c.server_id ≡ ok c.server_id)
  unfolding matching
  matching_ok u i identity payload c h =
      matching_from _ u i identity c (validate_server_id_twice _) h

  load_written :
      (c : CloudConfig) (files : Files)
      → validate_server_id c.server_id ≡ ok c.server_id
      → load_cloud_config (record files { config = some (document (obj (config_document c))) })
        ≡ some c
  unfolding load_cloud_config config_document
  load_written c files v = rw v refl

  -- What `configure_checked` leaves, for the result of `get_or_create_identity`.
  pub record IsConfigured (payload : Fields) (new : Identity) (files : Files) (c : CloudConfig)
      (files' : Files) : Type 0 where
    pub identity : Identity
    pub identified : (get_or_create_identity urlparse decoded_length new files).0 ≡ ok identity
    pub target : target_of urlparse decoded_length payload ≡ ok (c.cloud_url, c.installation_id)
    pub own_id : c.server_id ≡ identity.server_id
    pub written : load_cloud_config files' ≡ some c
    pub kept :
        files'.identity ≡ (get_or_create_identity urlparse decoded_length new files).1.identity

  write_config_ok :
      (m : Result CloudConfig) (fs : Files) (c : CloudConfig)
      → (write_config urlparse decoded_length m fs).0 ≡ ok c
      → (m ≡ ok c)
        × ((write_config urlparse decoded_length m fs).1
            ≡ record fs { config = some (document (obj (config_document c))) })
  unfolding write_config
  write_config_ok (err e) fs c h = cc
  write_config_ok (ok d) fs c h = (
    h,
    ap (λ x. record fs { config = some (document (obj (config_document x))) }) (ok_injective h),
  )

  identified_ok :
      (r : Result Identity) (u i : Text) (payload : Fields) (c : CloudConfig)
      → (r >>= λ x. matching urlparse decoded_length u i x payload) ≡ ok c
      → (x : Identity) × (r ≡ ok x) × (matching urlparse decoded_length u i x payload ≡ ok c)
  identified_ok (err e) u i payload c h = cc
  identified_ok (ok x) u i payload c h = (x, refl, h)

  configure_checked_ok :
      (target : Result (Text × Text)) (payload : Fields) (new : Identity) (files : Files)
      (c : CloudConfig)
      → target_of urlparse decoded_length payload ≡ target
      → (configure_checked urlparse decoded_length target new payload files).0 ≡ ok c
      → IsConfigured payload new files c
          (configure_checked urlparse decoded_length target new payload files).1
  unfolding configure_checked
  configure_checked_ok (err f) payload new files c e h = cc
  configure_checked_ok (ok (u, i)) payload new files c e h =
      let before = get_or_create_identity urlparse decoded_length new files in
      let (m, w) = write_config_ok _ before.1 c h in
      let (x, got, matched) = identified_ok before.0 u i payload c m in
      let (own, same_url, same_id, valid) = matching_ok u i x payload c matched in
      record {
        identity = x;
        identified = got;
        target = e ∙ sym (λ k. ok (same_url k, same_id k));
        own_id = own;
        written = ap load_cloud_config w ∙ load_written c before.1 valid;
        kept = ap (λ f. f.identity) w;
      }

  -- Where `configure_cloud` returns a configuration, it names the target of the payload and the id
  -- of the Server's own identity, and `load_cloud_config` reads just this configuration back.
  pub configure_cloud-IsConfigured :
      (payload : Fields) (new : Identity) (files : Files) (c : CloudConfig)
      → (configure_cloud urlparse decoded_length payload new files).0 ≡ ok c
      → IsConfigured payload new files c
          (configure_cloud urlparse decoded_length payload new files).1
  unfolding configure_cloud
  configure_cloud-IsConfigured payload new files c h =
      configure_checked_ok _ payload new files c refl h
