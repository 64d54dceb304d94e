-- ===== src/Release/Create/Laws.antt =====
-- What a manifest that `create_manifest` returns is good for.
use package.text.Mathlib.Text.{◌==◌ as str_eq}
use package.text.Mathlib.TextEquality.{eq_iff}
use hermes_link_server.Prelude.{
  Text, text, text_eq, text_eq_sound, text_eq_refl, String, true, Option, some, List, [], ◌∷◌, ◌≡◌,
  ◌↔◌, refl, sym, ap, ◌∙◌, Bool-cases, inl, inr,
}
use hermes_link_server.Json.{Json, null, str, obj, Fields, JsonText, document, get, get_or}
use hermes_link_server.Attachments.{Bytes}
use hermes_link_server.Release.Verdict.{
  Verdict, accepted, ◌>>=◌, require, both, both_required, accepted_injective,
}
use hermes_link_server.Release.Patterns.{
  release_asset_paths, image_archive_platform, has_key, is_commit, validate_version, validate_image,
  validate_relative_path, image_archive_name,
}
use hermes_link_server.Release.Manifest.{is_text, validate_manifest}
use hermes_link_server.Release.Manifest.Laws.{validate_manifest_same}
use hermes_link_server.Release.Archive.{Member, verify_oci_archive}
use hermes_link_server.Release.Create.{
  Use, verify_file, verify_image_archive, Effect, nothing, manifest_of, string_in, object_in,
  sha256_of, asset_digest, hash_assets, create_manifest, load_manifest, archive_of, use_manifest,
}

module _ (sha256 : Bytes → Text) (loads : Bytes → JsonText) (repr : Json → Text)
    (files : Text → Option Bytes) (asset_from_root : String → Option Text)
    (open_archive : Text → Option (List Member)) (name_of : Text → Text)
    (image_repository : Text) where
  abbrev digest_of_file : Text → Verdict Text
  digest_of_file =
      sha256_of sha256 loads repr files asset_from_root open_archive name_of image_repository

  abbrev digest_of_asset : String → Verdict Text
  digest_of_asset =
      asset_digest sha256 loads repr files asset_from_root open_archive name_of image_repository

  abbrev hash : List String → Verdict Fields
  hash = hash_assets sha256 loads repr files asset_from_root open_archive name_of image_repository

  abbrev use_it : Fields → Use → Verdict Effect
  use_it =
      use_manifest sha256 loads repr files asset_from_root open_archive name_of image_repository

  -- The dictionary holds the digest of every path that was hashed.
  hash_assets-get :
      (paths : List String) (digests : Fields) (path : String)
      → hash paths ≡ accepted digests
      → has_key path paths ≡ true
      → (d : Text) × (digest_of_asset path ≡ accepted d) × (get path digests ≡ some (str d))
  unfolding hash_assets has_key get
  hash_assets-get [] digests path h k = cc
  hash_assets-get (p ∷ ps) digests path h k = both (digest_of_asset p) _ h λ d e h1.
      both (hash ps) _ h1 λ rest e1 h2.
        let same = accepted_injective h2 in
        rw (sym same) (elim (Bool-cases (str_eq p path)) [
          | inl same_path ↦
              (d, ap digest_of_asset (sym ((eq_iff p path).0 same_path)) ∙ e, rw same_path refl)
          | inr differs ↦ rw differs (hash_assets-get ps rest path e1 (rw differs at k))
        ])

  -- What the manifest of `create_manifest` does.
  pub record IsReproducible (version reference archive : Text) (manifest : Fields) : Type 0 where
    pub loaded :
        load_manifest sha256 loads repr files asset_from_root open_archive name_of image_repository
          (some version)
          (document (obj manifest))
        ≡ accepted manifest
    pub assets :
        (path : String) (file : Text)
        → has_key path release_asset_paths ≡ true
        → (use_it manifest (verify_file path file) ≡ accepted nothing)
          ↔ ((d : Text) × (digest_of_asset path ≡ accepted d) × (digest_of_file file ≡ accepted d))
    pub same_archive : use_it manifest (verify_image_archive archive) ≡ accepted nothing

  module _ (version source_commit reference archive archive_digest : Text) (digests : Fields)
      (hashed : hash release_asset_paths ≡ accepted digests) where
    abbrev made : Fields
    made = manifest_of version source_commit reference (name_of archive) archive_digest digests

    digest_in :
        (path : String)
        → has_key path release_asset_paths ≡ true
        → (d : Text) × (digest_of_asset path ≡ accepted d) × (get_or path null digests ≡ str d)
    unfolding get_or
    digest_in path k =
        let (d, e, got) = hash_assets-get release_asset_paths digests path hashed k in
        (d, e, rw got refl)

    files_in : object_in (get_or "files" null made) ≡ accepted digests
    unfolding object_in get_or get manifest_of
    files_in = refl

    known_path :
        (path : String)
        → has_key path release_asset_paths ≡ true
        → validate_relative_path path ≡ accepted path
    unfolding validate_relative_path
    known_path path k = rw k refl

    -- The comparison with the digest of a path.
    compare_digest :
        (path : String) (actual d : Text) (message : Text)
        → get_or path null digests ≡ str d
        → (require (is_text (text_eq actual) (get_or path null digests)) message >>= λ _.
            accepted nothing)
          ≡ (require (text_eq actual d) message >>= λ _. accepted nothing)
    unfolding is_text
    compare_digest path actual d message got = rw got refl

    verify_file-made :
        (path : String) (file : Text)
        → has_key path release_asset_paths ≡ true
        → (use_it made (verify_file path file) ≡ accepted nothing)
          ↔ ((d : Text) × (digest_of_asset path ≡ accepted d) × (digest_of_file file ≡ accepted d))
    unfolding use_manifest
    verify_file-made path file k =
        let (d, e, got) = digest_in path k in
        (
          λ h. both (validate_relative_path path) _ h λ q e1 h1.
              both (digest_of_file file) _ h1 λ actual e2 h2.
                both_required (text_eq actual d) _ _
                  (sym (compare_digest path actual d _ got) ∙ rw files_in at h2)
                  λ same h3. (d, e, e2 ∙ ap accepted (text_eq_sound actual d same)),
          λ (d', e', f).
              let same = accepted_injective (sym e' ∙ e) in
              rw (known_path path k, f, files_in)
                (compare_digest path d' d _ got ∙ rw (same, text_eq_refl d) refl),
        )

    archive_in :
        verify_oci_archive sha256 loads (open_archive archive) reference image_archive_platform
          ≡ accepted tt
        → digest_of_file archive ≡ accepted archive_digest
        → use_it made (verify_image_archive archive) ≡ accepted nothing
    unfolding use_manifest manifest_of archive_of object_in string_in is_text get get_or
    archive_in verified e = rw (e, text_eq_refl archive_digest, verified) refl

  load_again :
      (version : Text) (given manifest : Fields)
      → validate_manifest repr image_repository (some version) (obj given) ≡ accepted manifest
      → load_manifest sha256 loads repr files asset_from_root open_archive name_of image_repository
          (some version)
          (document (obj manifest))
        ≡ accepted manifest
  unfolding load_manifest
  load_again version given manifest h =
      let same = validate_manifest_same repr image_repository (some version) given manifest h in
      ap (λ fs. validate_manifest repr image_repository (some version) (obj fs)) (sym same) ∙ h

  -- What `create_manifest` returns is a manifest that is loaded again for its version and image
  -- repository; with it, `verify-file` accepts a file for the path of an asset exactly if it has
  -- the digest of that asset, and `verify-image-archive` accepts the archive it was made from.
  pub create_manifest-IsReproducible :
      (version source_commit reference archive : Text) (manifest : Fields)
      → create_manifest sha256 loads repr files asset_from_root open_archive name_of
          image_repository version source_commit reference archive
        ≡ accepted manifest
      → IsReproducible version reference archive manifest
  unfolding create_manifest
  create_manifest-IsReproducible version source_commit reference archive manifest h =
      both (validate_version version) _ h λ v e h1.
        both_required (is_commit source_commit) _ _ h1 λ commit h2.
          both (validate_image reference image_repository) _ h2 λ r e1 h3.
            both (image_archive_name version) _ h3 λ expected e2 h4.
              both_required (text_eq (name_of archive) expected) _ _ h4 λ named h5.
                both
                  (verify_oci_archive sha256 loads (open_archive archive) reference
                    image_archive_platform)
                  _ h5
                  λ u e3 h6. both (hash release_asset_paths) _ h6 λ digests e4 h7.
                    both (digest_of_file archive) _ h7 λ archive_digest e5 h8.
                      let same =
                        validate_manifest_same repr image_repository (some version) _ manifest h8 in
                      record {
                        loaded =
                            load_again version
                              (manifest_of version source_commit reference (name_of archive)
                                archive_digest digests)
                              manifest h8;
                        assets = rw (sym same) (
                            verify_file-made version source_commit reference archive archive_digest
                              digests e4);
                        same_archive = rw (sym same) (
                            archive_in version source_commit reference archive archive_digest
                              digests e4 e3 e5);
                      }
