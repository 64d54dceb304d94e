-- ===== src/Release/Manifest/Laws.antt =====
-- What a manifest that is accepted holds.
use hermes_link_server.Prelude.{
  ℕ, Text, text, true, String, Bool-cases, Option, List, [], ◌∷◌, ◌++◌, ◌==◌, ◌≡◌, refl, sym, ap,
  ◌∙◌, arith, inl, inr,
}
use hermes_link_server.Json.{Json, null, str, int, arr, obj, pos, negsuc, Fields, keys, get_or}
use hermes_link_server.Release.Verdict.{accepted, both, both_required, accepted_injective}
use hermes_link_server.Release.Patterns.{
  is_version, is_sha256, is_commit, is_digest_after, validate_version, validate_image,
}
use hermes_link_server.Release.Manifest.{
  Schema, schema_1, schema_2, same_keys, is_text, text_of, expected_keys, version_matches,
  checked_files, checked_archive, schema_of, validate_manifest,
}
use hermes_link_server.Release.Manifest.Parts.{
  is_text_sound, text_of_sound, HasDigests, checked_files-HasDigests, HasSchema,
  checked_archive-HasSchema, digest_after,
}

-- The two schemas: the number of each, and the fields of its manifests.
abbrev number_of : Schema → ℕ
number_of schema_1 = 1
number_of schema_2 = 2

abbrev fields_of : Schema → List String
fields_of schema_1 = "schema_version" ∷ "version" ∷ "source_commit" ∷ "image" ∷ "files" ∷ []
fields_of schema_2 =
    "schema_version" ∷ "version" ∷ "source_commit" ∷ "image" ∷ "files" ∷ "image_archive" ∷ []

expected_keys_lem : (schema : Schema) → expected_keys schema ≡ fields_of schema
unfolding expected_keys
expected_keys_lem schema_1 = refl
expected_keys_lem schema_2 = refl

-- A manifest that is accepted, for an image repository and, where one is asked for, a version.
pub record IsManifest (repository : Text) (wanted : Option Text) (manifest : Fields) : Type 0 where
  pub schema : Schema
  pub numbered : get_or "schema_version" null manifest ≡ int (pos (number_of schema))
  pub keyed : same_keys (keys manifest) (fields_of schema) ≡ true
  pub version : Text
  pub has_version : get_or "version" null manifest ≡ str version
  pub version_form : is_version version ≡ true
  pub version_wanted : version_matches wanted version ≡ true
  pub commit : (c : Text) × (get_or "source_commit" null manifest ≡ str c) × (is_commit c ≡ true)
  pub image :
      (d : Text) × (get_or "image" null manifest ≡ str ((repository ++ text "@sha256:") ++ d))
      × (is_sha256 d ≡ true)
  pub files : (fs : Fields) × (get_or "files" null manifest ≡ obj fs) × HasDigests fs
  pub archive : HasSchema schema manifest version

module _ (repr : Json → Text) where
  schema_of_sound :
      (v : Json) (schema : Schema)
      → schema_of repr v ≡ accepted schema
      → v ≡ int (pos (number_of schema))
  unfolding schema_of
  schema_of_sound (int (pos n)) schema h = elim (Bool-cases (n == 1)) [
    | inl one ↦ rw (sym (accepted_injective (rw one at h))) (ap (λ k. int (pos k)) (ground arith))
    | inr other ↦ elim (Bool-cases (n == 2)) [
      | inl two ↦
          rw (sym (accepted_injective (rw (other, two) at h)))
            (ap (λ k. int (pos k)) (ground arith))
      | inr neither ↦ cc (rw (other, neither) at h)
    ]
  ]
  schema_of_sound (int (negsuc n)) schema h = cc
  schema_of_sound null schema h = cc
  schema_of_sound (Json.bool b) schema h = cc
  schema_of_sound (Json.float f) schema h = cc
  schema_of_sound (str s) schema h = cc
  schema_of_sound (arr vs) schema h = cc
  schema_of_sound (obj fs) schema h = cc

  validate_fields :
      (repository : Text) (wanted : Option Text) (manifest accepted_one : Fields)
      → validate_manifest repr repository wanted (obj manifest) ≡ accepted accepted_one
      → IsManifest repository wanted manifest × (manifest ≡ accepted_one)
  unfolding validate_manifest validate_image validate_version
  validate_fields repository wanted manifest accepted_one h =
      both (schema_of repr (get_or "schema_version" null manifest)) _ h λ schema e h1.
        both_required (same_keys (keys manifest) (expected_keys schema)) _ _ h1 λ keyed h2.
          both (text_of (get_or "version" null manifest) _) _ h2 λ version e1 h3.
            both (validate_version version) _ h3 λ v e2 h4.
              both_required (version_matches wanted version) _ _ h4 λ matches h5.
                both_required (is_text is_commit (get_or "source_commit" null manifest)) _ _ h5
                  λ commit h6. both (text_of (get_or "image" null manifest) _) _ h6 λ image e3 h7.
                    both (validate_image image repository) _ h7 λ i e4 h8.
                      both (checked_files (get_or "files" null manifest)) _ h8 λ u e5 h9.
                        both (checked_archive schema (get_or "image_archive" null manifest) version)
                          _ h9
                          λ w e6 h10. both_required (is_version version) _ _ e2 λ form h11.
                            both_required (is_digest_after (repository ++ text "@sha256:") image) _
                              _ e4
                              λ digest h12.
                                let (d, same, digest_form) = digest_after _ image digest in
                                (
                                  record {
                                    schema = schema;
                                    numbered = schema_of_sound _ schema e;
                                    keyed =
                                        ap (same_keys (keys manifest))
                                          (sym (expected_keys_lem schema))
                                        ∙ keyed;
                                    version = version;
                                    has_version = text_of_sound _ _ version e1;
                                    version_form = form;
                                    version_wanted = matches;
                                    commit = is_text_sound is_commit _ commit;
                                    image =
                                        (d, text_of_sound _ _ image e3 ∙ ap str same, digest_form);
                                    files = checked_files-HasDigests _ e5;
                                    archive =
                                        checked_archive-HasSchema schema manifest version keyed e6;
                                  },
                                  accepted_injective h10,
                                )

  -- A manifest that `validate_manifest` accepts is an object whose `schema_version` is 1 or 2, with
  -- exactly the fields of that schema, and is returned as it is. Its version is pinned and is the one that is asked for, its commit
  -- has 40 hexadecimal digits, its image is that of the repository with a SHA-256 digest, and it
  -- has a SHA-256 digest for each release asset. With schema 2 it names the archive of the version
  -- for the platform `linux/amd64`, with a SHA-256 digest.
  pub validate_manifest-IsManifest :
      (repository : Text) (wanted : Option Text) (value : Json) (manifest : Fields)
      → validate_manifest repr repository wanted value ≡ accepted manifest
      → (value ≡ obj manifest) × IsManifest repository wanted manifest
  unfolding validate_manifest
  validate_manifest-IsManifest repository wanted (obj fs) manifest h =
      let (holds, same) = validate_fields repository wanted fs manifest h in
      (ap obj same, rw (sym same) holds)
  validate_manifest-IsManifest repository wanted null manifest h = cc
  validate_manifest-IsManifest repository wanted (Json.bool b) manifest h = cc
  validate_manifest-IsManifest repository wanted (int n) manifest h = cc
  validate_manifest-IsManifest repository wanted (Json.float f) manifest h = cc
  validate_manifest-IsManifest repository wanted (str s) manifest h = cc
  validate_manifest-IsManifest repository wanted (arr vs) manifest h = cc

  -- An object is returned as it is.
  pub validate_manifest_same :
      (repository : Text) (wanted : Option Text) (fs manifest : Fields)
      → validate_manifest repr repository wanted (obj fs) ≡ accepted manifest
      → fs ≡ manifest
  validate_manifest_same repository wanted fs manifest h =
      (validate_fields repository wanted fs manifest h).1
