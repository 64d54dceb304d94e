-- ===== src/Release/Manifest.antt =====
-- scripts/release_manifest.py: `validate_manifest` and the validation of its parts. The `repr` in
-- a message is a parameter.
pub mod Parts
pub mod Laws
use hermes_link_server.Prelude.{
  ℕ, Text, text, text_eq, all, ◌==◌, String, Bool, true, false, ◌&&◌, Option, none, some, List, [],
  ◌∷◌, ◌++◌, if◌then◌else◌,
}
use hermes_link_server.Json.{
  Json, null, str, int, obj, ℤ, pos, Fields, end, field, get, get_or, keys,
}
use hermes_link_server.Release.Verdict.{
  Raised, Verdict, raised, accepted, manifest_error, ◌>>=◌, require,
}
use hermes_link_server.Release.Patterns.{
  release_asset_paths, image_archive_platform, has_key, is_sha256, is_commit, validate_version,
  validate_image, validate_relative_path, image_archive_name,
}

-- `set(keys) == set(expected)`
unfoldable pub same_keys : List String → List String → Bool
unfolding has_key
same_keys present expected =
    all (λ k. has_key k expected) present && all (λ k. has_key k present) expected

-- `isinstance(value, str)` and a test of the text
unfoldable pub is_text : (Text → Bool) → Json → Bool
is_text test (str s) = test s
is_text test _ = false

-- A value that must be a text.
unfoldable pub text_of : Json → Text → Verdict Text
text_of (str s) message = accepted s
text_of _ message = raised (manifest_error message)

abbrev archive_error : Text → Text
archive_error problem = text "Release manifest image_archive " ++ problem

abbrev pub archive_keys : List String
archive_keys = "name" ∷ "sha256" ∷ "platform" ∷ []

-- `_validate_image_archive`
unfoldable pub validate_image_archive : Json → Text → Verdict Fields
unfolding text text_eq same_keys is_text image_archive_name is_sha256 image_archive_platform get_or
validate_image_archive (obj value) version =
    require (same_keys (keys value) archive_keys)
      (archive_error (text "has unexpected or missing fields"))
    >>= λ _. image_archive_name version >>= λ expected.
        require (is_text (text_eq expected) (get_or "name" null value))
          (archive_error (text "name is invalid"))
        >>= λ _.
            require (is_text is_sha256 (get_or "sha256" null value))
              (archive_error (text "has an invalid SHA-256 digest"))
            >>= λ _.
                require (is_text (text_eq image_archive_platform) (get_or "platform" null value))
                  (archive_error (text "platform is unsupported"))
                >>= λ _. accepted value
validate_image_archive _ version =
    raised (manifest_error (archive_error (text "has unexpected or missing fields")))

-- the loop over `files.items()`
unfoldable pub validate_files : Fields → Verdict {0} Unit
unfolding text is_text validate_relative_path is_sha256
validate_files end = accepted tt
validate_files (field relative_path digest files) = validate_relative_path relative_path >>= λ _.
    require (is_text is_sha256 digest)
      (text "Release manifest has an invalid SHA-256 digest for " ++ text relative_path)
    >>= λ _. validate_files files

-- the members of `SUPPORTED_SCHEMA_VERSIONS`
pub data Schema : Type 0 where
  schema_1 schema_2 : Schema

unfoldable pub expected_keys : Schema → List String
expected_keys schema_1 = "schema_version" ∷ "version" ∷ "source_commit" ∷ "image" ∷ "files" ∷ []
expected_keys schema_2 =
    "schema_version" ∷ "version" ∷ "source_commit" ∷ "image" ∷ "files" ∷ "image_archive" ∷ []

unfoldable pub version_matches : Option Text → Text → Bool
unfolding text_eq
version_matches none found = true
version_matches (some version) found = text_eq found version

abbrev text_or_nothing : Option Text → Text
text_or_nothing none = []
text_or_nothing (some s) = s

files_error : Text
unfolding text
files_error = text "Release manifest files must contain exactly the supported release assets"

-- the files of a manifest
unfoldable pub checked_files : Json → Verdict {0} Unit
unfolding same_keys release_asset_paths validate_files files_error
checked_files (obj files) =
    require (same_keys (keys files) release_asset_paths) files_error >>= λ _. validate_files files
checked_files _ = raised (manifest_error files_error)

-- the archive, which a manifest of schema 1 does not have
unfoldable pub checked_archive : Schema → Json → Text → Verdict {0} Unit
unfolding validate_image_archive
checked_archive schema_1 value version = accepted tt
checked_archive schema_2 value version = validate_image_archive value version >>= λ _. accepted tt

module _ (repr : Json → Text) where
  schema_error : Json → Raised
  unfolding text
  schema_error value = manifest_error (text "Unsupported release manifest schema: " ++ repr value)

  unfoldable pub schema_of : Json → Verdict Schema
  unfolding schema_error
  schema_of (int (pos n)) =
      if n == 1
      then accepted schema_1
      else if n == 2
      then accepted schema_2
      else raised (schema_error (int (pos n)))
  schema_of value = raised (schema_error value)

  -- `validate_manifest`
  unfoldable pub validate_manifest : Text → Option Text → Json → Verdict Fields
  unfolding text text_of schema_of expected_keys version_matches is_text is_commit validate_version
      validate_image checked_files checked_archive get_or
  validate_manifest image_repository version (obj manifest) =
      schema_of (get_or "schema_version" null manifest) >>= λ schema.
      require (same_keys (keys manifest) (expected_keys schema))
        (text "Release manifest has unexpected or missing fields")
      >>= λ _.
          text_of (get_or "version" null manifest)
            (text "Release manifest version must be a string")
          >>= λ found. validate_version found >>= λ _.
              require (version_matches version found) (
                text "Release manifest version "
                ++ found
                ++ text " does not match requested "
                ++ text_or_nothing version)
              >>= λ _.
                  require (is_text is_commit (get_or "source_commit" null manifest))
                    (text "Release manifest source_commit must be a lowercase 40-character Git SHA")
                  >>= λ _.
                      text_of (get_or "image" null manifest)
                        (text "Release manifest image must be a string")
                      >>= λ image. validate_image image image_repository >>= λ _.
                          checked_files (get_or "files" null manifest) >>= λ _.
                          checked_archive schema (get_or "image_archive" null manifest) found
                          >>= λ _. accepted manifest
  validate_manifest image_repository version _ =
      raised (manifest_error (text "Release manifest must be a JSON object"))
