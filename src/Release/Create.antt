-- ===== src/Release/Create.antt =====
-- scripts/release_manifest.py: `create_manifest`, `load_manifest` and the commands of `main`. The
-- files are a function of their path, none where a path is no regular file or a link; the
-- resolution of a path below the root, the name of a path and the opened archives are parameters.
pub mod Laws
use hermes_link_server.Prelude.{
  ℕ, Text, text, text_eq, String, Bool, true, false, Option, none, some, List, [], ◌∷◌, ◌++◌,
  if◌then◌else◌,
}
use hermes_link_server.Json.{
  Json, null, str, int, obj, ℤ, pos, Fields, end, field, JsonText, document, malformed, get, get_or,
}
use hermes_link_server.Attachments.{Bytes}
use hermes_link_server.Release.Verdict.{
  Raised, Verdict, raised, accepted, manifest_error, type_error, ◌>>=◌, require,
}
use hermes_link_server.Release.Patterns.{
  release_asset_paths, release_download_asset_names, image_archive_platform, is_commit,
  validate_version, validate_image, validate_relative_path, image_archive_name,
}
use hermes_link_server.Release.Manifest.{is_text, validate_manifest}
use hermes_link_server.Release.Archive.{Member, demand, verify_oci_archive}

unfoldable pub manifest_of : Text → Text → Text → Text → Text → Fields → Fields
unfolding image_archive_platform
manifest_of version source_commit image archive_name archive_digest files =
    field "schema_version" (int (pos 2)) (
      field "version" (str version) (
        field "source_commit" (str source_commit) (
          field "image" (str image) (
            field "image_archive"
              (obj (
                field "name" (str archive_name) (
                  field "sha256" (str archive_digest)
                    (field "platform" (str image_archive_platform) end))))
              (field "files" (obj files) end)))))

-- a value of the manifest that is a text, and one that is an object
unfoldable pub string_in : Json → Verdict Text
string_in (str s) = accepted s
string_in _ = raised type_error

unfoldable pub object_in : Json → Verdict Fields
object_in (obj fields) = accepted fields
object_in _ = raised type_error

-- `release_asset_name`
unfoldable pub release_asset_name : String → Verdict Text
unfolding validate_relative_path release_download_asset_names string_in get_or
release_asset_name relative_path = validate_relative_path relative_path >>= λ _.
    string_in (get_or relative_path null release_download_asset_names)

-- The commands that load a manifest, and those that do not.
pub data Use : Type 0 where
  verify image image_archive : Use
  verify_file : String → Text → Use
  verify_image_archive : Text → Use

pub data Command : Type 0 where
  create : (version source_commit image archive : Text) → Command
  asset_name : String → Command
  verify_oci : (archive image platform : Text) → Command
  on_manifest : (manifest : Text) → Option Text → Use → Command

-- What a command leaves: nothing, a line that it prints, or the manifest that it writes.
pub data Effect : Type 0 where
  nothing : Effect
  printed : Text → Effect
  written : Fields → Effect

-- How `main` ends: with 0, with 1 and a message, or by an exception that it does not catch.
pub data Exit : Type 0 where
  exit_0 : Effect → Exit
  exit_1 : Text → Exit
  uncaught : Exit

unfoldable pub exit_of : Verdict Effect → Exit
exit_of (accepted effect) = exit_0 effect
exit_of (raised (manifest_error message)) = exit_1 message
exit_of (raised _) = uncaught

module _ (sha256 : Bytes → Text) (loads : Bytes → JsonText) (repr : Json → Text)
    (files : Text → Option Bytes) (asset_from_root : String → Option Text)
    (open_archive : Text → Option (List Member)) (name_of : Text → Text)
    (image_repository : Text) where
  -- `_sha256`
  unfoldable pub sha256_of : Text → Verdict Text
  unfolding text demand
  sha256_of path =
      demand (files path) (text "Release asset must be a regular file: " ++ path) >>= λ content.
      accepted (sha256 content)

  -- `_sha256(_asset_from_root(root, relative_path))`
  unfoldable pub asset_digest : String → Verdict Text
  unfolding text demand sha256_of
  asset_digest relative_path =
      demand (asset_from_root relative_path)
        (text "Release asset escapes the source root: " ++ text relative_path)
      >>= λ path. sha256_of path

  -- the dictionary of the digests
  unfoldable pub hash_assets : List String → Verdict Fields
  unfolding asset_digest
  hash_assets [] = accepted end
  hash_assets (relative_path ∷ paths) = asset_digest relative_path >>= λ digest.
      hash_assets paths >>= λ rest. accepted (field relative_path (str digest) rest)

  -- `create_manifest`
  unfoldable pub create_manifest : Text → Text → Text → Text → Verdict Fields
  unfolding text text_eq release_asset_paths image_archive_platform is_commit validate_version
      validate_image image_archive_name validate_manifest verify_oci_archive hash_assets sha256_of
      manifest_of
  create_manifest version source_commit reference archive = validate_version version >>= λ _.
      require (is_commit source_commit)
        (text "Source commit must be a lowercase 40-character Git SHA")
      >>= λ _. validate_image reference image_repository >>= λ _.
          image_archive_name version >>= λ expected.
          require (text_eq (name_of archive) expected)
            (text "OCI image archive name does not match the release version")
          >>= λ _.
              verify_oci_archive sha256 loads (open_archive archive) reference
                image_archive_platform
              >>= λ _. hash_assets release_asset_paths >>= λ digests.
                  sha256_of archive >>= λ archive_digest.
                  validate_manifest repr image_repository (some version) (
                    obj (
                      manifest_of version source_commit reference (name_of archive) archive_digest
                        digests))

  -- `load_manifest`, of what reading the file as JSON gives
  unfoldable pub load_manifest : Option Text → JsonText → Verdict Fields
  unfolding text validate_manifest
  load_manifest version malformed = raised (manifest_error (text "Cannot read release manifest"))
  load_manifest version (document parsed) = validate_manifest repr image_repository version parsed

  unfoldable pub archive_of : Option Json → Verdict Fields
  unfolding text object_in
  archive_of none =
      raised (manifest_error (text "Release manifest does not contain an OCI image archive"))
  archive_of (some Json.null) =
      raised (manifest_error (text "Release manifest does not contain an OCI image archive"))
  archive_of (some value) = object_in value

  -- the commands on a loaded manifest
  unfoldable pub use_manifest : Fields → Use → Verdict Effect
  unfolding text text_eq is_text string_in object_in validate_relative_path sha256_of archive_of
      verify_oci_archive get get_or
  use_manifest manifest verify = accepted nothing
  use_manifest manifest image =
      string_in (get_or "image" null manifest) >>= λ reference. accepted (printed reference)
  use_manifest manifest image_archive = archive_of (get "image_archive" manifest) >>= λ archive.
      string_in (get_or "name" null archive) >>= λ name. accepted (printed name)
  use_manifest manifest (verify_file path file) = validate_relative_path path >>= λ _.
      sha256_of file >>= λ actual. object_in (get_or "files" null manifest) >>= λ digests.
      require (is_text (text_eq actual) (get_or path null digests))
        (text "SHA-256 mismatch for " ++ text path)
      >>= λ _. accepted nothing
  use_manifest manifest (verify_image_archive file) =
      archive_of (get "image_archive" manifest) >>= λ archive. sha256_of file >>= λ actual.
      require (is_text (text_eq actual) (get_or "sha256" null archive))
        (text "OCI image archive SHA-256 mismatch")
      >>= λ _. string_in (get_or "image" null manifest) >>= λ reference.
          string_in (get_or "platform" null archive) >>= λ platform.
          verify_oci_archive sha256 loads (open_archive file) reference platform >>= λ _.
          accepted nothing

  -- the body of the try statement in `main`
  unfoldable pub run_command : (Text → JsonText) → Command → Verdict Effect
  unfolding create_manifest release_asset_name validate_image verify_oci_archive load_manifest
      use_manifest
  run_command read_manifest (create version source_commit reference archive) =
      create_manifest version source_commit reference archive >>= λ manifest.
      accepted (written manifest)
  run_command read_manifest (asset_name path) =
      release_asset_name path >>= λ name. accepted (printed name)
  run_command read_manifest (verify_oci archive reference platform) =
      validate_image reference image_repository >>= λ _.
      verify_oci_archive sha256 loads (open_archive archive) reference platform >>= λ _.
      accepted nothing
  run_command read_manifest (on_manifest path version use_of) =
      load_manifest version (read_manifest path) >>= λ manifest. use_manifest manifest use_of

  -- `main`, with its arguments parsed
  unfoldable pub main : (Text → JsonText) → Command → Exit
  unfolding run_command exit_of
  main read_manifest command = exit_of (run_command read_manifest command)
