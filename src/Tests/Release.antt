-- ===== src/Tests/Release.antt =====
-- Concrete runs of the release manifest: an archive with one layer, and the manifest made from it.
-- The digest of a content is the content filled up to 64 characters.
use hermes_link_server.Prelude.{
  Text, text, text_eq, take, ◌≡◌, refl, String, Option, some, List, [], ◌∷◌, ◌++◌, if◌then◌else◌,
  after_prefix,
}
use hermes_link_server.Json.{
  Json, str, int, arr, obj, pos, nil, cons, Fields, end, field, JsonText, document, malformed,
}
use hermes_link_server.Attachments.{Bytes}
use hermes_link_server.Release.Verdict.{accepted}
use hermes_link_server.Release.Patterns.{image_digest, is_version, image_archive_platform}
use hermes_link_server.Release.Manifest.{validate_manifest}
use hermes_link_server.Release.Manifest.Laws.{IsManifest, validate_manifest-IsManifest}
use hermes_link_server.Release.Archive.{
  Member, regular, directory, archive_members, verify_members, verify_oci_archive,
}
use hermes_link_server.Release.Archive.Verified.{IsVerified, verify_oci_archive-IsVerified}
use hermes_link_server.Release.Create.{manifest_of, create_manifest}
use hermes_link_server.Release.Create.Laws.{IsReproducible, create_manifest-IsReproducible}

abbrev filling : Text
filling = text "aaaaaaaaaaaaaaaaaaaaaaaaaaaaaaaaaaaaaaaaaaaaaaaaaaaaaaaaaaaaaaaa"

abbrev sha256 : Bytes → Text
sha256 content = take 64 (content ++ filling)

abbrev of_size_1 : Text → Fields → Json
of_size_1 name more =
    obj (field "digest" (str (text "sha256:" ++ sha256 name)) (field "size" (int (pos 1)) more))

abbrev root_file : Json
root_file = obj (
    field "schemaVersion" (int (pos 2)) (
      field "config" (of_size_1 (text "1") end)
        (field "layers" (arr (cons (of_size_1 (text "2") end) nil)) end)))

abbrev config_file : Json
config_file = obj (field "os" (str (text "linux")) (field "architecture" (str (text "amd64")) end))

abbrev index_file : Json
index_file = obj (
    field "schemaVersion" (int (pos 2)) (
      field "manifests"
        (arr (
          cons
            (of_size_1 (text "0")
              (field "mediaType" (str (text "application/vnd.oci.image.manifest.v1+json")) end))
            nil))
        end))

loads : Bytes → JsonText
unfolding text text_eq
loads content =
    if text_eq content (text "0")
    then document root_file
    else if text_eq content (text "1")
    then document config_file
    else if text_eq content (text "3")
    then document index_file
    else malformed

abbrev blob : Text → Member
blob content = record {
  name = text "blobs/sha256/" ++ sha256 content;
  kind = regular;
  content = content;
}

abbrev entries : List Member
entries =
    record { name = text "blobs"; kind = directory; content = [] }
    ∷ record { name = text "index.json"; kind = regular; content = text "3" }
    ∷ blob (text "0")
    ∷ blob (text "1")
    ∷ blob (text "2")
    ∷ []

abbrev repository : Text
repository = text "ghcr.io/example/server"

abbrev reference : Text
reference = repository ++ (text "@sha256:" ++ sha256 (text "0"))

archive_run :
    verify_oci_archive sha256 loads (some entries) reference (text "linux/amd64") ≡ accepted tt
unfolding verify_oci_archive image_digest image_archive_platform archive_members verify_members
    loads text text_eq
archive_run = refl

verify_oci_archive-IsVerified_example :
    (text "linux/amd64" ≡ text "linux/amd64")
    × ((members : List Member) × (some entries ≡ some members)
        × IsVerified sha256 loads members reference)
verify_oci_archive-IsVerified_example =
    verify_oci_archive-IsVerified sha256 loads (some entries) reference (text "linux/amd64")
      archive_run

abbrev archive_path : Text
archive_path = text "hermes-link-server-1.2.3-linux-amd64.oci.tar"

abbrev files : Text → Option Bytes
files path = some (text "ab")

abbrev in_root : String → Option Text
in_root path = some (text path)

abbrev open_archive : Text → Option (List Member)
open_archive path = some entries

abbrev as_is : Text → Text
as_is path = path

abbrev no_repr : Json → Text
no_repr v = []

abbrev commit : Text
commit = text "0123456789abcdef0123456789abcdef01234567"

abbrev digests : Fields
digests = field "install.sh" (str (sha256 (text "ab"))) (
    field "deploy/standard/compose.yaml" (str (sha256 (text "ab"))) (
      field "deploy/standard/.env.example" (str (sha256 (text "ab"))) (
        field "deploy/standard/bin/hermes-link" (str (sha256 (text "ab"))) (
          field "scripts/deployment_helpers.py" (str (sha256 (text "ab"))) (
            field "scripts/bootstrap-hermes-agent-access.sh" (str (sha256 (text "ab"))) (
              field "scripts/manage-internal-credential.py" (str (sha256 (text "ab")))
                (field "scripts/release_manifest.py" (str (sha256 (text "ab"))) end)))))))

abbrev manifest : Fields
manifest = manifest_of (text "1.2.3") commit reference archive_path (sha256 (text "ab")) digests

create_run :
    create_manifest sha256 loads no_repr files in_root open_archive as_is repository
      (text "1.2.3")
      commit
      reference
      archive_path
    ≡ accepted manifest
unfolding create_manifest verify_oci_archive image_digest image_archive_platform archive_members
    verify_members loads text text_eq is_version
create_run = refl

create_manifest-IsReproducible_example :
    IsReproducible sha256 loads no_repr files in_root open_archive as_is repository
      (text "1.2.3")
      reference
      archive_path
      manifest
create_manifest-IsReproducible_example =
    create_manifest-IsReproducible sha256 loads no_repr files in_root open_archive as_is repository
      (text "1.2.3") commit reference archive_path manifest create_run

validate_run :
    validate_manifest no_repr repository (some (text "1.2.3")) (obj manifest) ≡ accepted manifest
unfolding validate_manifest manifest_of is_version after_prefix
validate_run = refl

validate_manifest-IsManifest_example :
    (obj manifest ≡ obj manifest) × IsManifest repository (some (text "1.2.3")) manifest
validate_manifest-IsManifest_example =
    validate_manifest-IsManifest no_repr repository (some (text "1.2.3")) (obj manifest) manifest
      validate_run
