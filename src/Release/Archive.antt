-- ===== src/Release/Archive.antt =====
-- scripts/release_manifest.py: `verify_oci_archive` and what it calls. An archive is the list of
-- its members, as `getmembers` returns them; a file that is no archive is none. The path of
-- the archive is left out of a message. SHA-256 of a content, and the reading of bytes as UTF-8 and JSON, are parameters.
pub mod Laws
pub mod Blobs
pub mod Listed
pub mod Verified
use package.text.Mathlib.Text.{◌==◌ as str_eq}
use hermes_link_server.Prelude.{
  ℕ, ◌+◌, decimal, Text, text, text_eq, starts_with, contains, after_prefix, length, find, keep,
  all, is_some, String, Bool, true, false, not, ◌&&◌, ◌||◌, ◌==◌, Option, none, some, List, [], ◌∷◌,
  ◌++◌, if◌then◌else◌,
}
use hermes_link_server.Json.{
  Json, null, str, int, arr, obj, ℤ, pos, Items, nil, cons, Fields, end, field, JsonText, document,
  malformed, get, get_or, equals_nat, items,
}
use hermes_link_server.Attachments.{Bytes}
use hermes_link_server.Release.Verdict.{
  Raised, Verdict, raised, accepted, manifest_error, type_error, ◌>>=◌, require,
}
use hermes_link_server.Release.Patterns.{is_sha256, image_digest, image_archive_platform}
use hermes_link_server.Release.Manifest.{is_text}

-- `isdir()`, `isfile()`, and every other kind of entry
pub data Kind : Type 0 where
  directory regular other : Kind

-- A `TarInfo` with what `extractfile` gives of it.
pub record Member : Type 0 where
  pub name : Text
  pub kind : Kind
  pub content : Bytes

-- `PurePosixPath(name).parts`, less the empty ones and `.`, which the test below does not look for
unfoldable pub path_parts : Text → Text → List Text
path_parts part [] = part ∷ []
path_parts part (c ∷ s) =
    let here = part ∷ path_parts [] s in
    let longer = path_parts (part ++ c ∷ []) s in if c == b'/' then here else longer

unfoldable pub is_unsafe : Text → Bool
unfolding text starts_with contains path_parts
is_unsafe name = starts_with (text "/") name || contains (text "..") (path_parts [] name)

abbrev pub is_regular : Kind → Bool
is_regular regular = true
is_regular _ = false

abbrev pub is_entry : Kind → Bool
is_entry other = false
is_entry _ = true

abbrev pub names_of : List Member → List Text
names_of [] = []
names_of (m ∷ ms) = m.name ∷ names_of ms

-- `_archive_members`, with the members so far
unfoldable pub archive_members : List Member → List Member → Verdict (List Member)
unfolding text is_unsafe contains
archive_members members [] = accepted members
archive_members members (member ∷ rest) =
    require (not (is_unsafe member.name)) (text "OCI archive contains an unsafe path") >>= λ _.
    require (not (contains member.name (names_of members)))
      (text "OCI archive contains duplicate entries")
    >>= λ _.
        require (is_entry member.kind) (text "OCI archive contains a non-regular entry") >>= λ _.
        archive_members (members ++ member ∷ []) rest

-- `members.get(name)`, of a regular file
unfoldable pub find_file : List Member → Text → Option Member
unfolding text_eq
find_file members name = find (λ m. text_eq m.name name) members

unfoldable pub file_content : Text → Option Member → Verdict Bytes
unfolding text
file_content name none =
    raised (manifest_error (text "OCI archive is missing required entry: " ++ name))
file_content name (some m) =
    require (is_regular m.kind) (text "OCI archive is missing required entry: " ++ name) >>= λ _.
    accepted m.content

-- `_read_member`
unfoldable pub read_member : List Member → Text → Verdict Bytes
unfolding find_file file_content
read_member members name = file_content name (find_file members name)

-- the digest without `sha256:`, if it has the form `^sha256:[0-9a-f]{64}$`
unfoldable pub digest_of : Json → Option Text
unfolding text after_prefix is_sha256
digest_of (str s) = elim (after_prefix (text "sha256:") s) [
  | none ↦ none
  | some digest ↦ if is_sha256 digest then some digest else none
]
digest_of _ = none

unfoldable pub size_of : Json → Option ℕ
size_of (int (pos n)) = some n
size_of _ = none

-- the value, or a ManifestError
unfoldable pub demand {ℓ} : {Value : Type ℓ} → Option Value → Text → Verdict Value
demand none message = raised (manifest_error message)
demand (some value) message = accepted value

abbrev pub archive_problem : Text → String → Text
archive_problem context problem = text "OCI archive " ++ context ++ text problem

-- `_descriptor_digest`, without the prefix of the digest
unfoldable pub descriptor_digest : Json → Text → Verdict (Text × ℕ)
unfolding text demand digest_of size_of get_or
descriptor_digest (obj descriptor) context =
    demand (digest_of (get_or "digest" null descriptor))
      (archive_problem context " descriptor has an invalid digest")
    >>= λ digest.
        demand (size_of (get_or "size" null descriptor))
          (archive_problem context " descriptor has an invalid size")
        >>= λ size. accepted (digest, size)
descriptor_digest _ context =
    raised (manifest_error (archive_problem context " descriptor is invalid"))

-- `_platform_matches`, for the platform `linux/amd64`
unfoldable pub has_platform : Fields → Bool
unfolding text text_eq is_text get_or
has_platform fields =
    is_text (text_eq (text "linux")) (get_or "os" null fields)
    && is_text (text_eq (text "amd64")) (get_or "architecture" null fields)

unfoldable pub is_platform : Json → Bool
unfolding has_platform
is_platform (obj fields) = has_platform fields
is_platform _ = false

unfoldable pub platform_matches : Json → Bool
unfolding is_platform get_or
platform_matches (obj descriptor) = is_platform (get_or "platform" null descriptor)
platform_matches _ = false

-- `descriptor.get("digest") == expected_digest`
unfoldable pub has_digest : Text → Json → Bool
unfolding text_eq is_text get_or
has_digest expected (obj descriptor) = is_text (text_eq expected) (get_or "digest" null descriptor)
has_digest expected _ = false

-- The media types: an index, an image manifest, neither, or a value that no set can be asked for.
pub data Media : Type 0 where
  index_type image_type unsupported unhashable : Media

unfoldable pub media_of_text : Text → Media
unfolding text contains
media_of_text s =
    if contains s (
      text "application/vnd.oci.image.index.v1+json"
      ∷ text "application/vnd.docker.distribution.manifest.list.v2+json"
      ∷ [])
    then index_type
    else if contains s (
        text "application/vnd.oci.image.manifest.v1+json"
        ∷ text "application/vnd.docker.distribution.manifest.v2+json"
        ∷ [])
    then image_type
    else unsupported

unfoldable pub media_of : Json → Media
unfolding media_of_text
media_of (str s) = media_of_text s
media_of (arr _) = unhashable
media_of (obj _) = unhashable
media_of _ = unsupported

-- the one element of a list
unfoldable pub only : List Json → Text → Verdict Json
only (v ∷ []) message = accepted v
only _ message = raised (manifest_error message)

unfoldable pub object_of : Json → Text → Verdict Fields
object_of (obj fields) message = accepted fields
object_of _ message = raised (manifest_error message)

-- `isinstance(value, dict) and value.get("schemaVersion") == 2`
unfoldable pub schema_2_of : Json → Text → Verdict Fields
unfolding object_of equals_nat get_or
schema_2_of value message = object_of value message >>= λ fields.
    require (equals_nat 2 (get_or "schemaVersion" null fields)) message >>= λ _. accepted fields

unfoldable pub list_of : Json → Text → Verdict (List Json)
list_of (arr vs) message = accepted (items vs)
list_of _ message = raised (manifest_error message)

unfoldable pub layers_of : Json → Text → Verdict (List Json)
layers_of (arr (cons v vs)) message = accepted (v ∷ items vs)
layers_of _ message = raised (manifest_error message)

unfoldable pub media_type : Json → Json
unfolding get_or
media_type (obj descriptor) = get_or "mediaType" null descriptor
media_type _ = null

module _ (sha256 : Bytes → Text) (loads : Bytes → JsonText) where
  unfoldable pub json_of : Text → JsonText → Verdict Json
  unfolding text
  json_of context malformed = raised (manifest_error (archive_problem context " is not valid JSON"))
  json_of context (document value) = accepted value

  -- `_read_json`
  unfoldable pub read_json : Bytes → Text → Verdict Json
  unfolding json_of
  read_json content context = json_of context (loads content)

  unfoldable pub checked_blob : Text → ℕ → Text → Bytes → Verdict Bytes
  unfolding text text_eq
  checked_blob digest size context content =
      require (length content == size && text_eq (sha256 content) digest)
        (archive_problem context " blob does not match its descriptor")
      >>= λ _. accepted content

  -- `_verify_descriptor_blob` and `_read_descriptor_blob`
  unfoldable pub read_descriptor_blob : List Member → Json → Text → Verdict Bytes
  unfolding text descriptor_digest read_member checked_blob
  read_descriptor_blob members descriptor context =
      descriptor_digest descriptor context >>= λ (digest, size).
      read_member members (text "blobs/sha256/" ++ digest) >>= λ content.
      checked_blob digest size context content

  -- the loop over the layers, from an index on
  unfoldable pub verify_layers : List Member → ℕ → List Json → Verdict {0} Unit
  unfolding text decimal read_descriptor_blob
  verify_layers members n [] = accepted tt
  verify_layers members n (layer ∷ layers) =
      read_descriptor_blob members layer (text "image layer " ++ decimal n) >>= λ _.
      verify_layers members (n + 1) layers

  -- `_verify_image_manifest`
  unfoldable pub verify_image_manifest : List Member → Json → Verdict {0} Unit
  unfolding text schema_2_of read_descriptor_blob read_json has_platform layers_of verify_layers
      get_or object_of
  verify_image_manifest members manifest =
      schema_2_of manifest (text "OCI archive image manifest is invalid") >>= λ fields.
      read_descriptor_blob members (get_or "config" null fields) (text "image config")
      >>= λ content. read_json content (text "image config") >>= λ config.
          require (is_platform config)
            (text "OCI archive image config does not match the required platform")
          >>= λ _.
              layers_of (get_or "layers" null fields)
                (text "OCI archive image manifest has no layers")
              >>= λ layers. verify_layers members 0 layers

  -- the manifest of the platform, of an image index
  unfoldable pub platform_manifest : List Member → Json → Verdict Json
  unfolding text schema_2_of list_of only platform_matches read_descriptor_blob read_json get_or
  platform_manifest members root =
      schema_2_of root (text "OCI archive image index is invalid") >>= λ fields.
      list_of (get_or "manifests" null fields) (text "OCI archive image index has no manifests")
      >>= λ children.
          only (keep platform_matches children)
            (text "OCI archive does not contain exactly one required platform image")
          >>= λ child. read_descriptor_blob members child (text "platform image") >>= λ content.
              read_json content (text "platform image")

  -- the image manifest, by the media type of the root
  unfoldable pub image_manifest : List Member → Media → Json → Verdict Json
  unfolding text platform_manifest
  image_manifest members index_type root = platform_manifest members root
  image_manifest members image_type root = accepted root
  image_manifest members unsupported root =
      raised (manifest_error (text "OCI archive root image has an unsupported media type"))
  image_manifest members unhashable root = raised type_error

  -- the root descriptor, which carries the digest of the image
  unfoldable pub root_of : List Member → Text → Verdict Json
  unfolding text read_member read_json schema_2_of list_of only has_digest get_or
  root_of members digest = read_member members (text "index.json") >>= λ content.
      read_json content (text "index") >>= λ index_json.
      schema_2_of index_json (text "OCI archive index is invalid") >>= λ fields.
      list_of (get_or "manifests" null fields) (text "OCI archive index has no manifests")
      >>= λ descriptors.
          only (keep (has_digest (text "sha256:" ++ digest)) descriptors)
            (text "OCI archive does not retain the expected registry image digest")

  -- the checks of an archive that was opened
  unfoldable pub verify_members : List Member → Text → Verdict {0} Unit
  unfolding text root_of read_descriptor_blob read_json media_type media_of image_manifest
      verify_image_manifest
  verify_members members digest = root_of members digest >>= λ root.
      read_descriptor_blob members root (text "root image") >>= λ content.
      read_json content (text "root image") >>= λ payload.
      image_manifest members (media_of (media_type root)) payload >>= λ manifest.
      verify_image_manifest members manifest

  -- `verify_oci_archive`, of what `tarfile.open` gives
  unfoldable pub verify_oci_archive : Option (List Member) → Text → Text → Verdict {0} Unit
  unfolding text text_eq image_archive_platform image_digest demand archive_members verify_members
  verify_oci_archive archive image platform =
      require (text_eq platform image_archive_platform)
        (text "Unsupported OCI archive platform: " ++ platform)
      >>= λ _. image_digest image >>= λ digest.
          demand archive (text "Cannot read OCI image archive") >>= λ entries.
          archive_members [] entries >>= λ members. verify_members members digest
