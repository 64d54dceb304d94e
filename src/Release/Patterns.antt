-- ===== src/Release/Patterns.antt =====
-- scripts/release_manifest.py: the constants, the patterns and the validators of single values.
use package.text.Mathlib.Text.{◌==◌ as str_eq}
use hermes_link_server.Prelude.{
  ℕ, Text, text, after_prefix, is_empty, all, full_match, leb, ◌==◌, String, Bool, true, false, not,
  ◌&&◌, ◌||◌, Option, none, some, List, [], ◌∷◌, ◌++◌, if◌then◌else◌,
}
use hermes_link_server.Json.{str, Fields, end, field}
use hermes_link_server.Release.Verdict.{Verdict, raised, accepted, index_error, ◌>>=◌, require}

unfoldable pub release_asset_paths : List String
release_asset_paths =
    "install.sh" ∷ "deploy/standard/compose.yaml" ∷ "deploy/standard/.env.example"
    ∷ "deploy/standard/bin/hermes-link" ∷ "scripts/deployment_helpers.py"
    ∷ "scripts/bootstrap-hermes-agent-access.sh" ∷ "scripts/manage-internal-credential.py"
    ∷ "scripts/release_manifest.py" ∷ []

-- `RELEASE_DOWNLOAD_ASSET_NAMES`, of which the values are texts
unfoldable pub release_download_asset_names : Fields
unfolding text
release_download_asset_names = field "install.sh" (str (text "hermes-link-server-install.sh")) (
    field "deploy/standard/compose.yaml" (str (text "hermes-link-server-compose.yaml")) (
      field "deploy/standard/.env.example" (str (text "hermes-link-server-env.example")) (
        field "deploy/standard/bin/hermes-link" (str (text "hermes-link-server-cli")) (
          field "scripts/deployment_helpers.py"
            (str (text "hermes-link-server-deployment-helpers.py"))
            (field "scripts/bootstrap-hermes-agent-access.sh"
              (str (text "hermes-link-server-bootstrap-agent-access.sh"))
              (field "scripts/manage-internal-credential.py"
                (str (text "hermes-link-server-manage-internal-credential.py"))
                (field "scripts/release_manifest.py"
                  (str (text "hermes-link-server-release-manifest.py")) end)))))))

unfoldable pub image_archive_platform : Text
unfolding text
image_archive_platform = text "linux/amd64"

-- `key in paths`
unfoldable pub has_key : String → List String → Bool
has_key k [] = false
has_key k (j ∷ js) = str_eq j k || has_key k js

-- `[0-9]`, `[0-9a-f]` and `[A-Za-z0-9.]`
unfoldable pub is_digit : ℕ → Bool
is_digit c = leb b'0' c && leb c b'9'

unfoldable pub is_hex : ℕ → Bool
unfolding is_digit
is_hex c = is_digit c || (leb b'a' c && leb c b'f')

unfoldable pub is_suffix_char : ℕ → Bool
unfolding is_digit
is_suffix_char c =
    is_digit c || (leb b'A' c && leb c b'Z') || (leb b'a' c && leb c b'z') || c == b'.'

-- What follows all leading digits, and what follows at least one.
unfoldable pub drop_digits : Text → Text
unfolding is_digit
drop_digits [] = []
drop_digits (c ∷ s) = let rest = drop_digits s in if is_digit c then rest else c ∷ s

unfoldable pub after_digits : Text → Option Text
unfolding drop_digits
after_digits [] = none
after_digits (c ∷ s) = if is_digit c then some (drop_digits s) else none

pub after_dot : Option Text → Option Text
unfolding after_digits
after_dot none = none
after_dot (some []) = none
after_dot (some (c ∷ s)) = if c == b'.' then after_digits s else none

-- `(?:[.-][A-Za-z0-9.]+)?$`
pub is_suffix : Option Text → Bool
unfolding is_suffix_char
is_suffix none = false
is_suffix (some []) = true
is_suffix (some (c ∷ s)) = (c == b'.' || c == b'-') && not (is_empty s) && all is_suffix_char s

-- `VERSION_PATTERN`: no digit may follow a run of digits, so each run is as long as it can be.
unfoldable pub is_version : Text → Bool
unfolding after_dot is_suffix
is_version value = is_suffix (after_dot (after_dot (after_digits value)))

-- `SHA256_PATTERN` and `COMMIT_PATTERN`
unfoldable pub is_sha256 : Text → Bool
unfolding full_match is_hex
is_sha256 value = full_match is_hex 64 64 value

unfoldable pub is_commit : Text → Bool
unfolding full_match is_hex
is_commit value = full_match is_hex 40 40 value

-- `_validate_version`
unfoldable pub validate_version : Text → Verdict Text
unfolding text
validate_version value =
    require (is_version value) (text "Version must be a pinned semantic version") >>= λ _.
    accepted value

-- a digest behind a prefix
unfoldable pub is_digest_after : Text → Text → Bool
is_digest_after start value = elim (after_prefix start value) [
  | none ↦ false
  | some digest ↦ is_sha256 digest
]

-- `_validate_image`
unfoldable pub validate_image : Text → Text → Verdict Text
unfolding text is_digest_after
validate_image value image_repository =
    require (is_digest_after (image_repository ++ text "@sha256:") value)
      (text "Image must be an immutable SHA-256 digest for " ++ image_repository)
    >>= λ _. accepted value

-- `value.rsplit(":", maxsplit=1)[1]`, with the text behind the last colon so far
pub last_part : Option Text → Text → Option Text
last_part found [] = found
last_part found (c ∷ s) =
    let rest = last_part found s in
    let renewed = last_part (some s) s in if c == b':' then renewed else rest

-- `_image_digest`
unfoldable pub image_digest : Text → Verdict Text
unfolding last_part
image_digest image = elim (last_part none image) [
  | none ↦ raised index_error
  | some digest ↦ accepted digest
]

-- `_validate_relative_path`
unfoldable pub validate_relative_path : String → Verdict String
unfolding text has_key release_asset_paths
validate_relative_path value =
    require (has_key value release_asset_paths)
      (text "Unexpected release asset path: " ++ text value)
    >>= λ _. accepted value

-- `image_archive_name`
unfoldable pub image_archive_name : Text → Verdict Text
unfolding text validate_version
image_archive_name version = validate_version version >>= λ _.
    accepted (text "hermes-link-server-" ++ version ++ text "-linux-amd64.oci.tar")
