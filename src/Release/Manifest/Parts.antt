-- ===== src/Release/Manifest/Parts.antt =====
-- What the parts of a manifest hold: its files, its archive and its image.
use hermes_link_server.Prelude.{
  Text, text, text_eq, text_eq_sound, after_prefix, after_prefix_sound, String, Bool, true, false,
  Option, none, some, List, [], ◌∷◌, ◌++◌, ◌≡◌, inl, inr, refl, sym, ap, ◌∙◌, arith, all,
  Bool-cases,
}
use package.text.Mathlib.Text.{◌==◌ as str_eq}
use package.text.Mathlib.TextEquality.{eq_iff}
use hermes_link_server.Json.{Json, null, str, int, arr, obj, Fields, end, field, keys, get, get_or}
use hermes_link_server.Release.Verdict.{accepted, both, both_required, accepted_injective}
use hermes_link_server.Release.Patterns.{
  release_asset_paths, has_key, is_sha256, is_digest_after, validate_version,
  validate_relative_path, image_archive_name, image_archive_platform,
}
use hermes_link_server.Release.Manifest.{
  Schema, schema_1, schema_2, same_keys, is_text, text_of, validate_image_archive, validate_files,
  archive_keys, expected_keys, checked_files, checked_archive,
}

-- A value that passes the test of a text.
pub is_text_sound :
    (test : Text → Bool) (v : Json)
    → is_text test v ≡ true
    → (s : Text) × (v ≡ str s) × (test s ≡ true)
unfolding is_text
is_text_sound test (str s) h = (s, refl, h)
is_text_sound test null h = cc
is_text_sound test (Json.bool b) h = cc
is_text_sound test (int n) h = cc
is_text_sound test (Json.float f) h = cc
is_text_sound test (arr vs) h = cc
is_text_sound test (obj fs) h = cc

pub text_of_sound : (v : Json) (message s : Text) → text_of v message ≡ accepted s → v ≡ str s
unfolding text_of
text_of_sound (str t) message s h = ap str (accepted_injective h)
text_of_sound null message s h = cc
text_of_sound (Json.bool b) message s h = cc
text_of_sound (int n) message s h = cc
text_of_sound (Json.float f) message s h = cc
text_of_sound (arr vs) message s h = cc
text_of_sound (obj fs) message s h = cc

some_same {ℓ} : {A : Type ℓ} {a b : A} → ◌≡◌ {A = Option A} (some a) (some b) → a ≡ b
some_same h = cc

-- A key that is listed is looked up.
get_listed :
    (k : String) (fs : Fields) → has_key k (keys fs) ≡ true → (v : Json) × (get k fs ≡ some v)
unfolding get has_key
get_listed k end h = cc
get_listed k (field j v fs) h = elim (Bool-cases (str_eq j k)) [
  | inl same ↦ (v, rw same refl)
  | inr differs ↦ rw differs (get_listed k fs (rw differs at h))
]

validate_files-get :
    (k : String) (fs : Fields) (v : Json)
    → validate_files fs ≡ accepted tt
    → get k fs ≡ some v
    → (d : Text) × (v ≡ str d) × (is_sha256 d ≡ true)
unfolding validate_files get
validate_files-get k end v h g = cc
validate_files-get k (field j w fs) v h g = both (validate_relative_path j) _ h λ path e h1.
    both_required (is_text is_sha256 w) _ _ h1 λ digest h2. elim (Bool-cases (str_eq j k)) [
      | inl same ↦
          let (d, e1, e2) = is_text_sound is_sha256 w digest in
          (d, some_same (sym (rw same at g)) ∙ e1, e2)
      | inr differs ↦ validate_files-get k fs v h2 (rw differs at g)
    ]

all_listed :
    (test : String → Bool) (ks : List String) (k : String)
    → all test ks ≡ true
    → has_key k ks ≡ true
    → test k ≡ true
unfolding has_key
all_listed test [] k h e = cc
all_listed test (j ∷ ks) k h e = elim (Bool-cases (str_eq j k)) [
  | inl same ↦ ap test (sym ((eq_iff j k).0 same)) ∙ ground arith
  | inr differs ↦ all_listed test ks k (ground arith) (rw differs at e)
]

same_keys-all :
    (present expected : List String)
    → same_keys present expected ≡ true
    → all (λ k. has_key k present) expected ≡ true
unfolding same_keys
same_keys-all present expected h = ground arith

-- The digests of all assets, in the files of a manifest.
pub record HasDigests (files : Fields) : Type 0 where
  pub listed : same_keys (keys files) release_asset_paths ≡ true
  pub digests :
      (path : String)
      → has_key path release_asset_paths ≡ true
      → (d : Text) × (get path files ≡ some (str d)) × (is_sha256 d ≡ true)

pub checked_files-HasDigests :
    (v : Json)
    → checked_files v ≡ accepted tt
    → (files : Fields) × (v ≡ obj files) × HasDigests files
unfolding checked_files
checked_files-HasDigests (obj files) h =
    both_required (same_keys (keys files) release_asset_paths) _ _ h λ listed h1. (
      files,
      refl,
      record {
        listed = listed;
        digests = λ path k.
            let (v, got) = get_listed path files (
              all_listed (λ k. has_key k (keys files)) release_asset_paths path
                (same_keys-all (keys files) release_asset_paths listed) k) in
            let (d, same, form) = validate_files-get path files v h1 got in
            (d, got ∙ ap some same, form);
      },
    )
checked_files-HasDigests null h = cc
checked_files-HasDigests (Json.bool b) h = cc
checked_files-HasDigests (int n) h = cc
checked_files-HasDigests (Json.float f) h = cc
checked_files-HasDigests (str s) h = cc
checked_files-HasDigests (arr vs) h = cc

-- The archive of a manifest.
pub record HasArchive (archive : Fields) (version : Text) : Type 0 where
  pub name :
      get_or "name" null archive
      ≡ str (text "hermes-link-server-" ++ version ++ text "-linux-amd64.oci.tar")
  pub digest : (d : Text) × (get_or "sha256" null archive ≡ str d) × (is_sha256 d ≡ true)
  pub platform : get_or "platform" null archive ≡ str (text "linux/amd64")

expected_text : (t : Text) (v : Json) → is_text (text_eq t) v ≡ true → v ≡ str t
expected_text t v h =
    let (s, e, same) = is_text_sound (text_eq t) v h in e ∙ ap str (sym (text_eq_sound t s same))

image_archive_name_sound :
    (version name : Text)
    → image_archive_name version ≡ accepted name
    → text "hermes-link-server-" ++ version ++ text "-linux-amd64.oci.tar" ≡ name
unfolding image_archive_name
image_archive_name_sound version name h =
    both (validate_version version) _ h λ v e h1. accepted_injective h1

validate_image_archive-HasArchive :
    (v : Json) (version : Text) (archive : Fields)
    → validate_image_archive v version ≡ accepted archive
    → (v ≡ obj archive) × HasArchive archive version
unfolding validate_image_archive image_archive_platform
validate_image_archive-HasArchive (obj fs) version archive h =
    both_required (same_keys (keys fs) archive_keys) _ _ h λ keyed h1.
      both (image_archive_name version) _ h1 λ expected e h2.
        both_required (is_text (text_eq expected) (get_or "name" null fs)) _ _ h2 λ name h3.
          both_required (is_text is_sha256 (get_or "sha256" null fs)) _ _ h3 λ digest h4.
            both_required (is_text (text_eq image_archive_platform) (get_or "platform" null fs)) _ _
              h4
              λ platform h5.
                let same = accepted_injective h5 in
                (
                  ap obj same,
                  rw (sym same) (record {
                    name =
                        expected_text expected _ name
                        ∙ ap str (sym (image_archive_name_sound version expected e));
                    digest = is_text_sound is_sha256 _ digest;
                    platform = expected_text _ _ platform;
                  }),
                )
validate_image_archive-HasArchive null version archive h = cc
validate_image_archive-HasArchive (Json.bool b) version archive h = cc
validate_image_archive-HasArchive (int n) version archive h = cc
validate_image_archive-HasArchive (Json.float f) version archive h = cc
validate_image_archive-HasArchive (str s) version archive h = cc
validate_image_archive-HasArchive (arr vs) version archive h = cc

-- The schema of a manifest: the first has no archive.
abbrev pub HasSchema : Schema → Fields → Text → Type 0
HasSchema schema_1 manifest version = has_key "image_archive" (keys manifest) ≡ false
HasSchema schema_2 manifest version =
    (archive : Fields) × (get_or "image_archive" null manifest ≡ obj archive)
    × HasArchive archive version

no_archive_key :
    (present : List String)
    → same_keys present (expected_keys schema_1) ≡ true
    → has_key "image_archive" present ≡ false
unfolding same_keys expected_keys has_key
no_archive_key present h = elim (Bool-cases (has_key "image_archive" present)) [
  | inl listed ↦ cc (
      all_listed (λ k. has_key k (expected_keys schema_1)) present "image_archive" (ground arith)
        listed)
  | inr absent ↦ absent
]

pub checked_archive-HasSchema :
    (schema : Schema) (manifest : Fields) (version : Text)
    → same_keys (keys manifest) (expected_keys schema) ≡ true
    → checked_archive schema (get_or "image_archive" null manifest) version ≡ accepted tt
    → HasSchema schema manifest version
unfolding checked_archive
checked_archive-HasSchema schema_1 manifest version k h = no_archive_key (keys manifest) k
checked_archive-HasSchema schema_2 manifest version k h =
    both (validate_image_archive (get_or "image_archive" null manifest) version) _ h λ archive e h1.
      let (same, holds) = validate_image_archive-HasArchive _ version archive e in
      (archive, same, holds)

pub digest_after :
    (start value : Text)
    → is_digest_after start value ≡ true
    → (d : Text) × (value ≡ start ++ d) × (is_sha256 d ≡ true)
unfolding is_digest_after
digest_after start value h = by_rest (after_prefix start value) refl h
  where
    by_rest :
        (o : Option Text)
        → after_prefix start value ≡ o
        → (elim o [ none ↦ false | some digest ↦ is_sha256 digest ]) ≡ true
        → (d : Text) × (value ≡ start ++ d) × (is_sha256 d ≡ true)
    by_rest none e k = cc
    by_rest (some d) e k = (d, after_prefix_sound start value d e, k)
