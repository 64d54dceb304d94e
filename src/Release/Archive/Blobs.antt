-- ===== src/Release/Archive/Blobs.antt =====
-- What a blob that was read is: stored under the digest of its descriptor.
use hermes_link_server.Prelude.{
  ℕ, ◌+◌, Text, text, text_eq, text_eq_sound, length, ◌&&◌, List, [], ◌∷◌, ◌++◌, ◌≡◌, refl, sym, ap,
  ◌∙◌, arith, All, decimal, ◌==◌,
}
use hermes_link_server.Json.{
  Json, null, str, int, arr, obj, Items, nil, cons, Fields, JsonText, document, malformed, get_or,
  items, equals_nat,
}
use hermes_link_server.Attachments.{Bytes}
use hermes_link_server.Release.Verdict.{accepted, both, both_required, accepted_injective}
use hermes_link_server.Release.Archive.{
  Member, read_member, descriptor_digest, object_of, schema_2_of, layers_of, json_of, read_json,
  checked_blob, read_descriptor_blob, verify_layers,
}
use hermes_link_server.Release.Archive.Laws.{
  IsDescriptor, descriptor_digest-IsDescriptor, IsFile, read_member-IsFile,
}

pub schema_2_of_sound :
    (v : Json) (message : Text) (fs : Fields) → schema_2_of v message ≡ accepted fs → v ≡ obj fs
unfolding schema_2_of object_of
schema_2_of_sound (obj gs) message fs h =
    both_required (equals_nat 2 (get_or "schemaVersion" null gs)) _ _ h
      λ e k. ap obj (accepted_injective k)
schema_2_of_sound Json.null message fs h = cc
schema_2_of_sound (Json.bool b) message fs h = cc
schema_2_of_sound (int n) message fs h = cc
schema_2_of_sound (Json.float f) message fs h = cc
schema_2_of_sound (str s) message fs h = cc
schema_2_of_sound (arr vs) message fs h = cc

pub layers_of_sound :
    (v : Json) (message : Text) (ls : List Json)
    → layers_of v message ≡ accepted ls
    → (first : Json) × (rest : Items) × (v ≡ arr (cons first rest)) × (ls ≡ first ∷ items rest)
unfolding layers_of
layers_of_sound (arr (cons w ws)) message ls h = (w, ws, refl, sym (accepted_injective h))
layers_of_sound (arr nil) message ls h = cc
layers_of_sound Json.null message ls h = cc
layers_of_sound (Json.bool b) message ls h = cc
layers_of_sound (int n) message ls h = cc
layers_of_sound (Json.float f) message ls h = cc
layers_of_sound (str s) message ls h = cc
layers_of_sound (obj fs) message ls h = cc

module _ (sha256 : Bytes → Text) (loads : Bytes → JsonText) where
  -- The content of a descriptor is in the archive under the name of its digest, has its size, and
  -- its SHA-256 is the digest.
  pub record IsStored (members : List Member) (descriptor : Json) (digest : Text) (content : Bytes)
      : Type 0 where
    pub size : ℕ
    pub described : IsDescriptor descriptor digest size
    pub sized : length content ≡ size
    pub file : IsFile members (text "blobs/sha256/" ++ digest) content
    pub hashed : sha256 content ≡ digest

  pub read_json_sound :
      (content : Bytes) (context : Text) (v : Json)
      → read_json sha256 loads content context ≡ accepted v
      → loads content ≡ document v
  unfolding read_json
  read_json_sound content context v h = by_text (loads content) refl h
    where
      by_text :
          (t : JsonText)
          → loads content ≡ t
          → json_of sha256 loads context t ≡ accepted v
          → loads content ≡ document v
      by_text malformed e k = cc
      by_text (document w) e k = e ∙ ap document (accepted_injective k)

  checked_blob_sound :
      (digest : Text) (size : ℕ) (context : Text) (found content : Bytes)
      → checked_blob sha256 loads digest size context found ≡ accepted content
      → (found ≡ content) × (length found ≡ size) × (sha256 found ≡ digest)
  unfolding checked_blob
  checked_blob_sound digest size context found content h =
      both_required (length found == size && text_eq (sha256 found) digest) _ _ h
        λ matches h1. (accepted_injective h1, ground arith, text_eq_sound _ _ (ground arith))

  pub read_descriptor_blob-IsStored :
      (members : List Member) (v : Json) (context : Text) (content : Bytes)
      → read_descriptor_blob sha256 loads members v context ≡ accepted content
      → (digest : Text) × IsStored members v digest content
  unfolding read_descriptor_blob
  read_descriptor_blob-IsStored members v context content h =
      both (descriptor_digest v context) _ h λ (digest, size) e h1.
        both (read_member members (text "blobs/sha256/" ++ digest)) _ h1 λ found e1 h2.
          let (same, sized, hash) = checked_blob_sound digest size context found content h2 in
          (
            digest,
            record {
              size = size;
              described = descriptor_digest-IsDescriptor v context digest size e;
              sized = ap length (sym same) ∙ sized;
              file = read_member-IsFile members _ content (e1 ∙ ap accepted same);
              hashed = ap sha256 (sym same) ∙ hash;
            },
          )

  pub verify_layers-IsStored :
      (members : List Member) (n : ℕ) (layers : List Json)
      → verify_layers sha256 loads members n layers ≡ accepted tt
      → All (λ l. (digest : Text) × (content : Bytes) × IsStored members l digest content) layers
  unfolding verify_layers
  verify_layers-IsStored members n [] h = tt
  verify_layers-IsStored members n (l ∷ layers) h =
      both (read_descriptor_blob sha256 loads members l (text "image layer " ++ decimal n)) _ h
        λ content e h1.
          let (digest, stored) = read_descriptor_blob-IsStored members l _ content e in
          ((digest, content, stored), verify_layers-IsStored members (n + 1) layers h1)
