-- ===== src/Release/Archive/Verified.antt =====
-- What `verify_oci_archive` has checked of an archive that it accepts.
use hermes_link_server.Prelude.{
  ℕ, Text, text, text_eq, text_eq_sound, after_prefix, after_prefix-append, keep, true, Option,
  some, List, [], ◌∷◌, ◌++◌, ◌≡◌, ◌⊎◌, inl, inr, sym, ap, ◌∙◌, All,
}
use hermes_link_server.Json.{
  Json, null, arr, obj, Items, cons, Fields, JsonText, document, get_or, items,
}
use hermes_link_server.Attachments.{Bytes}
use hermes_link_server.Release.Verdict.{accepted, both, both_required, accepted_injective}
use hermes_link_server.Release.Patterns.{image_digest, image_archive_platform}
use hermes_link_server.Release.Manifest.{is_text}
use hermes_link_server.Release.Archive.{
  Member, Media, index_type, image_type, unsupported, unhashable, archive_members, read_member,
  demand, is_platform, platform_matches, has_digest, only, schema_2_of, list_of, layers_of,
  read_json, read_descriptor_blob, verify_image_manifest, platform_manifest, image_manifest,
  root_of, media_of, media_type, verify_members, verify_oci_archive,
}
use hermes_link_server.Release.Archive.Laws.{
  IsDescriptor, IsFile, read_member-IsFile, keep_one, only_one, demand-some, IsSound,
  archive_members-IsSound,
}
use hermes_link_server.Release.Archive.Listed.{IsListed, list_of-IsListed, Among, keep_one-Among}
use hermes_link_server.Release.Archive.Blobs.{
  schema_2_of_sound, layers_of_sound, IsStored, read_json_sound, read_descriptor_blob-IsStored,
  verify_layers-IsStored,
}

some_same {ℓ} : {A : Type ℓ} {a b : A} → ◌≡◌ {A = Option A} (some a) (some b) → a ≡ b
some_same h = cc

module _ (sha256 : Bytes → Text) (loads : Bytes → JsonText) where
  -- An image manifest: its configuration is stored and names the platform, and it has layers, of
  -- which each is stored.
  pub record IsImage (members : List Member) (manifest : Json) : Type 0 where
    pub fields : Fields
    pub is_object : manifest ≡ obj fields
    pub config : Json
    pub config_digest : Text
    pub config_content : Bytes
    pub config_stored :
        IsStored sha256 loads members (get_or "config" null fields) config_digest config_content
    pub config_read : loads config_content ≡ document config
    pub config_platform : is_platform config ≡ true
    pub layers : List Json
    pub has_layers :
        (first : Json) × (rest : Items) × (get_or "layers" null fields ≡ arr (cons first rest))
        × (layers ≡ first ∷ items rest)
    pub layers_stored :
        All
          (λ l.
            (digest : Text) × (content : Bytes) × IsStored sha256 loads members l digest content)
          layers

  verify_image_manifest-IsImage :
      (members : List Member) (manifest : Json)
      → verify_image_manifest sha256 loads members manifest ≡ accepted tt
      → IsImage members manifest
  unfolding verify_image_manifest
  verify_image_manifest-IsImage members manifest h =
      both (schema_2_of manifest (text "OCI archive image manifest is invalid")) _ h λ fields e h1.
        both
          (read_descriptor_blob sha256 loads members (get_or "config" null fields)
            (text "image config"))
          _ h1
          λ content e1 h2.
            both (read_json sha256 loads content (text "image config")) _ h2 λ config e2 h3.
              both_required (is_platform config) _ _ h3 λ platform h4.
                both
                  (layers_of (get_or "layers" null fields)
                    (text "OCI archive image manifest has no layers"))
                  _ h4
                  λ layers e3 h5.
                    let (digest, stored) =
                      read_descriptor_blob-IsStored sha256 loads members _ _ content e1 in
                    record {
                      fields = fields;
                      is_object = schema_2_of_sound manifest _ fields e;
                      config = config;
                      config_digest = digest;
                      config_content = content;
                      config_stored = stored;
                      config_read =
                          read_json_sound sha256 loads content (text "image config") config e2;
                      config_platform = platform;
                      layers = layers;
                      has_layers = layers_of_sound _ _ layers e3;
                      layers_stored = verify_layers-IsStored sha256 loads members 0 layers h5;
                    }

  -- The image manifest is that of the only child of the root that names the platform: an element of
  -- its `manifests`, which is stored.
  pub record IsChild (members : List Member) (root manifest : Json) : Type 0 where
    pub children : List Json
    pub listed : IsListed root children
    pub child : Json
    pub only_child : keep platform_matches children ≡ child ∷ []
    pub among : Among child children
    pub digest : Text
    pub content : Bytes
    pub for_platform : platform_matches child ≡ true
    pub stored : IsStored sha256 loads members child digest content
    pub read : loads content ≡ document manifest

  platform_manifest-IsChild :
      (members : List Member) (root manifest : Json)
      → platform_manifest sha256 loads members root ≡ accepted manifest
      → IsChild members root manifest
  unfolding platform_manifest
  platform_manifest-IsChild members root manifest h =
      both (schema_2_of root (text "OCI archive image index is invalid")) _ h λ fields e h1.
        both (list_of (get_or "manifests" null fields) _) _ h1 λ children e1 h2.
          both (only (keep platform_matches children) _) _ h2 λ child e2 h3.
            both (read_descriptor_blob sha256 loads members child (text "platform image")) _ h3
              λ content e3 h4.
                let (digest, stored) =
                  read_descriptor_blob-IsStored sha256 loads members child _ content e3 in
                record {
                  children = children;
                  listed =
                      list_of-IsListed root fields children _ (schema_2_of_sound root _ fields e)
                        e1;
                  child = child;
                  only_child = only_one _ _ child e2;
                  among = keep_one-Among platform_matches children child (only_one _ _ child e2);
                  digest = digest;
                  content = content;
                  for_platform = keep_one platform_matches children child (only_one _ _ child e2);
                  stored = stored;
                  read = read_json_sound sha256 loads content (text "platform image") manifest h4;
                }

  image_manifest_source :
      (members : List Member) (media : Media) (root manifest : Json)
      → image_manifest sha256 loads members media root ≡ accepted manifest
      → (manifest ≡ root) ⊎ IsChild members root manifest
  unfolding image_manifest
  image_manifest_source members index_type root manifest h =
      inr (platform_manifest-IsChild members root manifest h)
  image_manifest_source members image_type root manifest h = inl (sym (accepted_injective h))
  image_manifest_source members unsupported root manifest h = cc
  image_manifest_source members unhashable root manifest h = cc

  -- The root descriptor, with the index that lists it.
  pub record IsRoot (members : List Member) (wanted : Text) (root : Json) : Type 0 where
    pub index : Bytes
    pub index_file : IsFile members (text "index.json") index
    pub index_json : Json
    pub index_read : loads index ≡ document index_json
    pub descriptors : List Json
    pub listed : IsListed index_json descriptors
    pub only_one : keep (has_digest (text "sha256:" ++ wanted)) descriptors ≡ root ∷ []
    pub among : Among root descriptors

  root_of-IsRoot :
      (members : List Member) (digest : Text) (root : Json)
      → root_of sha256 loads members digest ≡ accepted root
      → IsRoot members digest root
  unfolding root_of
  root_of-IsRoot members digest root h =
      both (read_member members (text "index.json")) _ h λ content e h1.
        both (read_json sha256 loads content (text "index")) _ h1 λ index_json e1 h2.
          both (schema_2_of index_json _) _ h2 λ fields e2 h3.
            both (list_of (get_or "manifests" null fields) _) _ h3 λ descriptors e3 h4. record {
              index = content;
              index_file = read_member-IsFile members _ content e;
              index_json = index_json;
              index_read = read_json_sound sha256 loads content (text "index") index_json e1;
              descriptors = descriptors;
              listed =
                  list_of-IsListed index_json fields descriptors _
                    (schema_2_of_sound index_json _ fields e2) e3;
              only_one = only_one _ _ root h4;
              among = keep_one-Among _ descriptors root (only_one _ _ root h4);
            }

  -- The digest of a stored root is the one that was looked for.
  root_digest :
      (wanted digest : Text) (root : Json) (size : ℕ)
      → has_digest (text "sha256:" ++ wanted) root ≡ true
      → IsDescriptor root digest size
      → wanted ≡ digest
  unfolding has_digest is_text
  root_digest wanted digest root size h d =
      let named = rw (d.is_object) at h in
      let same = text_eq_sound _ _ (rw (d.names_digest) at named) in
      some_same (
        sym (after_prefix-append (text "sha256:") wanted)
        ∙ ap (after_prefix (text "sha256:")) same
        ∙ after_prefix-append (text "sha256:") digest)

  -- An archive that `verify_oci_archive` accepts for an image.
  pub record IsVerified (entries : List Member) (image : Text) : Type 0 where
    pub sound : IsSound entries
    pub root : Json
    pub digest : Text
    pub content : Bytes
    pub payload : Json
    pub manifest : Json
    pub named : image_digest image ≡ accepted digest
    pub rooted : IsRoot entries digest root
    pub stored : IsStored sha256 loads entries root digest content
    pub read : loads content ≡ document payload
    pub source : (manifest ≡ payload) ⊎ IsChild entries payload manifest
    pub verified : IsImage entries manifest

  verify_members-IsVerified :
      (entries : List Member) (image wanted : Text)
      → IsSound entries
      → image_digest image ≡ accepted wanted
      → verify_members sha256 loads entries wanted ≡ accepted tt
      → IsVerified entries image
  unfolding verify_members
  verify_members-IsVerified entries image wanted s named h =
      both (root_of sha256 loads entries wanted) _ h λ root e h1.
        both (read_descriptor_blob sha256 loads entries root (text "root image")) _ h1
          λ content e1 h2.
            both (read_json sha256 loads content (text "root image")) _ h2 λ payload e2 h3.
              both (image_manifest sha256 loads entries (media_of (media_type root)) payload) _ h3
                λ manifest e3 h4.
                  let (digest, stored) =
                    read_descriptor_blob-IsStored sha256 loads entries root _ content e1 in
                  let rooted = root_of-IsRoot entries wanted root e in
                  let same =
                    root_digest wanted digest root stored.size
                      (keep_one _ rooted.descriptors root rooted.only_one) stored.described in
                  record {
                    sound = s;
                    root = root;
                    digest = digest;
                    content = content;
                    payload = payload;
                    manifest = manifest;
                    named = named ∙ ap accepted same;
                    rooted = rw (sym same) rooted;
                    stored = stored;
                    read = read_json_sound sha256 loads content (text "root image") payload e2;
                    source = image_manifest_source entries _ payload manifest e3;
                    verified = verify_image_manifest-IsImage entries manifest h4;
                  }

  -- An archive is accepted only for the platform `linux/amd64`, if it can be read, its names are
  -- safe and distinct and it holds only files and directories. Then exactly one of the `manifests`
  -- of its `index.json` has the digest that the image names, and its content is stored. The image
  -- manifest is this content, or that of the only one of its own `manifests` that names the
  -- platform, which is stored too; and the configuration and every layer of it are stored. A
  -- content is stored if it is a regular file under the name of its digest, has the size of its
  -- descriptor and hashes to the digest.
  pub verify_oci_archive-IsVerified :
      (archive : Option (List Member)) (image platform : Text)
      → verify_oci_archive sha256 loads archive image platform ≡ accepted tt
      → (platform ≡ text "linux/amd64")
        × ((entries : List Member) × (archive ≡ some entries) × IsVerified entries image)
  unfolding verify_oci_archive image_archive_platform
  verify_oci_archive-IsVerified archive image platform h =
      both_required (text_eq platform image_archive_platform) _ _ h λ same h1.
        both (image_digest image) _ h1 λ wanted e h2. both (demand archive _) _ h2 λ entries e1 h3.
          both (archive_members [] entries) _ h3 λ members e2 h4.
            let (sound, all_of) = archive_members-IsSound entries members e2 in
            (
              text_eq_sound platform (text "linux/amd64") same,
              (
                entries,
                demand-some archive _ entries e1,
                verify_members-IsVerified entries image wanted sound e (rw all_of at h4),
              ),
            )
