-- ===== src/Export/Models/Laws.antt =====
-- What the Server reads of the snapshots that the exporter has written.
use hermes_link_server.Prelude.{
  Text, text_eq, text_eq_sound, text_eq_refl, strip, contains, is_empty, is_profile_id, true, false,
  not, ◌&&◌, List, [], ◌∷◌, ◌++◌, ◌≡◌, refl, ap, ◌∙◌, arith, Bool-cases, inl, inr, if◌then◌else◌,
}
use hermes_link_server.Json.{Json, obj, Fields, end, field, get_or, is_truthy}
use hermes_link_server.Bridge.Access.{
  Environment, configured_profiles, directory_profiles, discover_profile_ids, or_profiles,
}
use hermes_link_server.Bridge.Models.{
  Snapshot, missing, contents, absent, found, read_snapshot, read_model_config,
}
use hermes_link_server.Export.Models.{
  collect_ids, profile_ids_of, config_path, Source, loaded_yaml, safe_text, ModelPart, model_part,
  public_model_config, snapshot_of_yaml, snapshot_of, replace_snapshot, sync_model_config_snapshots,
}
use hermes_link_server.Export.Models
use hermes_link_server.Export.Models.Served.{described, served, agent_of, model_fields-public}

module _ (repr : Json → Text) where
  module _ (sources : Text → Source) (hermes_home : Text) where
    abbrev exported : Text → Snapshot
    exported profile_id = snapshot_of repr profile_id (sources (config_path hermes_home profile_id))

    -- the snapshots after the profile at the head of the list
    abbrev after_one : Text → (Text → Snapshot) → Text → Snapshot
    after_one profile_id snapshots =
        if is_profile_id profile_id
        then replace_snapshot repr profile_id (exported profile_id) snapshots
        else snapshots

    after_one_here :
        (p : Text) (snapshots : Text → Snapshot)
        → is_profile_id p ≡ true
        → after_one p snapshots p ≡ exported p
    unfolding replace_snapshot
    after_one_here p snapshots v = rw (v, text_eq_refl p) refl

    after_one_other :
        (p q : Text) (snapshots : Text → Snapshot)
        → text_eq p q ≡ false
        → after_one p snapshots q ≡ snapshots q
    unfolding replace_snapshot
    after_one_other p q snapshots d = elim (Bool-cases (is_profile_id p)) [
      | inl v ↦ rw (v, d) refl
      | inr v ↦ rw v refl
    ]

    sync_step :
        (p : Text) (ps : List Text) (snapshots : Text → Snapshot) (q : Text)
        → sync_model_config_snapshots repr sources hermes_home (p ∷ ps) snapshots q
          ≡ sync_model_config_snapshots repr sources hermes_home ps (after_one p snapshots) q
    unfolding sync_model_config_snapshots
    sync_step p ps snapshots q = elim (Bool-cases (is_profile_id p)) [
      | inl v ↦ rw v refl
      | inr v ↦ rw v refl
    ]

    -- The snapshot of a profile that is not in the list is left.
    sync-absent :
        (ps : List Text) (snapshots : Text → Snapshot) (q : Text)
        → contains q ps ≡ false
        → sync_model_config_snapshots repr sources hermes_home ps snapshots q ≡ snapshots q
    unfolding contains
    sync-absent [] snapshots q h = unfold sync_model_config_snapshots in refl
    sync-absent (p ∷ ps) snapshots q h =
        sync_step p ps snapshots q
        ∙ sync-absent ps (after_one p snapshots) q (ground arith)
        ∙ after_one_other p q snapshots (ground arith)

    -- The snapshot of a valid profile in the list is that of its configuration.
    sync-present :
        (ps : List Text) (snapshots : Text → Snapshot) (q : Text)
        → is_profile_id q ≡ true
        → contains q ps ≡ true
        → sync_model_config_snapshots repr sources hermes_home ps snapshots q ≡ exported q
    unfolding contains
    sync-present [] snapshots q v h = cc
    sync-present (p ∷ ps) snapshots q v h = elim (Bool-cases (contains q ps)) [
      | inl again ↦ sync_step p ps snapshots q ∙ sync-present ps (after_one p snapshots) q v again
      | inr last ↦
          let same = text_eq_sound p q (ground arith) in
          sync_step p ps snapshots q
          ∙ sync-absent ps (after_one p snapshots) q last
          ∙ rw same (after_one_here q snapshots v)
    ]

  snapshot_of-mapping :
      (profile_id : Text) (payload : Fields)
      → snapshot_of repr profile_id (loaded_yaml (obj payload))
        ≡ contents (obj (public_model_config repr profile_id payload))
  unfolding snapshot_of snapshot_of_yaml is_truthy
  snapshot_of-mapping profile_id end = refl
  snapshot_of-mapping profile_id (field k v fs) = refl

  read_of :
      (snapshots : Text → Snapshot) (q : Text) (snapshot : Snapshot)
      → is_profile_id q ≡ true
      → snapshots q ≡ snapshot
      → read_model_config repr snapshots q ≡ read_snapshot repr q snapshot
  unfolding read_model_config
  read_of snapshots q snapshot v e = rw (v, e) refl

  -- After the exporter has run, the Server reads for a profile in the list, whose id is valid, what
  -- the configuration of the Agent says: of `model` the `default`, or else the `name`, the
  -- `provider` and the `max_tokens`, or `model` itself where it is no object; of `agent` the
  -- `reasoning_effort` and the `service_tier`; the texts stripped and cut to 200, 100, 20 and 20
  -- characters; and nothing else. It finds no model configuration where that of the Agent cannot
  -- be read.
  pub sync-read_model_config :
      (sources : Text → Source) (hermes_home : Text) (ps : List Text) (snapshots : Text → Snapshot)
      (q : Text)
      → is_profile_id q ≡ true
      → contains q ps ≡ true
      → ((payload : Fields)
          → sources (config_path hermes_home q) ≡ loaded_yaml (obj payload)
          → read_model_config repr
              (sync_model_config_snapshots repr sources hermes_home ps snapshots)
              q
            ≡ found (
                served repr q
                  (described repr (get_or "model" (obj end) payload))
                  (agent_of repr (get_or "agent" (obj end) payload))))
        × (sources (config_path hermes_home q) ≡ Source.unreadable
            → read_model_config repr
                (sync_model_config_snapshots repr sources hermes_home ps snapshots)
                q
              ≡ absent)
  unfolding read_snapshot
  sync-read_model_config sources hermes_home ps snapshots q v h =
      let synced = sync_model_config_snapshots repr sources hermes_home ps snapshots in
      let present = sync-present sources hermes_home ps snapshots q v h in
      (
        λ payload e.
            read_of synced q (contents (obj (public_model_config repr q payload))) v
              (present ∙ ap (snapshot_of repr q) e ∙ snapshot_of-mapping q payload)
            ∙ ap found (model_fields-public repr q payload),
        λ e.
            read_of synced q missing v
              (present ∙ ap (snapshot_of repr q) e ∙ unfold snapshot_of in refl),
      )

collect_ids-configured_profiles :
    (ids parts : List Text) → collect_ids ids parts ≡ configured_profiles ids parts
unfolding collect_ids configured_profiles
collect_ids-configured_profiles ids [] = refl
collect_ids-configured_profiles ids (part ∷ parts) =
    elim (Bool-cases (
      not (is_empty (strip part))
      && is_profile_id (strip part)
      && not (contains (strip part) ids))) [
        | inl added ↦ rw added (collect_ids-configured_profiles (ids ++ strip part ∷ []) parts)
        | inr skipped ↦ rw skipped (collect_ids-configured_profiles ids parts)
      ]

found_profiles :
    (p : Text) (ids others : List Text)
    → contains p ids ≡ true
    → Models.or_default ids ≡ or_profiles ids others
unfolding contains
found_profiles p [] others h = cc
found_profiles p (q ∷ qs) others h = refl

-- Where the environment names a valid profile, the exporter and the Server have the same profiles,
-- in the same order.
pub profile_ids_of-discover_profile_ids :
    (env : Environment) (p : Text)
    → contains p (configured_profiles [] env.profile_ids) ≡ true
    → profile_ids_of env.profile_ids ≡ discover_profile_ids env
unfolding profile_ids_of discover_profile_ids
profile_ids_of-discover_profile_ids env p h =
    rw (collect_ids-configured_profiles [] env.profile_ids) (
      found_profiles p (configured_profiles [] env.profile_ids)
        (directory_profiles env.profile_entries) h)
