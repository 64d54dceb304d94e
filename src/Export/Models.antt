-- ===== src/Export/Models.antt =====
-- src/hermes_link/integrations/hermes_agent/model_config_exporter.py. The snapshot files are a
-- function of the profile, as the Server reads them; the configuration files of the Agent are a
-- function of their path. Errors of writing, the owner and the mode of a file are not modelled.
pub mod Served
pub mod Laws
use hermes_link_server.Prelude.{
  ℕ, Text, text, text_eq, strip, take, contains, is_empty, is_profile_id, leb, String, Bool, true,
  false, not, ◌&&◌, Option, none, some, List, [], ◌∷◌, ◌++◌, if◌then◌else◌,
}
use hermes_link_server.Json.{
  Json, null, str, int, obj, ℤ, pos, negsuc, Fields, end, field, get_or, is_truthy, value_text,
}
use hermes_link_server.Bridge.Models.{Snapshot, missing, contents, integer_or_zero}

-- the loop of `_profile_ids`, over the parts between the commas
unfoldable pub collect_ids : List Text → List Text → List Text
unfolding strip contains
collect_ids profile_ids [] = profile_ids
collect_ids profile_ids (raw_profile_id ∷ rest) =
    let profile_id = strip raw_profile_id in
    let skipped = collect_ids profile_ids rest in
    let added = collect_ids (profile_ids ++ profile_id ∷ []) rest in
    if not (is_empty profile_id)
      && is_profile_id profile_id
      && not (contains profile_id profile_ids)
    then added
    else skipped

abbrev pub or_default : List Text → List Text
or_default [] = text "default" ∷ []
or_default (p ∷ ps) = p ∷ ps

-- `_profile_ids`
unfoldable pub profile_ids_of : List Text → List Text
unfolding collect_ids text
profile_ids_of parts = or_default (collect_ids [] parts)

-- `_config_path`
unfoldable pub config_path : Text → Text → Text
unfolding text text_eq
config_path hermes_home profile_id =
    if text_eq profile_id (text "default")
    then hermes_home ++ text "/config.yaml"
    else hermes_home ++ text "/profiles/" ++ profile_id ++ text "/config.yaml"

-- What reading a configuration file gives: an OSError, a ValueError or a YAMLError, or the value of
-- `yaml.safe_load`, as far as JSON has it.
pub data Source : Type 0 where
  unreadable : Source
  loaded_yaml : Json → Source

-- `first or second`
abbrev pub or_else : Json → Json → Json
or_else first second = if is_truthy first then first else second

-- the model, the provider and the number of tokens
pub record ModelPart : Type 0 where
  pub model : Text
  pub provider : Text
  pub max_tokens : ℤ

module _ (repr : Json → Text) where
  -- `_safe_text`
  unfoldable pub safe_text : Json → ℕ → Text
  unfolding value_text strip
  safe_text value limit = take limit (strip (value_text repr value))

  unfoldable pub model_part : Json → ModelPart
  unfolding safe_text get_or is_truthy integer_or_zero
  model_part (obj model_config) = record {
    model =
        safe_text (or_else (get_or "default" null model_config) (get_or "name" null model_config))
          200;
    provider = safe_text (get_or "provider" null model_config) 100;
    max_tokens = integer_or_zero (get_or "max_tokens" (int (pos 0)) model_config);
  }
  model_part model_config = record {
    model = safe_text model_config 200;
    provider = [];
    max_tokens = pos 0;
  }

  abbrev mapping_or_empty : Json → Fields
  mapping_or_empty (obj fields) = fields
  mapping_or_empty _ = end

  -- `_public_model_config`
  unfoldable pub public_model_config : Text → Fields → Fields
  unfolding model_part safe_text get_or
  public_model_config profile_id payload =
      let part = model_part (get_or "model" (obj end) payload) in
      let agent_config = mapping_or_empty (get_or "agent" (obj end) payload) in
      field "profile" (str profile_id) (
        field "model" (str part.model) (
          field "provider" (str part.provider) (
            field "max_tokens" (int part.max_tokens) (
              field "reasoning_effort"
                (str (safe_text (get_or "reasoning_effort" null agent_config) 20))
                (field "service_tier" (str (safe_text (get_or "service_tier" null agent_config) 20))
                  end)))))

  -- `yaml.safe_load(handle) or {}`, and the snapshot of it: `missing` where the file is removed
  unfoldable pub snapshot_of_yaml : Text → Json → Snapshot
  unfolding public_model_config
  snapshot_of_yaml profile_id (obj payload) =
      contents (obj (public_model_config profile_id payload))
  snapshot_of_yaml profile_id _ = missing

  unfoldable pub snapshot_of : Text → Source → Snapshot
  unfolding snapshot_of_yaml is_truthy
  snapshot_of profile_id unreadable = missing
  snapshot_of profile_id (loaded_yaml value) =
      snapshot_of_yaml profile_id (if is_truthy value then value else obj end)

  -- `_write_snapshot` and `_remove_snapshot`
  unfoldable pub replace_snapshot : Text → Snapshot → (Text → Snapshot) → Text → Snapshot
  unfolding text_eq
  replace_snapshot profile_id snapshot snapshots other =
      if text_eq profile_id other then snapshot else snapshots other

  -- `sync_model_config_snapshots`
  unfoldable pub sync_model_config_snapshots :
      (Text → Source) → Text → List Text → (Text → Snapshot) → Text → Snapshot
  unfolding replace_snapshot snapshot_of config_path
  sync_model_config_snapshots sources hermes_home [] snapshots = snapshots
  sync_model_config_snapshots sources hermes_home (profile_id ∷ rest) snapshots =
      let snapshot = snapshot_of profile_id (sources (config_path hermes_home profile_id)) in
      let written =
        sync_model_config_snapshots sources hermes_home rest
          (replace_snapshot profile_id snapshot snapshots) in
      let skipped = sync_model_config_snapshots sources hermes_home rest snapshots in
      if is_profile_id profile_id then written else skipped

abbrev at_least : ℕ → ℕ → ℤ → ℕ
at_least minimum default (pos value) = if leb minimum value then value else default
at_least minimum default (negsuc value) = default

-- `_environment_integer`, of a variable that may not be set; the default is at least 0 and passes
-- the test
unfoldable pub environment_integer : (Text → Option ℤ) → Option Text → ℕ → ℕ → ℕ
environment_integer parse_int none default minimum = default
environment_integer parse_int (some value) default minimum = elim (parse_int value) [
  | none ↦ default
  | some n ↦ at_least minimum default n
]
