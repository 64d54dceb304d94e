-- ===== src/Tests/Export.antt =====
-- A concrete run of the exporter, with what the Server reads afterwards.
use hermes_link_server.Prelude.{
  Text, text, text_eq, contains, is_profile_id, ◌≡◌, refl, true, none, List, [], ◌∷◌,
}
use hermes_link_server.Json.{Json, str, obj, Fields, end, field, get_or}
use hermes_link_server.Bridge.Access.{Environment, configured_profiles, discover_profile_ids}
use hermes_link_server.Bridge.Models.{Snapshot, missing, absent, found, read_model_config}
use hermes_link_server.Export.Models.{
  Source, loaded_yaml, config_path, profile_ids_of, sync_model_config_snapshots,
}
use hermes_link_server.Export.Models.Served.{described, served, agent_of}
use hermes_link_server.Export.Models.Laws.{
  sync-read_model_config, profile_ids_of-discover_profile_ids,
}

abbrev no_repr : Json → Text
no_repr v = []

abbrev config : Fields
config =
    field "model"
      (obj (field "default" (str (text " m1 ")) (field "api_key" (str (text "secret")) end)))
      (field "agent" (obj (field "service_tier" (str (text "fast")) end)) end)

abbrev sources : Text → Source
sources path = loaded_yaml (obj config)

abbrev none_there : Text → Snapshot
none_there p = missing

abbrev ids : List Text
ids = text "home" ∷ text "work" ∷ []

work_form : is_profile_id (text "work") ≡ true
unfolding is_profile_id text
work_form = refl

work_listed : contains (text "work") ids ≡ true
unfolding contains text text_eq
work_listed = refl

sync-read_model_config_example :
    ((payload : Fields)
      → sources (config_path (text "/root/.hermes") (text "work")) ≡ loaded_yaml (obj payload)
      → read_model_config no_repr
          (sync_model_config_snapshots no_repr sources (text "/root/.hermes") ids none_there)
          (text "work")
        ≡ found (
            served no_repr
              (text "work")
              (described no_repr (get_or "model" (obj end) payload))
              (agent_of no_repr (get_or "agent" (obj end) payload))))
    × (sources (config_path (text "/root/.hermes") (text "work")) ≡ Source.unreadable
        → read_model_config no_repr
            (sync_model_config_snapshots no_repr sources (text "/root/.hermes") ids none_there)
            (text "work")
          ≡ absent)
sync-read_model_config_example =
    sync-read_model_config no_repr sources (text "/root/.hermes") ids none_there (text "work")
      work_form work_listed

abbrev host : Environment
host = record {
  agent_token = [];
  mobile_token = [];
  profile_ids = text " work" ∷ text "no/where" ∷ text "work" ∷ [];
  profile_entries = none;
}

host_run : contains (text "work") (configured_profiles [] host.profile_ids) ≡ true
unfolding configured_profiles contains is_profile_id text text_eq
host_run = refl

profile_ids_of-discover_profile_ids_example :
    profile_ids_of host.profile_ids ≡ discover_profile_ids host
profile_ids_of-discover_profile_ids_example =
    profile_ids_of-discover_profile_ids host (text "work") host_run
