-- ===== src/Tests/Adapter.antt =====
-- Runs of the adapter's path translation and header preparation, with `unquote` for the identity.
use hermes_link_server.Prelude.{
  Text, text, text_eq, ◌≡◌, refl, true, false, none, some, [], ◌∷◌, ◌++◌, is_profile_id, contains,
}
use hermes_link_server.Pairing.Store.{Db, authenticate_device_token, device_profile_ids}
use hermes_link_server.Pairing.Validation.{is_device_token}
use hermes_link_server.Pairing.Profiles.{load_profiles, dump_profiles}
use hermes_link_server.Adapter.Paths.{
  profile_id_for_protocol_path, protocol_exact_paths, protocol_prefix_paths, protocol_to_agent_path,
}
use hermes_link_server.Adapter.Paths.Laws.{IsAgentPath, protocol_to_agent_path-IsAgentPath}
use hermes_link_server.Adapter.Headers.{
  RequestHeaders, ok, Headers, bearer_token, is_device, authorized, forward_agent_headers,
  prepare_agent_headers,
}
use hermes_link_server.Adapter.Headers.Laws.{IsAuthorized, prepare_agent_headers_safe}

abbrev as_is : Text → Text
as_is t = t

abbrev jobs_path : Text
jobs_path = text "/hermes-link/v1/profiles/work/jobs/7/run"

path_runs : protocol_to_agent_path as_is jobs_path ≡ some (text "/p/work/api/jobs/7/run")
unfolding protocol_to_agent_path protocol_exact_paths protocol_prefix_paths is_profile_id text
    text_eq
path_runs = refl

protocol_to_agent_path-IsAgentPath_example :
    IsAgentPath as_is jobs_path (text "/p/work/api/jobs/7/run")
protocol_to_agent_path-IsAgentPath_example =
    protocol_to_agent_path-IsAgentPath as_is jobs_path (text "/p/work/api/jobs/7/run") path_runs

abbrev token : Text
token = text "hmd_dddddddddddddddddddddddddddddddddddddddd"

abbrev request : RequestHeaders
request = record {
  authorization = some (text "bearer  " ++ token);
  content_type = none;
  last_event_id = some [];
  session_id = some (text "s1");
}

abbrev paired : Db
paired = record {
  tickets = [];
  devices =
      record {
        device_id = text "dev_1";
        token_hash = token;
        base_url = text "https://hermes.example.org";
        profiles_json = dump_profiles (text "work" ∷ []);
        created_at = 10;
        last_used_at = 10;
        revoked_at = none;
      }
      ∷ [];
}

abbrev sent : Headers
sent = ("Authorization", text "Bearer agent-secret") ∷ ("X-Hermes-Session-Id", text "s1") ∷ []

request_runs :
    (prepare_agent_headers as_is as_is request jobs_path (text "agent-secret") 50 paired).0
    ≡ ok sent
unfolding prepare_agent_headers bearer_token is_device forward_agent_headers authorized
    profile_id_for_protocol_path authenticate_device_token device_profile_ids is_device_token
    load_profiles dump_profiles is_profile_id contains text text_eq
request_runs = refl

prepare_agent_headers_safe_example :
    ((is_device (bearer_token request) ≡ false)
      → prepare_agent_headers as_is as_is request jobs_path (text "agent-secret") 50 paired
        ≡ (ok (forward_agent_headers request), paired))
    × ((is_device (bearer_token request) ≡ true)
        → IsAuthorized as_is as_is request jobs_path (text "agent-secret") 50 paired sent)
prepare_agent_headers_safe_example =
    prepare_agent_headers_safe as_is as_is request jobs_path (text "agent-secret") 50 paired sent
      request_runs
