-- ===== src/Tests/Cloud.antt =====
-- Concrete runs of the Cloud configuration and of its endpoints.
use hermes_link_server.Prelude.{
  ℕ, Text, text, text_eq, ◌≡◌, refl, Option, none, some, [], ◌∷◌, after_prefix, full_match,
  is_alnum, is_name_char, is_profile_id,
}
use hermes_link_server.Json.{Json, int, str, Fields, end, field, document, malformed, ℤ, pos, obj}
use hermes_link_server.Adapter.Headers.{
  RequestHeaders, bearer_token, is_device, server_agent_token, prepare_agent_headers,
  forward_agent_headers,
}
use hermes_link_server.Identity.{
  Result, ok, err, value_error, Url, Identity, CloudConfig, Files, configure_cloud, is_server_id,
  is_installation_id, validate_server_id, is_https_origin, validate_cloud_url,
  validate_installation_id,
}
use hermes_link_server.Identity.Laws.{IsConfigured, configure_cloud-IsConfigured}
use hermes_link_server.Bridge.Access.{
  Environment, Body, is_ascii, compare_server_token, answered, discover_profile_ids,
  authorize_model_config,
}
use hermes_link_server.Bridge.Cloud.{
  State, get_cloud_identity, post_cloud_attestation, post_cloud_configure, delete_cloud_configure,
}
use hermes_link_server.Bridge.Models.{
  Snapshot, contents, send_model_config, model_answer, read_model_config, bounded_field,
}
use hermes_link_server.Bridge.Models.Laws.{IsServed, send_model_config-IsServed}
use hermes_link_server.Bridge.Cloud.Laws.{IsGuarded, cloud_endpoints-IsGuarded}

abbrev https : Text → Url
https s = record {
  scheme = text "https";
  hostname = some s;
  username = none;
  password = none;
  query = [];
  fragment = [];
}

abbrev key_length : Text → Option ℕ
key_length s = some 32

abbrev own : Identity
own = record {
  server_id = text "server_0123456789abcdef0123456789abcdef";
  public_key = text "k";
  private_key_pem = text "pem";
}

abbrev files : Files
files = record { identity = none; config = some malformed }

abbrev request : Fields
request =
    field "cloud_url" (str (text "https://cloud.example.org/"))
      (field "installation_id" (str (text "phone-1")) end)

abbrev config : CloudConfig
config = record {
  cloud_url = text "https://cloud.example.org";
  installation_id = text "phone-1";
  server_id = text "server_0123456789abcdef0123456789abcdef";
}

configure_run : (configure_cloud https key_length request own files).0 ≡ ok config
unfolding configure_cloud text text_eq is_server_id is_installation_id after_prefix full_match
    is_alnum is_name_char is_https_origin validate_server_id validate_cloud_url
    validate_installation_id
configure_run = refl

configure_cloud-IsConfigured_example :
    IsConfigured https key_length request own files config
      (configure_cloud https key_length request own files).1
configure_cloud-IsConfigured_example =
    configure_cloud-IsConfigured https key_length request own files config configure_run

abbrev as_is : Text → Text
as_is s = s

abbrev host : Environment
host = record {
  agent_token = text "agent-token";
  mobile_token = [];
  profile_ids = text "work" ∷ [];
  profile_entries = none;
}

-- a request with a token that is not the Server's
abbrev wrong : RequestHeaders
wrong = record {
  authorization = some (text "Bearer agent-token2");
  content_type = none;
  last_event_id = none;
  session_id = none;
}

abbrev state : State
state = record { db = record { tickets = []; devices = [] }; files = files }

abbrev body : Body
body = record { content_length = some (pos 80); content = document (obj request) }

abbrev no_int : Text → Option ℤ
no_int s = none

abbrev no_key : Text → Fields → Result Text
no_key pem fs = err (value_error "no key")

cloud_endpoints-IsGuarded_example :
    IsGuarded as_is as_is host https key_length no_int no_key wrong 10 state
      (get_cloud_identity as_is as_is host https key_length no_int no_key wrong 10 own state)
    × IsGuarded as_is as_is host https key_length no_int no_key wrong 10 state (
        post_cloud_attestation as_is as_is host https key_length no_int no_key wrong 10
          (text "r")
          own
          body
          state)
    × IsGuarded as_is as_is host https key_length no_int no_key wrong 10 state (
        post_cloud_configure as_is as_is host https key_length no_int no_key wrong 10 own body
          state)
    × IsGuarded as_is as_is host https key_length no_int no_key wrong 10 state
        (delete_cloud_configure as_is as_is host https key_length no_int no_key wrong 10 state)
cloud_endpoints-IsGuarded_example =
    cloud_endpoints-IsGuarded as_is as_is host https key_length no_int no_key wrong 10 (text "r")
      own body state

abbrev granted_headers : RequestHeaders
granted_headers = record {
  authorization = some (text "Bearer agent-token");
  content_type = none;
  last_event_id = none;
  session_id = none;
}

abbrev models_path : Text
models_path = text "/hermes-link/v1/profiles/work/models/config"

abbrev snapshot : Fields
snapshot = field "model" (str (text " m1 ")) (field "api_key" (str (text "secret")) end)

abbrev snapshots : Text → Snapshot
snapshots p = contents (obj snapshot)

abbrev no_repr : Json → Text
no_repr v = []

abbrev served : Json
served = obj (
    field "profile" (str (text "work")) (
      field "model" (str (text "m1")) (
        field "provider" (str []) (
          field "max_tokens" (int (pos 0))
            (field "reasoning_effort" (str []) (field "service_tier" (str []) end))))))

served_run :
    (send_model_config as_is as_is host no_repr snapshots granted_headers
      (text "work")
      models_path
      10
      state.db).0
    ≡ answered served
unfolding send_model_config authorize_model_config text text_eq bearer_token is_device
    server_agent_token compare_server_token is_ascii discover_profile_ids is_profile_id
    prepare_agent_headers forward_agent_headers model_answer read_model_config bounded_field
served_run = refl

send_model_config-IsServed_example :
    IsServed as_is as_is host no_repr snapshots granted_headers
      (text "work")
      models_path
      10
      state.db
      served
send_model_config-IsServed_example =
    send_model_config-IsServed as_is as_is host no_repr snapshots granted_headers (text "work")
      models_path 10 state.db served served_run
