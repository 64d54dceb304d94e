-- ===== src/Tests/Sender.antt =====
-- A concrete event that is sent to the Cloud.
use hermes_link_server.Prelude.{
  ℕ, Text, text, text_eq, ◌≡◌, refl, Option, none, some, [], after_prefix, full_match, is_alnum,
  is_name_char,
}
use hermes_link_server.Json.{Json, str, end, field, document, obj, get}
use hermes_link_server.Attachments.{Bytes}
use hermes_link_server.Identity.{
  Url, Identity, CloudConfig, Files, load_cloud_config, get_or_create_identity, config_document,
  is_server_id, validate_server_id,
}
use hermes_link_server.Identity
use hermes_link_server.Notifications.Floats.{whole_seconds}
use hermes_link_server.Notifications.Events.{
  validate_event, field_text, identifier, is_identifier, is_event_type, is_forbidden,
}
use hermes_link_server.Notifications.Cloud.{CloudRequest, sent, publish_cloud_event}
use hermes_link_server.Notifications.Cloud.Laws.{IsSigned, publish_cloud_event-IsSigned}

abbrev https : Text → Url
https s = record {
  scheme = text "https";
  hostname = some s;
  username = none;
  password = none;
  query = [];
  fragment = [];
}

abbrev key_length : Text → Option ℕ
key_length s = some 32

abbrev own : Identity
own = record {
  server_id = text "server_0123456789abcdef0123456789abcdef";
  public_key = text "k";
  private_key_pem = text "pem";
}

abbrev config : CloudConfig
config = record {
  cloud_url = text "https://cloud.example.org";
  installation_id = text "phone-1";
  server_id = text "server_0123456789abcdef0123456789abcdef";
}

abbrev files : Files
files = record { identity = none; config = some (document (obj (config_document config))) }

abbrev hash : Bytes → Text
hash b = text "h"

abbrev sign : Text → Bytes → Option Text
sign pem message = some (text "ed25519:s")

abbrev dumps : Json → Bytes
dumps v = text "{}"

abbrev payload : Json
payload = obj (
    field "event_id" (str (text "evt_1")) (
      field "event_type" (str (text "chat.completed")) (
        field "profile_id" (str (text "work"))
          (field "session_id" (str (text "s:1")) (field "dedupe_key" (str (text "chat:1")) end)))))

abbrev request : CloudRequest
request = record {
  url = text "https://cloud.example.org/v1/events";
  body = text "{}";
  server = own.server_id;
  timestamp = text "1700000000";
  nonce = text "n_1";
  signature = text "ed25519:s";
}

publish_run :
    (publish_cloud_event hash sign dumps whole_seconds https key_length own [] payload
      (text "now")
      (text "1700000000")
      (text "n_1")
      files).0
    ≡ sent request
unfolding publish_cloud_event config_document validate_server_id is_server_id after_prefix
    full_match is_alnum is_name_char validate_event field_text identifier is_identifier
    is_event_type is_forbidden get text text_eq
publish_run = refl

publish_cloud_event-IsSigned_example :
    (bound : CloudConfig) × (identity : Identity) × (load_cloud_config files ≡ some bound)
    × ((get_or_create_identity https key_length own files).0 ≡ Identity.ok identity)
    × (bound.server_id ≡ identity.server_id)
    × IsSigned hash sign dumps whole_seconds https identity.server_id identity.private_key_pem
        bound.installation_id
        (text "now")
        payload
        (text "1700000000")
        (text "n_1")
        request
publish_cloud_event-IsSigned_example =
    publish_cloud_event-IsSigned hash sign dumps whole_seconds https key_length own [] payload
      (text "now") (text "1700000000") (text "n_1") files request publish_run
