-- ===== src/Notifications/Cloud.antt =====
-- src/hermes_link/notifications/cloud_sender.py, and `_publish_cloud_event` of
-- integrations/hermes_agent/bridge.py. The clock, the nonce, SHA-256, the printing of JSON as UTF-8
-- and the signature are parameters, and so is `urlopen`. The timeout is left out.
pub mod About
pub mod Laws
use hermes_link_server.Prelude.{
  ℕ, Text, text, text_eq, strip, rstrip, is_empty, String, Bool, true, false, not, ◌&&◌, ◌||◌, ◌==◌,
  Option, none, some, List, [], ◌∷◌, ◌++◌, if◌then◌else◌,
}
use hermes_link_server.Json.{
  Json, str, int, obj, pos, Fields, end, field, JsonText, document, malformed,
}
use hermes_link_server.Attachments.{Bytes}
use hermes_link_server.Identity.{
  Url, Identity, CloudConfig, Files, load_cloud_config, get_or_create_identity,
}
use hermes_link_server.Identity
use hermes_link_server.Notifications.Floats.{Floats}
use hermes_link_server.Notifications.Events.{Event, EventError, validate_event, is_chat}
use hermes_link_server.Notifications.Events

-- What `publish` and the constructor raise.
pub data SendError : Type 0 where
  event_invalid : EventError → SendError
  not_configured run_id_required base_url_invalid copy_missing signing_failed : SendError
  http_status : ℕ → SendError
  cloud_unavailable : SendError

pub data Sent {ℓ} (Value : Type ℓ) : Type ℓ where
  not_sent : SendError → Sent Value
  sent : Value → Sent Value

infixl 5 ◌>>=◌
abbrev pub ◌>>=◌ {ℓ κ} :
    {Value : Type ℓ} {Later : Type κ} → Sent Value → (Value → Sent Later) → Sent Later
not_sent why >>= later = not_sent why
sent value >>= later = later value

-- The `Request`, with its constant method and headers left out.
pub record CloudRequest : Type 0 where
  pub url : Text
  pub body : Bytes
  pub server : Text
  pub timestamp : Text
  pub nonce : Text
  pub signature : Text

-- What `urlopen` gives: an HTTPError, another error, or at most 65536 bytes; none is no byte.
pub data CloudReply : Type 0 where
  http_error : ℕ → CloudReply
  no_answer : CloudReply
  answered : Option JsonText → CloudReply

abbrev pub is_given : Option Text → Bool
is_given none = false
is_given (some s) = not (is_empty s)

-- A base URL that is no HTTPS origin.
unfoldable pub is_bad_base : Url → Bool
unfolding text text_eq
is_bad_base parsed =
    not (text_eq parsed.scheme (text "https"))
    || not (is_given parsed.hostname)
    || is_given parsed.username
    || is_given parsed.password

-- `CloudEventSender.__init__`: the base URL
unfoldable pub sender_base : (Text → Url) → Text → Sent Text
unfolding rstrip is_bad_base
sender_base urlparse base_url =
    let base = rstrip (λ c. c == b'/') base_url in
    if is_bad_base (urlparse base) then not_sent base_url_invalid else sent base

-- `NOTIFICATION_COPY`; a missing key is a KeyError
unfoldable pub notification_copy : Text → Sent Text
unfolding text text_eq is_chat
notification_copy event_type =
    if is_chat event_type
    then sent (text "Chat completed")
    else if text_eq event_type (text "job.completed")
    then sent (text "Scheduled task completed")
    else if text_eq event_type (text "job.failed")
    then sent (text "Scheduled task failed")
    else not_sent copy_missing

-- `if str(event.get(name, "")): …[name] = …`
abbrev pub given_field : String → Text → Fields → Fields
given_field name [] rest = rest
given_field name (c ∷ s) rest = field name (str (c ∷ s)) rest

abbrev pub text_or_none : Option Text → Text
text_or_none none = []
text_or_none (some s) = s

module _ (sha256 : Bytes → Text) (sign : Text → Bytes → Option Text) (dumps : Json → Bytes) where
  -- `_signature_message`
  unfoldable pub signature_message : Text → Text → Bytes → Bytes
  unfolding text
  signature_message timestamp nonce body =
      text "POST\n/v1/events\n" ++ timestamp ++ text "\n" ++ nonce ++ text "\n" ++ sha256 body

  -- `_sign`
  unfoldable pub event_signature : Text → Text → Text → Bytes → Sent Text
  unfolding signature_message
  event_signature private_key_pem timestamp nonce body =
      elim (sign private_key_pem (signature_message timestamp nonce body)) [
        | none ↦ not_sent signing_failed
        | some signature ↦ sent signature
      ]

  module _ (F : Floats) where
    -- the dictionary `data`
    unfoldable pub data_fields : Text → Event F → Fields
    data_fields server_id e = field "event_type" (str e.event_type) (
        field "event_id" (str e.event_id) (
          field "profile_id" (str e.profile_id) (
            field "server_id" (str server_id) (
              given_field "session_id" e.session_id
                (given_field "job_id" (text_or_none e.job_id) end)))))

    -- the dictionary `cloud_event`
    unfoldable pub cloud_fields : Text → Text → Text → Text → Event F → Fields
    unfolding text data_fields
    cloud_fields server_id installation_id occurred_at copy e =
        field "schema_version" (int (pos 2)) (
          field "server_id" (str server_id) (
            field "event_id" (str e.event_id) (
              field "event_type" (str e.event_type) (
                field "profile_id" (str e.profile_id) (
                  field "occurred_at" (str occurred_at) (
                    field "dedupe_key" (str e.dedupe_key) (
                      field "title" (str (text "Hermes Link")) (
                        field "body" (str copy) (
                          field "data" (obj (data_fields server_id e)) (
                            field "installation_id" (str installation_id) (
                              given_field "session_id" e.session_id (
                                given_field "job_id" (text_or_none e.job_id)
                                  (given_field "run_id" e.run_id end)))))))))))))

    unfoldable pub valid_event : Events.Result (Event F) → Sent (Event F)
    valid_event (Events.err e) = not_sent (event_invalid e)
    valid_event (Events.ok e) = sent e

    unfoldable pub checked_run : Event F → Sent (Event F)
    unfolding is_chat
    checked_run e =
        if not (is_chat e.event_type) && is_empty e.run_id then not_sent run_id_required else sent e

    -- `publish`, up to `urlopen`: the base, the Server id and the key of the sender
    unfoldable pub signed_request :
        Text → Text → Text → Json → Text → Text → Text → Text → Sent CloudRequest
    unfolding text validate_event valid_event checked_run notification_copy cloud_fields
        event_signature
    signed_request base server_id private_key_pem payload installation_id occurred_at timestamp
          nonce =
        valid_event (validate_event F payload) >>= λ e. checked_run e >>= λ e.
        notification_copy e.event_type >>= λ copy.
        let body = dumps (obj (cloud_fields server_id installation_id occurred_at copy e)) in
        event_signature private_key_pem timestamp nonce body >>= λ signature. sent (record {
          url = base ++ text "/v1/events";
          body = body;
          server = server_id;
          timestamp = timestamp;
          nonce = nonce;
          signature = signature;
        })

    -- the reading of the answer
    unfoldable pub decoded_reply : CloudReply → Sent Fields
    decoded_reply (http_error status) = not_sent (http_status status)
    decoded_reply no_answer = not_sent cloud_unavailable
    decoded_reply (answered none) = sent end
    decoded_reply (answered (some malformed)) = not_sent cloud_unavailable
    decoded_reply (answered (some (document (obj fields)))) = sent fields
    decoded_reply (answered (some (document _))) = sent end

    module _ (urlparse : Text → Url) (decoded_length : Text → Option ℕ) where
      -- the request for a configuration and the identity
      unfoldable pub request_for :
          CloudConfig
          → Identity.Result Identity
          → Text
          → Json
          → Text
          → Text
          → Text
          → Sent CloudRequest
      unfolding text_eq sender_base signed_request
      request_for config (Identity.err e) outbound_url payload occurred_at timestamp nonce =
          not_sent not_configured
      request_for config (Identity.ok identity) outbound_url payload occurred_at timestamp nonce =
          if text_eq config.server_id identity.server_id
          then (sender_base urlparse
                (if is_empty outbound_url then config.cloud_url else outbound_url)
              >>= λ base.
                  signed_request base identity.server_id identity.private_key_pem payload
                    config.installation_id occurred_at timestamp nonce)
          else not_sent not_configured

      unfoldable pub publish_configured :
          Option CloudConfig
          → Identity
          → Text
          → Json
          → Text
          → Text
          → Text
          → Files
          → Sent CloudRequest × Files
      unfolding request_for get_or_create_identity strip
      publish_configured none new outbound_url payload occurred_at timestamp nonce files =
          (not_sent not_configured, files)
      publish_configured (some config) new outbound_url payload occurred_at timestamp nonce files =
          let (identity, files') = get_or_create_identity urlparse decoded_length new files in
          (
            request_for config identity (strip outbound_url) payload occurred_at timestamp nonce,
            files',
          )

      -- `_publish_cloud_event` up to `urlopen`: the request, or the error that it drops
      unfoldable pub publish_cloud_event :
          Identity → Text → Json → Text → Text → Text → Files → Sent CloudRequest × Files
      unfolding publish_configured load_cloud_config
      publish_cloud_event new outbound_url payload occurred_at timestamp nonce files =
          publish_configured (load_cloud_config files) new outbound_url payload occurred_at
            timestamp nonce files
