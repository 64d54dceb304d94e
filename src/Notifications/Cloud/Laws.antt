-- ===== src/Notifications/Cloud/Laws.antt =====
-- What is sent to the Cloud.
use hermes_link_server.Prelude.{
  ℕ, Text, text, text_eq, text_eq_sound, strip, rstrip, is_empty, Bool, true, false, not, ◌&&◌,
  ◌||◌, ◌==◌, Option, none, some, ◌++◌, ◌≡◌, inl, inr, refl, sym, ap, ◌∙◌, arith, Bool-cases,
  if◌then◌else◌,
}
use hermes_link_server.Json.{Json, obj, Fields}
use hermes_link_server.Attachments.{Bytes}
use hermes_link_server.Identity.{
  Url, Identity, CloudConfig, Files, load_cloud_config, get_or_create_identity,
}
use hermes_link_server.Identity
use hermes_link_server.Notifications.Floats.{Floats}
use hermes_link_server.Notifications.Events.{Event, validate_event, is_chat, is_forbidden}
use hermes_link_server.Notifications.Events
use hermes_link_server.Notifications.Cloud.About.{IsAbout, cloud_fields-IsAbout}
use hermes_link_server.Notifications.Cloud.{
  SendError, Sent, not_sent, sent, ◌>>=◌, CloudRequest, is_bad_base, sender_base, notification_copy,
  signature_message, event_signature, cloud_fields, valid_event, checked_run, signed_request,
  request_for, publish_configured, publish_cloud_event,
}

sent_then {ℓ κ μ} :
    {A : Type ℓ} {B : Type κ} {Goal : Type μ} (first : Sent A) (later : A → Sent B) {b : B}
    → first >>= later ≡ sent b
    → ((a : A) → first ≡ sent a → later a ≡ sent b → Goal)
    → Goal
sent_then (not_sent why) later h k = cc
sent_then (sent a) later h k = k a refl h

sent_injective {ℓ} : {A : Type ℓ} {a b : A} → sent a ≡ sent b → a ≡ b
sent_injective h = cc

if_sent {ℓ} :
    {A : Type ℓ} (b : Bool) (why : SendError) (x : Sent A) (a : A)
    → (if b then not_sent why else x) ≡ sent a
    → (b ≡ false) × (x ≡ sent a)
if_sent true why x a h = cc
if_sent false why x a h = (refl, h)

sender_base_sound :
    (urlparse : Text → Url) (url base : Text)
    → sender_base urlparse url ≡ sent base
    → is_bad_base (urlparse base) ≡ false
unfolding sender_base
sender_base_sound urlparse url base h =
    let (good, same) = if_sent (is_bad_base (urlparse (rstrip (λ c. c == b'/') url))) _ _ base h in
    ap (λ b. is_bad_base (urlparse b)) (sym (sent_injective same)) ∙ good

-- What is signed: the method and the path, the time, the nonce and the hash of the body.
abbrev pub signed_text : (Bytes → Text) → Text → Text → Bytes → Bytes
signed_text sha256 timestamp nonce body =
    text "POST\n/v1/events\n" ++ timestamp ++ text "\n" ++ nonce ++ text "\n" ++ sha256 body

module _ (sha256 : Bytes → Text) (sign : Text → Bytes → Option Text) (dumps : Json → Bytes)
    (F : Floats) where
  event_signature_sound :
      (pem timestamp nonce : Text) (body : Bytes) (signature : Text)
      → event_signature sha256 sign dumps pem timestamp nonce body ≡ sent signature
      → sign pem (signed_text sha256 timestamp nonce body) ≡ some signature
  unfolding event_signature signature_message
  event_signature_sound pem timestamp nonce body signature h =
      by_signature (sign pem (signed_text sha256 timestamp nonce body)) h
    where
      by_signature :
          (o : Option Text)
          → (elim o [ none ↦ not_sent SendError.signing_failed | some s ↦ sent s ]) ≡ sent signature
          → o ≡ some signature
      by_signature none k = cc
      by_signature (some s) k = cc

  valid_event_sound :
      (r : Events.Result (Event F)) (e : Event F)
      → valid_event sha256 sign dumps F r ≡ sent e
      → r ≡ Events.ok e
  unfolding valid_event
  valid_event_sound (Events.ok a) e h = cc
  valid_event_sound (Events.err a) e h = cc

  -- An event that is sent names a run, or is that of a chat.
  checked_run_sound :
      (a e : Event F)
      → checked_run sha256 sign dumps F a ≡ sent e
      → (a ≡ e) × ((is_chat e.event_type || not (is_empty e.run_id)) ≡ true)
  unfolding checked_run
  checked_run_sound a e h =
      let (named, same) = if_sent (not (is_chat a.event_type) && is_empty a.run_id) _ _ e h in
      let equal = sent_injective same in
      (equal, ap (λ x. is_chat x.event_type || not (is_empty x.run_id)) (sym equal) ∙ ground arith)

  -- A request: it goes to an HTTPS origin, its body is that of a valid event and holds no forbidden
  -- field, and its signature covers the time, the nonce and the body.
  pub record IsSigned (urlparse : Text → Url) (server_id pem installation occurred : Text)
      (payload : Json) (timestamp nonce : Text) (r : CloudRequest) : Type 0 where
    pub base : Text
    pub event : Event F
    pub origin : is_bad_base (urlparse base) ≡ false
    pub url : r.url ≡ base ++ text "/v1/events"
    pub valid : validate_event F payload ≡ Events.ok event
    pub named : (is_chat event.event_type || not (is_empty event.run_id)) ≡ true
    pub server : r.server ≡ server_id
    pub fields : Fields
    pub body : r.body ≡ dumps (obj fields)
    pub about : IsAbout sha256 sign dumps F server_id installation occurred event fields
    pub signature : sign pem (signed_text sha256 r.timestamp r.nonce r.body) ≡ some r.signature
    pub at_time : r.timestamp ≡ timestamp
    pub with_nonce : r.nonce ≡ nonce

  signed_request-IsSigned :
      (urlparse : Text → Url) (base server_id pem : Text) (payload : Json)
      (installation occurred timestamp nonce : Text) (r : CloudRequest)
      → is_bad_base (urlparse base) ≡ false
      → signed_request sha256 sign dumps F base server_id pem payload installation occurred
          timestamp nonce
        ≡ sent r
      → IsSigned urlparse server_id pem installation occurred payload timestamp nonce r
  unfolding signed_request
  signed_request-IsSigned urlparse base server_id pem payload installation occurred timestamp nonce
        r good h =
      sent_then (valid_event sha256 sign dumps F (validate_event F payload)) _ h λ a e h1.
        sent_then (checked_run sha256 sign dumps F a) _ h1 λ event e1 h2.
          sent_then (notification_copy event.event_type) _ h2 λ copy e2 h3.
            sent_then
              (event_signature sha256 sign dumps pem timestamp nonce (
                dumps (
                  obj
                    (cloud_fields sha256 sign dumps F server_id installation occurred copy event))))
              _ h3
              λ signature e3 h4.
                let (same, named) = checked_run_sound a event e1 in
                let made = sym (sent_injective h4) in
                rw made (record {
                  base = base;
                  event = event;
                  origin = good;
                  url = refl;
                  valid = valid_event_sound (validate_event F payload) a e ∙ ap Events.ok same;
                  named = named;
                  server = refl;
                  fields =
                      cloud_fields sha256 sign dumps F server_id installation occurred copy event;
                  body = refl;
                  about =
                      cloud_fields-IsAbout sha256 sign dumps F server_id installation occurred copy
                        event;
                  at_time = refl;
                  with_nonce = refl;
                  signature = event_signature_sound pem timestamp nonce _ signature e3;
                })

  module _ (urlparse : Text → Url) (decoded_length : Text → Option ℕ) where
    request_for-IsSigned :
        (config : CloudConfig) (own : Identity.Result Identity) (outbound : Text) (payload : Json)
        (occurred timestamp nonce : Text) (r : CloudRequest)
        → request_for sha256 sign dumps F urlparse decoded_length config own outbound payload
            occurred timestamp nonce
          ≡ sent r
        → (identity : Identity) × (own ≡ Identity.ok identity)
          × (config.server_id ≡ identity.server_id)
          × IsSigned urlparse identity.server_id identity.private_key_pem config.installation_id
              occurred payload timestamp nonce r
    unfolding request_for
    request_for-IsSigned config (Identity.err e) outbound payload occurred timestamp nonce r h = cc
    request_for-IsSigned config (Identity.ok identity) outbound payload occurred timestamp nonce r
          h =
        elim (Bool-cases (text_eq config.server_id identity.server_id)) [
          | inl same ↦
              sent_then
                (sender_base urlparse (if is_empty outbound then config.cloud_url else outbound)) _
                (rw same at h)
                λ base e h1. (
                  identity,
                  refl,
                  text_eq_sound config.server_id identity.server_id same,
                  signed_request-IsSigned urlparse base identity.server_id identity.private_key_pem
                      payload config.installation_id occurred timestamp nonce r
                      (sender_base_sound urlparse
                        (if is_empty outbound then config.cloud_url else outbound) base e)
                      h1,
                )
          | inr differs ↦ cc (rw differs at h)
        ]

    -- An event is sent to the Cloud only under a stored configuration that names the Server's own
    -- identity, to an HTTPS origin without credentials. The event is one that `validate_event`
    -- accepts, and names its run if it is not that of a chat. The body holds the texts of this event,
    -- the Server id and the installation, the object `data` in it holds those of the event and the
    -- Server id, and neither has a forbidden field. The signature with the Server's key is over the method and the path, the given time and
    -- nonce, and the hash of this body.
    pub publish_cloud_event-IsSigned :
        (new : Identity) (outbound : Text) (payload : Json) (occurred timestamp nonce : Text)
        (files : Files) (r : CloudRequest)
        → (publish_cloud_event sha256 sign dumps F urlparse decoded_length new outbound payload
            occurred timestamp nonce files).0
          ≡ sent r
        → (config : CloudConfig) × (identity : Identity) × (load_cloud_config files ≡ some config)
          × ((get_or_create_identity urlparse decoded_length new files).0 ≡ Identity.ok identity)
          × (config.server_id ≡ identity.server_id)
          × IsSigned urlparse identity.server_id identity.private_key_pem config.installation_id
              occurred payload timestamp nonce r
    unfolding publish_cloud_event
    publish_cloud_event-IsSigned new outbound payload occurred timestamp nonce files r h =
        by_config (load_cloud_config files) refl h
      where
        by_config :
            (o : Option CloudConfig)
            → load_cloud_config files ≡ o
            → (publish_configured sha256 sign dumps F urlparse decoded_length o new outbound payload
                occurred timestamp nonce files).0
              ≡ sent r
            → (config : CloudConfig) × (identity : Identity) × (load_cloud_config files
                ≡ some config)
              × ((get_or_create_identity urlparse decoded_length new files).0
                  ≡ Identity.ok identity)
              × (config.server_id ≡ identity.server_id)
              × IsSigned urlparse identity.server_id identity.private_key_pem config.installation_id
                  occurred payload timestamp nonce r
        by_config none e k = cc
        by_config (some config) e k =
            let (identity, own, same, is_signed) =
              request_for-IsSigned config
                (get_or_create_identity urlparse decoded_length new files).0 (strip outbound)
                payload occurred timestamp nonce r k in
            (config, identity, e, own, same, is_signed)
