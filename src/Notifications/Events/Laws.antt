-- ===== src/Notifications/Events/Laws.antt =====
-- What a validated event is, and that validation is stable.
use hermes_link_server.Prelude.{
  Text, ◌≡◌, refl, Bool, true, false, Option, none, some, [], arith, any, String,
}
use hermes_link_server.Json.{
  Json, null, bool, int, float, str, arr, obj, Fields, end, field, get, keys,
}
use hermes_link_server.Notifications.Floats.{Floats}
use hermes_link_server.Notifications.Events.{
  ok, is_identifier, is_forbidden, is_chat, is_event_type, field_text, identifier, Event,
  created_of, subject_of, fields_of, validate_event, created_fields, job_fields, object_fields,
  to_object,
}
use hermes_link_server.Notifications.Events.Identifiers.{
  identifier-required, identifier-optional, identifier_again, optional_again, strip-event_type,
  is_optional,
}

module _ (F : Floats) where
  open F use {Real, of_json, to_json, of_json-to_json}

  -- `job_id` and `session_id` of an event: a chat has a session, any other event a job and
  -- perhaps a session.
  abbrev pub IsSubject : Bool → Option Text → Text → Type 0
  IsSubject true none session = is_identifier session ≡ true
  IsSubject true (some job) session = ⊥
  IsSubject false none session = ⊥
  IsSubject false (some job) session = (is_identifier job ≡ true) × (is_optional session ≡ true)

  pub record IsEvent (e : Event F) : Type 0 where
    pub event_id : is_identifier e.event_id ≡ true
    pub event_type : is_event_type e.event_type ≡ true
    pub profile_id : is_identifier e.profile_id ≡ true
    pub run_id : is_optional e.run_id ≡ true
    pub dedupe_key : is_identifier e.dedupe_key ≡ true
    pub subject : IsSubject (is_chat e.event_type) e.job_id e.session_id

  subject_of-IsSubject :
      (chat : Bool) (fs : Fields) (s : Option Text × Text)
      → subject_of F chat fs ≡ ok s
      → IsSubject chat s.0 s.1
  unfolding subject_of
  subject_of-IsSubject true fs (none, session) h =
      ground (arith, identifier-required "session_id" fs session)
  subject_of-IsSubject true fs (some job, session) h = ground arith
  subject_of-IsSubject false fs (none, session) h = ground arith
  subject_of-IsSubject false fs (some job, session) h =
      ground
        (arith, identifier-required "job_id" fs job, identifier-optional "session_id" fs session)

  -- The fields of an event, one equation for each, and how they were read.
  fields_of-inversion :
      (t : Text) (fs : Fields) (e : Event F)
      → fields_of F t fs ≡ ok e
      → (identifier "event_id" true fs ≡ ok e.event_id)
        × (identifier "profile_id" true fs ≡ ok e.profile_id)
        × (identifier "run_id" false fs ≡ ok e.run_id)
        × (identifier "dedupe_key" true fs ≡ ok e.dedupe_key)
        × (subject_of F (is_chat t) fs ≡ ok (e.job_id, e.session_id))
        × (e.event_type ≡ t)
  unfolding fields_of
  fields_of-inversion t fs e h = ground arith

  fields_of-IsEvent :
      (t : Text) (fs : Fields) (e : Event F)
      → is_event_type t ≡ true
      → fields_of F t fs ≡ ok e
      → IsEvent e
  fields_of-IsEvent t fs e allowed h =
      let (id, profile, run, dedupe, subject, type) = fields_of-inversion t fs e h in
      record {
        event_id = identifier-required _ fs _ id;
        event_type = rw type allowed;
        profile_id = identifier-required _ fs _ profile;
        run_id = identifier-optional _ fs _ run;
        dedupe_key = identifier-required _ fs _ dedupe;
        subject = rw type (subject_of-IsSubject (is_chat t) fs (e.job_id, e.session_id) subject);
      }

  get-job_fields :
      (k : String) (job : Option Text) (rest : Fields)
      → get k (field "job_id" (str []) end) ≡ none
      → get k (job_fields F job rest) ≡ get k rest
  unfolding job_fields get
  get-job_fields k none rest h = refl
  get-job_fields k (some j) rest h = ground arith

  job_fields_allowed :
      (job : Option Text) (created : Option Real) (s : Text)
      → any is_forbidden
          (keys (job_fields F job (field "session_id" (str s) (created_fields F created))))
        ≡ false
  unfolding job_fields created_fields is_forbidden
  job_fields_allowed none none s = refl
  job_fields_allowed none (some r) s = refl
  job_fields_allowed (some j) none s = refl
  job_fields_allowed (some j) (some r) s = refl

  object_fields_allowed : (e : Event F) → any is_forbidden (keys (object_fields F e)) ≡ false
  unfolding object_fields is_forbidden
  object_fields_allowed e = job_fields_allowed e.job_id e.created_at e.session_id

  get-session : (e : Event F) → get "session_id" (object_fields F e) ≡ some (str e.session_id)
  unfolding object_fields get
  get-session e = get-job_fields "session_id" e.job_id _ refl

  created_of-created_fields :
      (created : Option Real)
      → created_of F (get "created_at" (created_fields F created)) ≡ ok created
  unfolding created_of created_fields get
  created_of-created_fields none = refl
  created_of-created_fields (some r) = rw (of_json-to_json r)

  get-created :
      (e : Event F) → created_of F (get "created_at" (object_fields F e)) ≡ ok e.created_at
  unfolding object_fields get
  get-created e =
      rw
        (get-job_fields "created_at" e.job_id
          (field "session_id" (str e.session_id) (created_fields F e.created_at)) refl)
        (created_of-created_fields e.created_at)

  subject_again :
      (chat : Bool) (job : Option Text) (session : Text) (fs : Fields)
      → IsSubject chat job session
      → get "session_id" fs ≡ some (str session)
      → ((j : Text) → job ≡ some j → get "job_id" fs ≡ some (str j))
      → subject_of F chat fs ≡ ok (job, session)
  unfolding subject_of
  subject_again true none session fs s found _ =
      rw (identifier_again "session_id" fs session found s)
  subject_again true (some job) session fs s found _ = absurd s
  subject_again false none session fs s found _ = absurd s
  subject_again false (some job) session fs (j, s) found job_found = rw (
    identifier_again "job_id" fs job (job_found job refl) j,
    optional_again "session_id" fs session found s,
  )

  get-job :
      (e : Event F) (j : Text) → e.job_id ≡ some j → get "job_id" (object_fields F e) ≡ some (str j)
  unfolding object_fields get job_fields
  get-job e j h = rw h

  event_type-again :
      (e : Event F) → IsEvent e → field_text "event_type" (object_fields F e) ≡ e.event_type
  unfolding field_text object_fields
  event_type-again e v = strip-event_type e.event_type v.event_type

  fields_of-again : (e : Event F) → IsEvent e → fields_of F e.event_type (object_fields F e) ≡ ok e
  unfolding fields_of get
  fields_of-again e v = rw (
    identifier_again "event_id" (object_fields F e) e.event_id (unfold object_fields in refl)
        v.event_id,
    identifier_again "profile_id" (object_fields F e) e.profile_id (unfold object_fields in refl)
        v.profile_id,
    optional_again "run_id" (object_fields F e) e.run_id (unfold object_fields in refl) v.run_id,
    identifier_again "dedupe_key" (object_fields F e) e.dedupe_key (unfold object_fields in refl)
        v.dedupe_key,
    subject_again (is_chat e.event_type) e.job_id e.session_id (object_fields F e) v.subject
        (get-session e) (get-job e),
    get-created e,
  )

  pub validate-IsEvent : (v : Json) (e : Event F) → validate_event F v ≡ ok e → IsEvent e
  unfolding validate_event
  validate-IsEvent (obj fs) e h =
      fields_of-IsEvent (field_text "event_type" fs) fs e (ground arith) (ground arith)
  validate-IsEvent null e h = cc
  validate-IsEvent (bool _) e h = cc
  validate-IsEvent (int _) e h = cc
  validate-IsEvent (float _) e h = cc
  validate-IsEvent (str _) e h = cc
  validate-IsEvent (arr _) e h = cc

  validate_again : (e : Event F) → IsEvent e → validate_event F (to_object F e) ≡ ok e
  unfolding validate_event to_object
  validate_again e v =
      rw (object_fields_allowed e, event_type-again e v, v.event_type) (fields_of-again e v)

  -- An accepted payload holds no forbidden field; the event id, the profile and the
  -- dedupe key of the event match the pattern, and the run is empty or matches it. A chat event has
  -- a session that matches it and no job; every other event has a job that matches it, and a session
  -- that is empty or matches it. The event written as a
  -- JSON object is accepted again and gives the same event.
  pub validate_event_stable :
      (payload : Fields) (e : Event F)
      → validate_event F (obj payload) ≡ ok e
      → (any is_forbidden (keys payload) ≡ false)
        × IsEvent e
        × (validate_event F (to_object F e) ≡ ok e)
  unfolding validate_event
  validate_event_stable payload e h =
      let valid = validate-IsEvent (obj payload) e h in
      (ground arith, valid, validate_again e valid)
