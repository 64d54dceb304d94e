-- ===== src/Notifications/Cloud/About.antt =====
-- The body of a request to the Cloud, field by field.
use hermes_link_server.Prelude.{
  Text, String, false, any, Option, none, some, [], ◌∷◌, ◌≡◌, refl, ◌∙◌, arith,
}
use hermes_link_server.Json.{Json, str, int, obj, pos, Fields, end, field, get, keys}
use hermes_link_server.Attachments.{Bytes}
use hermes_link_server.Notifications.Floats.{Floats}
use hermes_link_server.Notifications.Events.{Event, is_forbidden}
use hermes_link_server.Notifications.Cloud.{given_field, text_or_none, data_fields, cloud_fields}

get_given :
    (name key : String) (s : Text) (rest : Fields)
    → get key (field name (str []) end) ≡ none
    → get key (given_field name s rest) ≡ get key rest
unfolding get
get_given name key [] rest h = refl
get_given name key (c ∷ s) rest h = ground arith

-- The value of a field that is left out where the text is empty.
abbrev pub given : Text → Option Json
given [] = none
given (c ∷ s) = some (str (c ∷ s))

any_given :
    (name : String) (s : Text) (rest : Fields)
    → is_forbidden name ≡ false
    → any is_forbidden (keys (given_field name s rest)) ≡ any is_forbidden (keys rest)
any_given name [] rest h = refl
any_given name (c ∷ s) rest h = rw h refl

module _ (sha256 : Bytes → Text) (sign : Text → Bytes → Option Text) (dumps : Json → Bytes)
    (F : Floats) where
  cloud_fields_allowed :
      (server installation occurred copy : Text) (e : Event F)
      → any is_forbidden
          (keys (cloud_fields sha256 sign dumps F server installation occurred copy e))
        ≡ false
  unfolding cloud_fields is_forbidden
  cloud_fields_allowed server installation occurred copy e =
      any_given "session_id" e.session_id _ refl
      ∙ any_given "job_id" (text_or_none e.job_id) _ refl
      ∙ any_given "run_id" e.run_id end refl

  -- The fields of the object `data`, read one by one.
  pub record IsData (server : Text) (e : Event F) (fields : Fields) : Type 0 where
    pub event_type : get "event_type" fields ≡ some (str e.event_type)
    pub event_id : get "event_id" fields ≡ some (str e.event_id)
    pub profile_id : get "profile_id" fields ≡ some (str e.profile_id)
    pub of_server : get "server_id" fields ≡ some (str server)
    pub session_id : get "session_id" fields ≡ given e.session_id
    pub job_id : get "job_id" fields ≡ given (text_or_none e.job_id)
    pub allowed : any is_forbidden (keys fields) ≡ false

  -- The fields of the body, read one by one, with the object `data` in it; no field of either is a
  -- forbidden one.
  pub record IsAbout (server installation occurred : Text) (e : Event F) (fields : Fields)
      : Type 0 where
    pub schema : get "schema_version" fields ≡ some (int (pos 2))
    pub of_server : get "server_id" fields ≡ some (str server)
    pub of_installation : get "installation_id" fields ≡ some (str installation)
    pub event_id : get "event_id" fields ≡ some (str e.event_id)
    pub event_type : get "event_type" fields ≡ some (str e.event_type)
    pub profile_id : get "profile_id" fields ≡ some (str e.profile_id)
    pub dedupe_key : get "dedupe_key" fields ≡ some (str e.dedupe_key)
    pub occurred_at : get "occurred_at" fields ≡ some (str occurred)
    pub session_id : get "session_id" fields ≡ given e.session_id
    pub job_id : get "job_id" fields ≡ given (text_or_none e.job_id)
    pub run_id : get "run_id" fields ≡ given e.run_id
    pub allowed : any is_forbidden (keys fields) ≡ false
    pub nested : Fields
    pub has_data : get "data" fields ≡ some (obj nested)
    pub about_data : IsData server e nested

  data_fields_allowed :
      (server : Text) (e : Event F)
      → any is_forbidden (keys (data_fields sha256 sign dumps F server e)) ≡ false
  unfolding data_fields is_forbidden
  data_fields_allowed server e =
      any_given "session_id" e.session_id _ refl
      ∙ any_given "job_id" (text_or_none e.job_id) end refl

  given_session :
      (s j r : Text)
      → get "session_id"
          (given_field "session_id" s (given_field "job_id" j (given_field "run_id" r end)))
        ≡ given s
  unfolding get
  given_session (c ∷ s) j r = refl
  given_session [] j r =
      get_given "job_id" "session_id" j _ refl ∙ get_given "run_id" "session_id" r end refl

  given_job :
      (s j r : Text)
      → get "job_id"
          (given_field "session_id" s (given_field "job_id" j (given_field "run_id" r end)))
        ≡ given j
  unfolding get
  given_job s (c ∷ j) r = get_given "session_id" "job_id" s _ refl
  given_job s [] r =
      get_given "session_id" "job_id" s _ refl ∙ get_given "run_id" "job_id" r end refl

  given_run :
      (s j r : Text)
      → get "run_id"
          (given_field "session_id" s (given_field "job_id" j (given_field "run_id" r end)))
        ≡ given r
  unfolding get
  given_run s j [] =
      get_given "session_id" "run_id" s _ refl ∙ get_given "job_id" "run_id" j end refl
  given_run s j (c ∷ r) =
      get_given "session_id" "run_id" s _ refl ∙ get_given "job_id" "run_id" j _ refl

  nested_session :
      (s j : Text)
      → get "session_id" (given_field "session_id" s (given_field "job_id" j end)) ≡ given s
  unfolding get
  nested_session (c ∷ s) j = refl
  nested_session [] j = get_given "job_id" "session_id" j end refl

  nested_job :
      (s j : Text)
      → get "job_id" (given_field "session_id" s (given_field "job_id" j end)) ≡ given j
  unfolding get
  nested_job s (c ∷ j) = get_given "session_id" "job_id" s _ refl
  nested_job s [] = get_given "session_id" "job_id" s _ refl

  data_fields-IsData :
      (server : Text) (e : Event F) → IsData server e (data_fields sha256 sign dumps F server e)
  unfolding data_fields get
  data_fields-IsData server e = record {
    event_type = refl;
    event_id = refl;
    profile_id = refl;
    of_server = refl;
    session_id = nested_session e.session_id (text_or_none e.job_id);
    job_id = nested_job e.session_id (text_or_none e.job_id);
    allowed = unfold data_fields in data_fields_allowed server e;
  }

  pub cloud_fields-IsAbout :
      (server installation occurred copy : Text) (e : Event F)
      → IsAbout server installation occurred e
          (cloud_fields sha256 sign dumps F server installation occurred copy e)
  unfolding cloud_fields get
  cloud_fields-IsAbout server installation occurred copy e = record {
    schema = refl;
    of_server = refl;
    of_installation = refl;
    event_id = refl;
    event_type = refl;
    profile_id = refl;
    dedupe_key = refl;
    occurred_at = refl;
    session_id = given_session e.session_id (text_or_none e.job_id) e.run_id;
    job_id = given_job e.session_id (text_or_none e.job_id) e.run_id;
    run_id = given_run e.session_id (text_or_none e.job_id) e.run_id;
    allowed = cloud_fields_allowed server installation occurred copy e;
    nested = data_fields sha256 sign dumps F server e;
    has_data = refl;
    about_data = data_fields-IsData server e;
  }
