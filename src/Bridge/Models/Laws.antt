-- ===== src/Bridge/Models/Laws.antt =====
-- Who is answered with a model configuration, and what it can hold.
use hermes_link_server.Prelude.{
  ℕ, Text, ◌≡◌, refl, sym, ap, ◌∙◌, ◌≢◌, strip, take, String, true, false, contains, is_profile_id,
  Bool, Option, none, some, List, arith, if◌then◌else◌,
}
use hermes_link_server.Json.{
  Json, null, bool, int, float, str, arr, obj, pos, Fields, end, field, get_or, value_text,
}
use hermes_link_server.Pairing.Store.{Db}
use hermes_link_server.Adapter.Headers.{RequestHeaders, Result, ok, err}
use hermes_link_server.Bridge.Access.{
  Environment, Answer, answered, discover_profile_ids, authorize_model_config, model_access,
}
use hermes_link_server.Bridge.Models.{
  Snapshot, missing, unreadable, contents, absent, bounded_field, integer_or_zero, model_fields,
  read_snapshot, read_model_config, model_answer, model_for, not_found, send_model_config,
}

answered_injective : {v w : Json} → answered v ≡ answered w → v ≡ w
answered_injective h = cc

module _ (sha256 unquote : Text → Text) (env : Environment) (repr : Json → Text) where
  -- A text of the snapshot, stripped and cut.
  abbrev text_of : ℕ → String → Fields → Text
  text_of limit name payload = take limit (strip (value_text repr (get_or name null payload)))

  -- The six fields of a profile's snapshot.
  abbrev pub configuration : Text → Fields → Fields
  configuration profile_id payload = field "profile" (str profile_id) (
      field "model" (str (text_of 200 "model" payload)) (
        field "provider" (str (text_of 100 "provider" payload)) (
          field "max_tokens" (int (integer_or_zero (get_or "max_tokens" (int (pos 0)) payload))) (
            field "reasoning_effort" (str (text_of 20 "reasoning_effort" payload))
              (field "service_tier" (str (text_of 20 "service_tier" payload)) end)))))

  model_fields-configuration :
      (profile_id : Text) (payload : Fields)
      → model_fields repr profile_id payload ≡ configuration profile_id payload
  unfolding model_fields bounded_field
  model_fields-configuration profile_id payload = refl

  -- A configuration that is served.
  pub record IsServed (snapshots : Text → Snapshot) (headers : RequestHeaders)
      (profile_id path : Text) (now : ℕ) (db : Db) (value : Json) : Type 0 where
    pub payload : Fields
    pub authorized : (authorize_model_config sha256 unquote env headers path now db).0 ≡ none
    pub visible : contains profile_id (discover_profile_ids env) ≡ true
    pub stored : snapshots profile_id ≡ contents (obj payload)
    pub served : value ≡ obj (configuration profile_id payload)

  read_snapshot_answer :
      (p : Text) (s : Snapshot) (value : Json)
      → model_answer (read_snapshot repr p s) ≡ answered value
      → (payload : Fields) × (s ≡ contents (obj payload)) × (value ≡ obj (configuration p payload))
  unfolding read_snapshot model_answer
  read_snapshot_answer p missing value h = cc
  read_snapshot_answer p unreadable value h = cc
  read_snapshot_answer p (contents (obj fs)) value h =
      (fs, refl, sym (answered_injective h) ∙ ap obj (model_fields-configuration p fs))
  read_snapshot_answer p (contents null) value h = cc
  read_snapshot_answer p (contents (bool _)) value h = cc
  read_snapshot_answer p (contents (int _)) value h = cc
  read_snapshot_answer p (contents (float _)) value h = cc
  read_snapshot_answer p (contents (str _)) value h = cc
  read_snapshot_answer p (contents (arr _)) value h = cc

  read_model_answer :
      (p : Text) (b : Bool) (s : Snapshot) (value : Json)
      → model_answer (if b then read_snapshot repr p s else absent) ≡ answered value
      → model_answer (read_snapshot repr p s) ≡ answered value
  unfolding model_answer
  read_model_answer p true s value h = h
  read_model_answer p false s value h = cc

  served_if :
      (b : Bool) (a : Answer) (value : Json)
      → (if b then a else not_found) ≡ answered value
      → (b ≡ true) × (a ≡ answered value)
  served_if true a value h = (refl, h)
  served_if false a value h = cc

  model_for-IsServed :
      (snapshots : Text → Snapshot) (headers : RequestHeaders) (profile_id path : Text) (now : ℕ)
      (db : Db) (value : Json) (refusal : Option Answer)
      → (authorize_model_config sha256 unquote env headers path now db).0 ≡ refusal
      → (refusal ≢ some (answered value))
      → model_for sha256 unquote env repr refusal snapshots profile_id ≡ answered value
      → IsServed snapshots headers profile_id path now db value
  unfolding model_for read_model_config
  model_for-IsServed snapshots headers p path now db value (some a) e n h = elim (n (ap some h)) [ ]
  model_for-IsServed snapshots headers p path now db value none e n h =
      let (v, h') = served_if (contains p (discover_profile_ids env)) _ value h in
      let h'' = read_model_answer p (is_profile_id p) (snapshots p) value h' in
      let (payload, stored, served) = read_snapshot_answer p (snapshots p) value h'' in
      record { payload = payload; authorized = e; visible = v; stored = stored; served = served }

  refusal_of_access :
      (headers : RequestHeaders) (r : Result (List (String × Text))) (value : Json)
      → model_access sha256 unquote env headers r ≢ some (answered value)
  unfolding model_access
  refusal_of_access headers (err e) value = λ h. cc
  refusal_of_access headers (ok hs) value = λ h. ground arith

  -- A model configuration is served only to a request that is authorized for its path, for a
  -- profile that the Server shows and whose snapshot is a JSON object. It holds the profile id, the
  -- fields `model`, `provider`, `reasoning_effort` and `service_tier` of the snapshot, stripped and
  -- cut to 200, 100, 20 and 20 characters, and its `max_tokens`, or 0 if that is no integer, and
  -- nothing else.
  pub send_model_config-IsServed :
      (snapshots : Text → Snapshot) (headers : RequestHeaders) (profile_id path : Text) (now : ℕ)
      (db : Db) (value : Json)
      → (send_model_config sha256 unquote env repr snapshots headers profile_id path now db).0
        ≡ answered value
      → IsServed snapshots headers profile_id path now db value
  unfolding send_model_config authorize_model_config
  send_model_config-IsServed snapshots headers p path now db value h =
      model_for-IsServed snapshots headers p path now db value _ refl
        (refusal_of_access headers _ value) h
