-- ===== src/Adapter/Client/Laws.antt =====
-- What the server-info endpoint reports of the Agent.
use hermes_link_server.Prelude.{
  ℕ, Text, text, length, ltb, is_empty, not, Bool, true, false, ◌||◌, Option, some, [], ◌∷◌, ◌≡◌,
  inl, inr, refl, Bool-cases, arith,
}
use hermes_link_server.Json.{
  Json, null, bool, int, str, obj, pos, Fields, end, get, get_or, is_truthy, value_text, to_text,
  text_or_empty,
}
use hermes_link_server.Adapter.Headers.{or_else}
use hermes_link_server.Capabilities.{server_info, runtime_fields, agents_or_zero}
use hermes_link_server.Adapter.Client.{
  adapter_origin, AgentReply, no_reply, broken_reply, empty_reply, replied, status_fields,
  unavailable_status, gateway_state_of, version_of, status_of, status_from, runtime_status,
  features_of, agent_info, get_server_info,
}

module _ (repr : Json → Text) where
  -- A report on the Agent: a state, a number of agents, whether it is busy, and a version.
  pub record Reports (info : Fields) (state version : Text) (agents : ℕ) (busy : Bool)
      : Type 0 where
    pub has_version : get "hermesVersion" info ≡ some (str version)
    pub has_state : get "gateway_state" info ≡ some (str state)
    pub has_agents : get "active_agents" info ≡ some (int (pos agents))
    pub is_busy : get "gateway_busy" info ≡ some (bool busy)

  server_info-Reports :
      (version hermes_version state : Text) (agents : ℕ) (busy : Bool) (features : Fields)
      (identity : Option Text)
      → is_empty state ≡ false
      → is_empty hermes_version ≡ false
      → Reports
          (server_info repr version hermes_version features
            (status_fields state agents busy hermes_version)
            identity)
          state
          hermes_version
          agents
          busy
  unfolding server_info status_fields runtime_fields agents_or_zero get get_or is_truthy value_text
      text_or_empty to_text
  server_info-Reports version [] state agents busy features identity s v = cc
  server_info-Reports version (c ∷ h) [] agents busy features identity s v = cc
  server_info-Reports version (c ∷ h) (d ∷ t) agents true features identity s v = record {
    has_version = refl;
    has_state = refl;
    has_agents = refl;
    is_busy = refl;
  }
  server_info-Reports version (c ∷ h) (d ∷ t) agents false features identity s v = record {
    has_version = refl;
    has_state = refl;
    has_agents = refl;
    is_busy = refl;
  }

  -- An answer that is no report on the Agent.
  abbrev pub is_unusable : AgentReply → Bool
  is_unusable no_reply = true
  is_unusable broken_reply = true
  is_unusable empty_reply = false
  is_unusable (replied (obj payload)) = false
  is_unusable (replied _) = true

  -- The Agent closed the connection in the wrong way, or nested its JSON too deep.
  abbrev pub is_broken : AgentReply → Bool
  is_broken broken_reply = true
  is_broken _ = false

  -- A runtime status with a state and a version, and that of an Agent that is not available.
  record IsStatus (silent : Bool) (runtime : Fields) : Type 0 where
    state : Text
    agents : ℕ
    busy : Bool
    version : Text
    form : runtime ≡ status_fields state agents busy version
    state_given : is_empty state ≡ false
    version_given : is_empty version ≡ false
    when_silent :
        silent ≡ true
        → (state ≡ text "unavailable") × (agents ≡ 0) × (busy ≡ false) × (version ≡ text "unknown")

  or_else_given : (s t : Text) → is_empty t ≡ false → is_empty (or_else s t) ≡ false
  or_else_given [] t h = h
  or_else_given (c ∷ s) t h = refl

  state_given_of : (payload : Fields) → is_empty (gateway_state_of repr payload) ≡ false
  unfolding gateway_state_of
  state_given_of payload = or_else_given _ (text "ready") (unfold text in refl)

  version_given_of : (payload : Fields) → is_empty (version_of repr payload) ≡ false
  unfolding version_of
  version_given_of payload = or_else_given _ (text "unknown") (unfold text in refl)

  unavailable-IsStatus : (silent : Bool) → IsStatus silent unavailable_status
  unfolding unavailable_status text
  unavailable-IsStatus silent = record {
    state = text "unavailable";
    agents = 0;
    busy = false;
    version = text "unknown";
    form = refl;
    state_given = refl;
    version_given = refl;
    when_silent = λ _. (refl, refl, refl, refl);
  }

  status_of-IsStatus : (payload : Fields) → IsStatus false (status_of repr payload)
  unfolding status_of
  status_of-IsStatus payload = record {
    state = gateway_state_of repr payload;
    agents = _;
    busy = _;
    version = version_of repr payload;
    form = refl;
    state_given = state_given_of payload;
    version_given = version_given_of payload;
    when_silent = λ h. cc;
  }

  abbrev Has : Bool → Option Fields → Type 0
  Has silent o = (runtime : Fields) × (o ≡ some runtime) × IsStatus silent runtime

  silent_status : Has true (some unavailable_status)
  silent_status = (unavailable_status, refl, unavailable-IsStatus true)

  status_from-IsStatus :
      (reply : AgentReply)
      → is_broken reply ≡ false
      → Has (is_unusable reply) (status_from repr reply)
  unfolding status_from
  status_from-IsStatus no_reply h = silent_status
  status_from-IsStatus broken_reply h = cc
  status_from-IsStatus empty_reply h = (_, refl, status_of-IsStatus end)
  status_from-IsStatus (replied (obj payload)) h = (_, refl, status_of-IsStatus payload)
  status_from-IsStatus (replied null) h = silent_status
  status_from-IsStatus (replied (bool b)) h = silent_status
  status_from-IsStatus (replied (int n)) h = silent_status
  status_from-IsStatus (replied (Json.float f)) h = silent_status
  status_from-IsStatus (replied (str s)) h = silent_status
  status_from-IsStatus (replied (Json.arr vs)) h = silent_status

  runtime_status-IsStatus :
      (token : Text) (reply : AgentReply)
      → (ltb (length token) 8 || not (is_broken reply)) ≡ true
      → Has (ltb (length token) 8 || is_unusable reply) (runtime_status repr token reply)
  unfolding runtime_status
  runtime_status-IsStatus token reply h = elim (Bool-cases (ltb (length token) 8)) [
    | inl short ↦ rw short silent_status
    | inr long ↦ rw long (status_from-IsStatus reply (ground arith))
  ]

  -- The version that is read of a status.
  version_again :
      (state version : Text) (agents : ℕ) (busy : Bool)
      → is_empty version ≡ false
      → or_else
          (value_text repr (get_or "hermes_version" null (status_fields state agents busy version)))
          (text "unknown")
        ≡ version
  unfolding status_fields get_or get value_text text_or_empty to_text is_truthy
  version_again state [] agents busy h = cc
  version_again state (c ∷ v) agents busy h = refl

  -- What the endpoint reports of the Agent.
  pub record IsReported (silent : Bool) (info : Fields) : Type 0 where
    pub state : Text
    pub version : Text
    pub agents : ℕ
    pub busy : Bool
    pub reports : Reports info state version agents busy
    pub state_given : is_empty state ≡ false
    pub version_given : is_empty version ≡ false
    pub when_silent :
        silent ≡ true
        → (state ≡ text "unavailable") × (agents ≡ 0) × (busy ≡ false) × (version ≡ text "unknown")

  of_status :
      (silent : Bool) (version : Text) (features runtime : Fields) (identity : Option Text)
      → IsStatus silent runtime
      → IsReported silent (
          server_info repr version
            (or_else (value_text repr (get_or "hermes_version" null runtime)) (text "unknown"))
            features
            runtime
            identity)
  of_status silent version features runtime identity s = record {
    state = s.state;
    version = s.version;
    agents = s.agents;
    busy = s.busy;
    reports =
        rw (s.form, version_again s.state s.version s.agents s.busy s.version_given)
          (server_info-Reports version s.version s.state s.agents s.busy features identity
            s.state_given s.version_given);
    state_given = s.state_given;
    version_given = s.version_given;
    when_silent = s.when_silent;
  }

  -- For an approved base URL the endpoint answers, if the token of the Server has fewer than 8
  -- characters or the request to the Agent raises no exception but an OSError or a ValueError: with
  -- a state and a version that are not empty and a number of agents. Where the token has fewer than
  -- 8 characters, the Agent does not answer, or it answers with a value that is no object, the
  -- state is `unavailable`, with no agents, not busy and the version `unknown`. An answer without a
  -- byte counts as an empty object.
  pub get_server_info-IsReported :
      (version base_url origin token : Text) (reply : AgentReply) (identity : Option Text)
      → adapter_origin base_url ≡ some origin
      → (ltb (length token) 8 || not (is_broken reply)) ≡ true
      → (info : Fields) × (get_server_info repr version base_url token reply identity ≡ some info)
        × IsReported (ltb (length token) 8 || is_unusable reply) info
        × (reply ≡ empty_reply
            → get_server_info repr version base_url token reply identity
              ≡ get_server_info repr version base_url token (replied (obj end)) identity)
  unfolding get_server_info
  get_server_info-IsReported version base_url origin token reply identity approved caught =
      let (runtime, e, status) = runtime_status-IsStatus token reply caught in
      (
        agent_info repr version runtime identity,
        rw (get_server_info, approved, e) refl,
        unfold agent_info in
            of_status (ltb (length token) 8 || is_unusable reply) version
              (features_of repr identity) runtime identity status,
        λ empty. rw empty (unfold runtime_status in unfold status_from in refl),
      )
