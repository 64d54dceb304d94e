-- ===== src/Bridge/Routes.antt =====
-- src/hermes_link/integrations/hermes_agent/bridge.py: which handler `do_GET`, `do_POST`, `do_PUT`,
-- `do_PATCH` and `do_DELETE` choose for a path and its query, and the limits that they pass on.
pub mod Laws
use Prim.Native.Nat.{min, max}
use hermes_link_server.Prelude.{
  ℕ, Text, text, text_eq, strip, starts_with, contains, is_empty, is_profile_id, String, Bool, true,
  false, not, Option, none, some, List, [], ◌∷◌, if◌then◌else◌,
}
use hermes_link_server.Json.{Json, ℤ, pos, negsuc}
use hermes_link_server.Adapter.Headers.{RequestHeaders, bearer_token, is_device}
use hermes_link_server.Bridge.Access.{Environment, Answer, failed, refused}
use hermes_link_server.Bridge.Models.{model_config_profile_id}

-- What a handler goes on to do: answer at once, serve or refuse a model configuration, serve one of
-- the other endpoints of the Server, or pass the request to `_proxy_agent`.
pub data Route : Type 0 where
  answer_now : Answer → Route
  serve_model : Text → Route
  refuse_model_write : Route
  direct_stream : Route
  serve_info : Route
  cloud_identity : Route
  cloud_attestation : Route
  cloud_configure : Route
  cloud_clear : Route
  health : Route
  tasks : ℕ → Route
  logs : Text → ℕ → Route
  pairing : Route
  revoke_device : Route
  agent : Route

-- `max(1, min(n, most))`
unfoldable pub clamp : ℕ → ℤ → ℕ
clamp most (pos n) = max 1 (min n most)
clamp most (negsuc n) = 1

-- `query.get(name, [default])[0]`
abbrev pub first_or : Text → List Text → Text
first_or default [] = default
first_or default (v ∷ vs) = v

-- the keys of `LOG_FILES`
unfoldable pub log_files : List Text
unfolding text
log_files = text "agent" ∷ text "errors" ∷ text "gateway" ∷ []

abbrev pub profile_invalid : Route
profile_invalid = answer_now (failed 400 "Invalid Hermes profile" "profile_invalid")

abbrev pub limit_invalid : Route
limit_invalid = answer_now (refused 400 "Invalid limit")

-- `unquote`, `parse_qs` with a name, and `int`
module _ (sha256 unquote : Text → Text) (env : Environment) (repr : Json → Text)
    (parse_qs : Text → Text → List Text) (parse_int : Text → Option ℤ) where
  pub tasks_route : Option ℤ → Route
  unfolding clamp
  tasks_route none = limit_invalid
  tasks_route (some n) = tasks (clamp 500 n)

  pub logs_route : Text → Option ℤ → Route
  unfolding clamp contains log_files
  logs_route key limit =
      if contains key log_files
      then elim limit [ none ↦ limit_invalid | some n ↦ logs key (clamp 200 n) ]
      else answer_now (refused 400 "Unsupported log file")

  -- the profile of `/hermes-link/v1/model-config`
  pub queried_profile : Text → Option Text
  unfolding strip text
  queried_profile query =
      let profile_id = strip (first_or (text "default") (parse_qs query (text "profile"))) in
      if is_profile_id profile_id then some profile_id else none

  pub query_route : Option Text → (Text → Route) → Route
  query_route none k = answer_now (refused 400 "Invalid profile")
  query_route (some profile_id) k = k profile_id

  -- the path of a model configuration: an empty profile is an invalid one
  pub model_route : Text → (Text → Route) → Route
  model_route [] k = profile_invalid
  model_route (c ∷ s) k = k (c ∷ s)

  -- from the comparison with `server-info` on
  pub get_path : Text → Text → Route
  unfolding tasks_route logs_route queried_profile query_route text text_eq
  get_path path query =
      if text_eq path (text "/hermes-link/v1/server-info")
      then serve_info
      else if text_eq path (text "/hermes-link/v1/cloud/identity")
      then cloud_identity
      else if text_eq path (text "/health")
      then health
      else if text_eq path (text "/hermes-link/v1/tasks")
      then tasks_route (parse_int (first_or (text "200") (parse_qs query (text "limit"))))
      else if text_eq path (text "/hermes-link/v1/model-config")
      then query_route (queried_profile query) serve_model
      else if text_eq path (text "/hermes-link/v1/logs")
      then logs_route (first_or (text "gateway") (parse_qs query (text "file")))
          (parse_int (first_or (text "100") (parse_qs query (text "limit"))))
      else agent

  pub get_model : Option Text → Text → Text → Route
  unfolding get_path model_route
  get_model none path query = get_path path query
  get_model (some profile_id) path query = model_route profile_id serve_model

  -- `do_GET`
  unfoldable pub route_get : Text → Text → Route
  unfolding get_model text text_eq
  route_get path query =
      if text_eq path (text "/hermes-link/v1/notifications/direct")
      then direct_stream
      else get_model (model_config_profile_id sha256 unquote env repr path) path query

  pub post_path : Text → Text → Route
  unfolding queried_profile query_route text text_eq
  post_path path query =
      if text_eq path (text "/hermes-link/v1/model-config")
      then query_route (queried_profile query) (λ _. refuse_model_write)
      else if text_eq path (text "/hermes-link/v1/cloud/attestation")
      then cloud_attestation
      else if text_eq path (text "/hermes-link/v1/cloud/configure")
      then cloud_configure
      else if text_eq path (text "/hermes-link/v1/pairing")
      then pairing
      else agent

  pub post_model : Option Text → Text → Text → Route
  unfolding post_path model_route
  post_model none path query = post_path path query
  post_model (some profile_id) path query = model_route profile_id (λ _. refuse_model_write)

  -- `do_POST`
  unfoldable pub route_post : Text → Text → Route
  unfolding post_model
  route_post path query =
      post_model (model_config_profile_id sha256 unquote env repr path) path query

  -- `do_PUT` and `do_PATCH`
  unfoldable pub route_put : Text → Route
  route_put path = agent

  -- `do_DELETE`
  unfoldable pub route_delete : RequestHeaders → Text → Route
  unfolding text text_eq
  route_delete headers path =
      if text_eq path (text "/hermes-link/v1/cloud/configure")
      then cloud_clear
      else if text_eq path (text "/hermes-link/v1/pairing/device")
      then (if is_device (bearer_token headers) then revoke_device else agent)
      else agent
