-- ===== src/Bridge/Routes/Laws.antt =====
-- Which requests the facade keeps from the Agent.
use hermes_link_server.Prelude.{
  ℕ, ◌≤◌, Text, text, text_eq, is_profile_id, is_empty, strip, ◌≡◌, ◌⊎◌, refl, ap, sym, ◌∙◌, Bool,
  true, false, contains, Option, none, some, List, [], ◌∷◌, arith, Bool-cases, inl, inr,
  if◌then◌else◌,
}
use hermes_link_server.Json.{Json, ℤ, pos, negsuc}
use hermes_link_server.Adapter.Paths.{match_profile}
use hermes_link_server.Bridge.Access.{Environment}
use hermes_link_server.Bridge.Models.{model_config_profile_id, id_of_match}
use hermes_link_server.Bridge.Routes.{
  Route, agent, serve_model, tasks, logs, clamp, get_model, model_route, route_get, profile_invalid,
  tasks_route, logs_route, log_files, get_path, queried_profile, query_route, serve_info,
  cloud_identity, health, direct_stream, first_or,
}

-- A limit that is passed on lies between 1 and the largest that is allowed.
clamp_bounds : (most : ℕ) (n : ℤ) → 1 ≤ most → (1 ≤ clamp most n) × (clamp most n ≤ most)
unfolding clamp
clamp_bounds most (pos n) h = (omega arith, omega arith)
clamp_bounds most (negsuc n) h = (omega arith, omega arith)

some_injective {ℓ} : {A : Type ℓ} {a b : A} → ◌≡◌ {A = Option A} (some a) (some b) → a ≡ b
some_injective h = cc

module _ (sha256 unquote : Text → Text) (env : Environment) (repr : Json → Text)
    (parse_qs : Text → Text → List Text) (parse_int : Text → Option ℤ) where
  model_route_cases :
      (p : Text) (k : Text → Route)
      → model_route sha256 unquote env repr parse_qs parse_int p k
        ≡ (if is_empty p then profile_invalid else k p)
  unfolding model_route
  model_route_cases [] k = refl
  model_route_cases (c ∷ s) k = refl

  abbrev model_profile : Text → Option Text
  model_profile = model_config_profile_id sha256 unquote env repr

  -- What a route may carry.
  abbrev pub Carries : Route → Type 0
  Carries (tasks n) = (1 ≤ n) × (n ≤ 500)
  Carries (logs key n) = (contains key log_files ≡ true) × (1 ≤ n) × (n ≤ 200)
  Carries (serve_model p) = is_profile_id p ≡ true
  Carries _ = Unit

  pub record IsBoundedRoute (r : Route) : Type 0 where
    pub carried : Carries r

  bound : {r : Route} → Carries r → IsBoundedRoute r
  bound h = record { carried = h }

  bounded_if :
      (b : Bool) (x y : Route)
      → IsBoundedRoute x
      → IsBoundedRoute y
      → IsBoundedRoute (if b then x else y)
  bounded_if true x y h k = h
  bounded_if false x y h k = k

  tasks_route-IsBoundedRoute :
      (o : Option ℤ) → IsBoundedRoute (tasks_route sha256 unquote env repr parse_qs parse_int o)
  unfolding tasks_route
  tasks_route-IsBoundedRoute none = bound tt
  tasks_route-IsBoundedRoute (some n) = bound (clamp_bounds 500 n (omega arith))

  logs_route-IsBoundedRoute :
      (key : Text) (o : Option ℤ) (b : Bool)
      → contains key log_files ≡ b
      → IsBoundedRoute (logs_route sha256 unquote env repr parse_qs parse_int key o)
  unfolding logs_route
  logs_route-IsBoundedRoute key o false e = rw e (bound tt)
  logs_route-IsBoundedRoute key none true e = rw e (bound tt)
  logs_route-IsBoundedRoute key (some n) true e =
      rw e (bound (let (lo, hi) = clamp_bounds 200 n (omega arith) in (e, lo, hi)))

  if_form :
      (b : Bool) (t p : Text)
      → is_profile_id t ≡ b
      → (if b then t else []) ≡ p
      → (is_empty p ≡ true) ⊎ (is_profile_id p ≡ true)
  if_form true t p v e = inr (ap is_profile_id (sym e) ∙ v)
  if_form false t p v e = inl (ap is_empty (sym e))

  match_form :
      (m : Option (Text × Text)) (p : Text)
      → id_of_match sha256 unquote env repr m ≡ some p
      → (is_empty p ≡ true) ⊎ (is_profile_id p ≡ true)
  unfolding id_of_match
  match_form none p h = cc
  match_form (some (segment, rest)) p h = elim (Bool-cases (text_eq rest (text "/models/config"))) [
    | inl e ↦ if_form _ (strip (unquote segment)) p refl (some_injective (rw e at h))
    | inr e ↦ cc (rw e at h)
  ]

  default_form : is_profile_id (text "default") ≡ true
  unfolding is_profile_id text
  default_form = refl

  -- The profile of a model configuration path is empty or valid.
  model_profile_form :
      (path p : Text) → model_profile path ≡ some p → (is_empty p ≡ true) ⊎ (is_profile_id p ≡ true)
  unfolding model_config_profile_id
  model_profile_form path p h =
      elim (Bool-cases (text_eq path (text "/hermes-link/v1/models/config"))) [
        | inl e ↦ inr (ap is_profile_id (sym (some_injective (rw e at h))) ∙ default_form)
        | inr e ↦ match_form (match_profile path) p (rw e at h)
      ]

  query_route-IsBoundedRoute :
      (query : Text)
      → IsBoundedRoute (
          query_route sha256 unquote env repr parse_qs parse_int
            (queried_profile sha256 unquote env repr parse_qs parse_int query)
            serve_model)
  unfolding queried_profile query_route
  query_route-IsBoundedRoute query = by_form _ _ refl
    where
      by_form :
          (t : Text) (b : Bool)
          → is_profile_id t ≡ b
          → IsBoundedRoute (
              query_route sha256 unquote env repr parse_qs parse_int
                (if b then some t else none)
                serve_model)
      by_form t true e = bound e
      by_form t false e = bound tt

  get_path-IsBoundedRoute :
      (path query : Text)
      → IsBoundedRoute (get_path sha256 unquote env repr parse_qs parse_int path query)
  unfolding get_path
  get_path-IsBoundedRoute path query =
      bounded_if (text_eq path (text "/hermes-link/v1/server-info")) serve_info _ (bound tt) (
        bounded_if (text_eq path (text "/hermes-link/v1/cloud/identity")) cloud_identity _
          (bound tt)
          (bounded_if (text_eq path (text "/health")) health _ (bound tt) (
            bounded_if (text_eq path (text "/hermes-link/v1/tasks")) _ _
              (tasks_route-IsBoundedRoute
                (parse_int (first_or (text "200") (parse_qs query (text "limit")))))
              (bounded_if (text_eq path (text "/hermes-link/v1/model-config")) _ _
                (query_route-IsBoundedRoute query)
                (bounded_if (text_eq path (text "/hermes-link/v1/logs")) _ agent
                  (logs_route-IsBoundedRoute
                    (first_or (text "gateway") (parse_qs query (text "file")))
                    (parse_int (first_or (text "100") (parse_qs query (text "limit")))) _ refl)
                  (bound tt))))))

  model_route-IsBoundedRoute :
      (p : Text)
      → (is_empty p ≡ true) ⊎ (is_profile_id p ≡ true)
      → IsBoundedRoute (model_route sha256 unquote env repr parse_qs parse_int p serve_model)
  unfolding model_route
  model_route-IsBoundedRoute [] f = bound tt
  model_route-IsBoundedRoute (c ∷ s) (inl e) = cc
  model_route-IsBoundedRoute (c ∷ s) (inr v) = bound v

  get_model-IsBoundedRoute :
      (o : Option Text) (path query : Text)
      → model_profile path ≡ o
      → IsBoundedRoute (get_model sha256 unquote env repr parse_qs parse_int o path query)
  unfolding get_model
  get_model-IsBoundedRoute none path query e = get_path-IsBoundedRoute path query
  get_model-IsBoundedRoute (some p) path query e =
      model_route-IsBoundedRoute p (model_profile_form path p e)

  -- Whatever the path and the query, `do_GET` reads at most 500 tasks, at most 200 lines of one of
  -- the listed log files, at least one of either, and the model configuration of a valid profile
  -- id only.
  pub route_get-IsBoundedRoute :
      (path query : Text)
      → IsBoundedRoute (route_get sha256 unquote env repr parse_qs parse_int path query)
  unfolding route_get
  route_get-IsBoundedRoute path query =
      bounded_if (text_eq path (text "/hermes-link/v1/notifications/direct")) direct_stream _
        (bound tt) (get_model-IsBoundedRoute _ path query refl)
