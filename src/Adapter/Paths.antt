-- ===== src/Adapter/Paths.antt =====
-- src/hermes_link/integrations/hermes_agent/adapter.py: from protocol paths to Agent paths.
pub mod Laws
use hermes_link_server.Prelude.{
  ℕ, Text, text, text_eq, strip, after_prefix, is_empty, is_profile_id, Bool, true, false, not,
  ◌&&◌, ◌||◌, ◌==◌, Option, none, some, List, [], ◌∷◌, ◌++◌, any, if◌then◌else◌, all,
}
use hermes_link_server.Prelude.Url.{quote}

-- a dictionary literal, and `dict.get`
unfoldable pub lookup : Text → List (Text × Text) → Option Text
lookup key [] = none
lookup key ((k, v) ∷ rest) = if text_eq k key then some v else lookup key rest

-- `PROTOCOL_EXACT_PATHS`
unfoldable pub protocol_exact_paths : List (Text × Text)
protocol_exact_paths =
    (text "/hermes-link/v1/models", text "/v1/models")
    ∷ (text "/hermes-link/v1/models/config", text "/api/model/config")
    ∷ (text "/hermes-link/v1/models/options", text "/api/model/options")
    ∷ (text "/hermes-link/v1/chat/completions", text "/v1/chat/completions")
    ∷ (text "/hermes-link/v1/chat/cancel", text "/api/mobile/chat/cancel")
    ∷ (text "/hermes-link/v1/pairing", text "/api/mobile/pair")
    ∷ (text "/hermes-link/v1/pairing/device", text "/api/mobile/pair/device")
    ∷ (text "/hermes-link/v1/cloud/identity", text "/api/mobile/cloud/identity")
    ∷ (text "/hermes-link/v1/cloud/configure", text "/api/mobile/cloud/configure")
    ∷ (text "/hermes-link/v1/cloud/binding", text "/api/mobile/cloud/binding")
    ∷ []

-- `PROTOCOL_PREFIX_PATHS`
unfoldable pub protocol_prefix_paths : List (Text × Text)
protocol_prefix_paths =
    (text "/hermes-link/v1/jobs", text "/api/jobs")
    ∷ (text "/hermes-link/v1/sessions", text "/api/sessions")
    ∷ (text "/hermes-link/v1/notifications/devices", text "/api/mobile/push/devices")
    ∷ []

-- the longest start without a slash, and what follows it
pub to_slash : Text → Text × Text
to_slash [] = ([], [])
to_slash (c ∷ s) =
    let (front, rest) = to_slash s in if c == b'/' then ([], c ∷ s) else (c ∷ front, rest)

-- Both groups are there: `([^/]+)` is not empty, and `(/.*)` has no line break.
pub groups : Text × Text → Option (Text × Text)
groups (front, []) = none
groups (front, c ∷ rest) =
    if not (is_empty front) && all (λ d. not (d == 10)) rest then some (front, c ∷ rest) else none

profile_groups : Option Text → Option (Text × Text)
unfolding groups to_slash
profile_groups none = none
profile_groups (some s) = groups (to_slash s)

-- `PROFILE_PROTOCOL_PATTERN`: `^/hermes-link/v1/profiles/([^/]+)(/.*)$`
unfoldable pub match_profile : Text → Option (Text × Text)
unfolding profile_groups after_prefix text
match_profile path = profile_groups (after_prefix (text "/hermes-link/v1/profiles/") path)

-- `path == public_prefix or path.startswith(f"{public_prefix}/")`, and the rest of the path
pub below : Option Text → Option Text
below none = none
below (some []) = some []
below (some (c ∷ s)) = if c == b'/' then some (c ∷ s) else none

-- the loop over the prefixes
pub translate_prefix : Text → List (Text × Text) → Option Text
unfolding below after_prefix
translate_prefix path [] = none
translate_prefix path ((public, internal) ∷ rest) = elim (below (after_prefix public path)) [
  | some suffix ↦ some (internal ++ suffix)
  | none ↦ translate_prefix path rest
]

-- From `exact = …` on, for a path with no profile.
unfoldable pub translate_path : Text → Option Text
unfolding translate_prefix lookup
translate_path path = elim (lookup path protocol_exact_paths) [
  | some target ↦ some target
  | none ↦ translate_prefix path protocol_prefix_paths
]

with_front : Text → Option Text → Option Text
with_front front none = none
with_front front (some target) = some (front ++ target)

-- `urllib.parse.unquote`
module _ (unquote : Text → Text) where
  -- `unquote(match.group(1)).strip()`
  pub profile_of_segment : Text → Text
  unfolding strip
  profile_of_segment segment = strip (unquote segment)

  profile_of_match : Option (Text × Text) → Text
  profile_of_match none = text "default"
  profile_of_match (some (segment, _)) =
      let profile_id = profile_of_segment segment in
      if is_profile_id profile_id then profile_id else []

  -- `_profile_id_for_protocol_path`
  unfoldable pub profile_id_for_protocol_path : Text → Text
  unfolding profile_of_match match_profile profile_of_segment
  profile_id_for_protocol_path path = profile_of_match (match_profile path)

  agent_path_of_match : Text → Option (Text × Text) → Option Text
  unfolding translate_path with_front
  agent_path_of_match path none = translate_path path
  agent_path_of_match path (some (segment, rest)) =
      let profile_id = profile_of_segment segment in
      if is_profile_id profile_id
      then with_front (text "/p/" ++ quote profile_id)
          (translate_path (text "/hermes-link/v1" ++ rest))
      else none

  unfoldable pub protocol_to_agent_path : Text → Option Text
  unfolding agent_path_of_match match_profile profile_of_segment quote
  protocol_to_agent_path path = agent_path_of_match path (match_profile path)
