-- ===== src/Adapter/Paths/Laws.antt =====
-- Which Agent paths the protocol reaches.
use hermes_link_server.Prelude.{
  Text, text, text_eq_refl, contains, after_prefix, is_profile_id, ◌≡◌, refl, ap, ◌∙◌, true, inl,
  inr, Option, none, some, List, [], ◌∷◌, ◌++◌, arith, Bool-cases, Option-cases,
}
use hermes_link_server.Prelude.Url.{quote-profile_id}
use hermes_link_server.Adapter.Paths.{
  lookup, protocol_exact_paths, protocol_prefix_paths, match_profile, below, translate_prefix,
  translate_path, with_front, profile_of_segment, profile_of_match, profile_id_for_protocol_path,
  agent_path_of_match, protocol_to_agent_path,
}

targets : List (Text × Text) → List Text
targets [] = []
targets ((_, t) ∷ rest) = t ∷ targets rest

-- The Agent endpoints that a path can be translated to, alone or with what is below them.
pub exact_targets : List Text
unfolding targets
exact_targets = targets protocol_exact_paths

pub prefix_targets : List Text
unfolding targets
prefix_targets = targets protocol_prefix_paths

-- Nothing, or a slash and more.
abbrev pub IsBelow : Text → Type 0
IsBelow [] = Unit
IsBelow (c ∷ s) = c ≡ b'/'

-- `target` is an exact endpoint, or a prefix endpoint with a path below it.
pub data IsEndpoint (target : Text) : Type 0 where
  exact : contains target exact_targets ≡ true → IsEndpoint target
  under :
      (front suffix : Text)
      → contains front prefix_targets ≡ true
      → IsBelow suffix
      → target ≡ front ++ suffix
      → IsEndpoint target

contains-lookup :
    (k v : Text) (d : List (Text × Text)) → lookup k d ≡ some v → contains v (targets d) ≡ true
unfolding lookup targets contains
contains-lookup k v [] h = cc
contains-lookup k v ((j, w) ∷ d) h = ground (arith, contains-lookup k v d, text_eq_refl v)

IsBelow-below : (o : Option Text) (s : Text) → below o ≡ some s → IsBelow s
unfolding below
IsBelow-below none s h = cc
IsBelow-below (some []) [] h = tt
IsBelow-below (some []) (c ∷ s) h = cc
IsBelow-below (some (d ∷ r)) [] h = tt
IsBelow-below (some (d ∷ r)) (c ∷ s) h = ground arith

translate_prefix_sound :
    (path target : Text) (d : List (Text × Text))
    → translate_prefix path d ≡ some target
    → (front suffix : Text) × (contains front (targets d) ≡ true)
      × IsBelow suffix
      × (target ≡ front ++ suffix)
unfolding translate_prefix targets contains
translate_prefix_sound path target [] h = cc
translate_prefix_sound path target ((public, internal) ∷ d) h =
    elim (Option-cases (below (after_prefix public path))) [
      | inr (suffix, found) ↦ (
        internal,
        suffix,
        ground (arith, text_eq_refl internal),
        IsBelow-below (after_prefix public path) suffix found,
        ground (arith, found),
      )
      | inl missed ↦
          let (front, suffix, listed, is_below, same) =
            translate_prefix_sound path target d (ground (arith, missed)) in
          (front, suffix, ground (arith, listed), is_below, same)
    ]

translate_path-IsEndpoint :
    (path target : Text) → translate_path path ≡ some target → IsEndpoint target
unfolding translate_path exact_targets prefix_targets
translate_path-IsEndpoint path target h = elim (Option-cases (lookup path protocol_exact_paths)) [
  | inr (t, found) ↦
      exact (contains-lookup path target protocol_exact_paths (ground (arith, found)))
  | inl missed ↦
      let (front, suffix, listed, is_below, same) =
        translate_prefix_sound path target protocol_prefix_paths (ground (arith, missed)) in
      under front suffix listed is_below same
]

with_front_sound :
    (front q : Text) (o : Option Text)
    → with_front front o ≡ some q
    → (target : Text) × (o ≡ some target) × (q ≡ front ++ target)
unfolding with_front
with_front_sound front q none h = cc
with_front_sound front q (some target) h = (target, refl, ground arith)

module _ (unquote : Text → Text) where
  -- The profile of a path that names a valid one.
  profile_of_match-valid :
      (path segment rest : Text)
      → match_profile path ≡ some (segment, rest)
      → is_profile_id (profile_of_segment unquote segment) ≡ true
      → profile_of_segment unquote segment ≡ profile_of_match unquote (match_profile path)
  unfolding profile_of_match
  profile_of_match-valid path segment rest e valid = rw (e, valid)

  -- An Agent path: an endpoint, or an endpoint of the profile that the protocol path names.
  pub data IsAgentPath (path q : Text) : Type 0 where
    unscoped : IsEndpoint q → IsAgentPath path q
    scoped :
        (profile target : Text)
        → is_profile_id profile ≡ true
        → profile ≡ profile_id_for_protocol_path unquote path
        → IsEndpoint target
        → q ≡ (text "/p/" ++ profile) ++ target
        → IsAgentPath path q

  agent_path_of_match_sound :
      (path q : Text) (m : Option (Text × Text))
      → match_profile path ≡ m
      → agent_path_of_match unquote path m ≡ some q
      → IsAgentPath path q
  unfolding agent_path_of_match
  agent_path_of_match_sound path q none e h = unscoped (translate_path-IsEndpoint path q h)
  agent_path_of_match_sound path q (some (segment, rest)) e h =
      elim (Bool-cases (is_profile_id (profile_of_segment unquote segment))) [
        | inr invalid ↦ cc (rw invalid at h)
        | inl valid ↦
            let (target, found, same) = with_front_sound _ q _ (rw valid at h) in
            scoped (profile_of_segment unquote segment) target valid
              (unfold profile_id_for_protocol_path in
                profile_of_match-valid path segment rest e valid)
              (translate_path-IsEndpoint _ target found)
              (same ∙ ap (λ p. (text "/p/" ++ p) ++ target) (quote-profile_id _ valid))
      ]

  -- Every Agent path that a protocol path is translated to is one of the listed endpoints, or a
  -- path below one of the listed prefixes, alone or behind `/p/` and the profile id that
  -- `_profile_id_for_protocol_path` reads from the protocol path.
  pub protocol_to_agent_path-IsAgentPath :
      (path q : Text) → protocol_to_agent_path unquote path ≡ some q → IsAgentPath path q
  unfolding protocol_to_agent_path
  protocol_to_agent_path-IsAgentPath path q h =
      agent_path_of_match_sound path q (match_profile path) refl h
