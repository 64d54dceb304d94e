-- ===== src/Pairing/Profiles/Laws.antt =====
-- What `_normalize_profiles` guarantees of a profile scope.
use hermes_link_server.Prelude.{
  Text, strip, is_profile_id, ◌≡◌, refl, sym, ap, ◌∙◌, true, Option, none, some, List, [], ◌∷◌,
  ◌++◌, arith, Bool-cases, inl, inr, All, All-append,
}
use hermes_link_server.Prelude.Words.{
  Distinct, Distinct-snoc, contains-of_Distinct, strip-profile_id, profile_id-nonempty,
}
use mathlib.Core.List.{append-nil, append_assoc}
use hermes_link_server.Json.{JsonText, document, malformed, texts, items, to_text}
use hermes_link_server.Pairing.Profiles.{
  is_new_profile, add_profile, normalize_from, normalized, iterated, normalize_profiles,
  load_profiles, dump_profiles, value_texts,
}

-- A scope: valid profile ids, none of them twice.
pub record IsScope (ps : List Text) : Type 0 where
  pub valid : All (λ p. is_profile_id p ≡ true) ps
  pub distinct : Distinct ps

add_profile-IsScope :
    (result : List Text) (p : Text) → IsScope result → IsScope (add_profile result p)
unfolding add_profile
add_profile-IsScope result p s = elim (Bool-cases (is_new_profile result p)) [
  | inl new ↦ rw new (record {
    valid = All-append (λ q. is_profile_id q ≡ true) result (p ∷ []) s.valid (ground arith, tt);
    distinct = Distinct-snoc result p s.distinct (ground arith);
  })
  | inr old ↦ rw old s
]

normalize_from-IsScope :
    (result values : List Text) → IsScope result → IsScope (normalize_from result values)
unfolding normalize_from
normalize_from-IsScope result [] s = s
normalize_from-IsScope result (value ∷ values) s =
    normalize_from-IsScope (add_profile result (strip value)) values
      (add_profile-IsScope result (strip value) s)

-- The result of `_normalize_profiles` is a scope, whatever the values.
pub normalize_profiles-IsScope : (values : List Text) → IsScope (normalize_profiles values)
unfolding normalize_profiles
normalize_profiles-IsScope values =
    normalize_from-IsScope [] values (record { valid = tt; distinct = tt })

add_profile_new :
    (result : List Text) (p : Text) (ps : List Text)
    → is_profile_id p ≡ true
    → Distinct (result ++ p ∷ ps)
    → add_profile result (strip p) ≡ result ++ p ∷ []
unfolding add_profile
add_profile_new result p ps valid d =
    rw (strip-profile_id p valid)
      (ground (arith, profile_id-nonempty p valid, contains-of_Distinct result p ps d))

normalize_from_clean :
    (result values : List Text)
    → All (λ p. is_profile_id p ≡ true) values
    → Distinct (result ++ values)
    → normalize_from result values ≡ result ++ values
unfolding normalize_from
normalize_from_clean result [] v d = sym (append-nil result)
normalize_from_clean result (p ∷ ps) (valid, v) d = rw (add_profile_new result p ps valid d) (
    normalize_from_clean (result ++ p ∷ []) ps v (rw (append_assoc result (p ∷ []) ps) d)
    ∙ append_assoc result (p ∷ []) ps)

-- A scope is left as it is.
pub normalize_profiles_idempotent : (ps : List Text) → IsScope ps → normalize_profiles ps ≡ ps
unfolding normalize_profiles
normalize_profiles_idempotent ps s = normalize_from_clean [] ps s.valid s.distinct

value_texts-texts : (ps : List Text) → value_texts (items (texts ps)) ≡ ps
unfolding value_texts to_text
value_texts-texts [] = refl
value_texts-texts (p ∷ ps) = ap (λ r. p ∷ r) (value_texts-texts ps)

-- A scope in a column is left as it is by the normalization of what is read.
pub load-dump : (ps : List Text) → IsScope ps → load_profiles (dump_profiles ps) ≡ ps
unfolding load_profiles dump_profiles
load-dump ps s = rw (value_texts-texts ps) (normalize_profiles_idempotent ps s)

normalized-IsScope : (values : Option (List Text)) → IsScope (normalized values)
unfolding normalized
normalized-IsScope none = record { valid = tt; distinct = tt }
normalized-IsScope (some values) = normalize_profiles-IsScope values

-- Whatever the column holds, what is read from it is a scope.
pub load_profiles-IsScope : (column : JsonText) → IsScope (load_profiles column)
unfolding load_profiles
load_profiles-IsScope malformed = record { valid = tt; distinct = tt }
load_profiles-IsScope (document v) = normalized-IsScope (iterated v)
