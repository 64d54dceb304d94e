-- ===== src/Pairing/Profiles.antt =====
-- src/hermes_link/pairing/store.py: `_normalize_profiles`, and profile lists as JSON columns. A column
-- is what `json.loads` reads of its text, a value or an error; the text itself is not modelled.
pub mod Laws
use hermes_link_server.Prelude.{
  ℕ, Text, text, contains, is_empty, strip, is_profile_id, Bool, not, ◌&&◌, Option, none, some,
  List, [], ◌∷◌, ◌++◌, String, if◌then◌else◌,
}
use hermes_link_server.Json.{
  Json, str, arr, obj, JsonText, document, malformed, keys, items, texts, to_text, is_truthy,
}

-- the tests of one round of `_normalize_profiles`
is_new_profile : List Text → Text → Bool
is_new_profile result profile_id =
    (not (is_empty profile_id) && not (contains profile_id result)) && is_profile_id profile_id

-- one round of `_normalize_profiles`
add_profile : List Text → Text → List Text
unfolding is_new_profile
add_profile result profile_id =
    if is_new_profile result profile_id then result ++ profile_id ∷ [] else result

normalize_from : List Text → List Text → List Text
unfolding add_profile
normalize_from result [] = result
normalize_from result (value ∷ values) = normalize_from (add_profile result (strip value)) values

unfoldable pub normalize_profiles : List Text → List Text
unfolding normalize_from
normalize_profiles values = normalize_from [] values

single : List ℕ → List Text
single [] = []
single (c ∷ s) = (c ∷ []) ∷ single s

key_texts : List String → List Text
key_texts [] = []
key_texts (k ∷ ks) = text k ∷ key_texts ks

value_texts : List Json → List Text
value_texts [] = []
value_texts (v ∷ vs) = to_text v ∷ value_texts vs

-- What `for value in values or []` goes through, each as `str(value)`; `none` is a TypeError.
iterated : Json → Option (List Text)
iterated (arr vs) = some (value_texts (items vs))
iterated (obj fs) = some (key_texts (keys fs))
iterated (str s) = some (single s)
iterated v = if is_truthy v then none else some []

normalized : Option (List Text) → List Text
normalized none = []
normalized (some values) = normalize_profiles values

-- `_normalize_profiles(json.loads(column))`, with the handler that takes errors to `[]`
unfoldable pub load_profiles : JsonText → List Text
unfolding normalized iterated normalize_profiles single key_texts value_texts to_text is_truthy text
load_profiles malformed = []
load_profiles (document v) = normalized (iterated v)

-- `json.dumps(profiles)`: the column of which `json.loads` reads the list of the texts
unfoldable pub dump_profiles : List Text → JsonText
dump_profiles ps = document (arr (texts ps))
