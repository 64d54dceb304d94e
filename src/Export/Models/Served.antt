-- ===== src/Export/Models/Served.antt =====
-- The fields that the Server reads of an exported configuration.
use hermes_link_server.Prelude.{
  ℕ, zero, suc, String, if◌then◌else◌, ◌≤◌, Text, strip, lstrip, rstrip, is_space, drop_last, take,
  length, Bool, true, false, [], ◌∷◌, ◌≡◌, refl, ap, arith, length-take-le,
}
use hermes_link_server.Json.{
  Json, null, str, int, obj, pos, Fields, end, field, get, get_or, is_truthy, value_text,
  text_or_empty, to_text,
}
use hermes_link_server.Bridge.Models.{bounded_field, integer_or_zero, model_fields}
use hermes_link_server.Export.Models.{
  collect_ids, profile_ids_of, config_path, Source, loaded_yaml, safe_text, ModelPart, model_part,
  public_model_config, snapshot_of_yaml, snapshot_of, replace_snapshot, sync_model_config_snapshots,
}
use hermes_link_server.Export.Models

length-lstrip-le : (s : Text) → length (lstrip is_space s) ≤ length s
unfolding lstrip
length-lstrip-le [] = omega arith
length-lstrip-le (c ∷ s) = ground (arith, length-lstrip-le s)

length-drop_last-le : (b : Bool) (c : ℕ) (s : Text) → length (drop_last b c s) ≤ suc (length s)
length-drop_last-le true c [] = omega arith
length-drop_last-le true c (d ∷ s) = omega arith
length-drop_last-le false c s = omega arith

length-rstrip-le : (s : Text) → length (rstrip is_space s) ≤ length s
unfolding rstrip
length-rstrip-le [] = omega arith
length-rstrip-le (c ∷ s) =
    omega (arith, length-drop_last-le (is_space c) c (rstrip is_space s), length-rstrip-le s)

length-strip-le : (s : Text) → length (strip s) ≤ length s
unfolding strip
length-strip-le s = omega (arith, length-rstrip-le (lstrip is_space s), length-lstrip-le s)

take_whole : (n : ℕ) (s : Text) → length s ≤ n → take n s ≡ s
take_whole zero [] h = refl
take_whole zero (c ∷ s) h = ground arith
take_whole (suc n) [] h = refl
take_whole (suc n) (c ∷ s) h = ap (λ t. c ∷ t) (take_whole n s (omega (arith, h)))

module _ (repr : Json → Text) where
  value_text-str : (s : Text) → value_text repr (str s) ≡ s
  unfolding value_text text_or_empty is_truthy to_text
  value_text-str [] = refl
  value_text-str (c ∷ s) = refl

  -- A field that was cut is stripped when it is read.
  read_again :
      (n : ℕ) (s : Text) → take n (strip (value_text repr (str (take n s)))) ≡ strip (take n s)
  read_again n s = rw (value_text-str (take n s)) (
      take_whole n (strip (take n s))
        (omega (arith, length-strip-le (take n s), length-take-le n s)))

  -- What the configuration of the Agent says of the model: an object with the name of the model, or
  -- its name alone.
  abbrev pub described : Json → ModelPart
  described (obj fields) = record {
    model = take 200 (
        strip (
          value_text repr (
            if is_truthy (get_or "default" null fields)
            then get_or "default" null fields
            else get_or "name" null fields)));
    provider = take 100 (strip (value_text repr (get_or "provider" null fields)));
    max_tokens = integer_or_zero (get_or "max_tokens" (int (pos 0)) fields);
  }
  described name = record {
    model = take 200 (strip (value_text repr name));
    provider = [];
    max_tokens = pos 0;
  }

  model_part-described : (v : Json) → model_part repr v ≡ described v
  unfolding model_part safe_text
  model_part-described (obj fs) = refl
  model_part-described null = refl
  model_part-described (Json.bool b) = refl
  model_part-described (int n) = refl
  model_part-described (Json.float f) = refl
  model_part-described (str s) = refl
  model_part-described (Json.arr vs) = refl

  -- A field of the agent, stripped, cut, and stripped again when it is read.
  abbrev agent_text : String → Fields → Text
  agent_text name agent = strip (take 20 (strip (value_text repr (get_or name null agent))))

  -- The fields that are served of a configuration.
  abbrev pub served : Text → ModelPart → Fields → Fields
  served profile_id part agent = field "profile" (str profile_id) (
      field "model" (str (strip part.model)) (
        field "provider" (str (strip part.provider)) (
          field "max_tokens" (int part.max_tokens) (
            field "reasoning_effort" (str (agent_text "reasoning_effort" agent))
              (field "service_tier" (str (agent_text "service_tier" agent)) end)))))

  abbrev pub agent_of : Json → Fields
  agent_of (obj fields) = fields
  agent_of _ = end

  length-safe_text-le : (v : Json) (n : ℕ) → length (safe_text repr v n) ≤ n
  unfolding safe_text
  length-safe_text-le v n = length-take-le n (strip (value_text repr v))

  model_part-bounds :
      (v : Json)
      → (length (model_part repr v).model ≤ 200) × (length (model_part repr v).provider ≤ 100)
  unfolding model_part
  model_part-bounds (obj fs) = (
    length-safe_text-le (Models.or_else (get_or "default" null fs) (get_or "name" null fs)) 200,
    length-safe_text-le (get_or "provider" null fs) 100,
  )
  model_part-bounds null = (length-safe_text-le null 200, omega arith)
  model_part-bounds (Json.bool b) = (length-safe_text-le (Json.bool b) 200, omega arith)
  model_part-bounds (int n) = (length-safe_text-le (int n) 200, omega arith)
  model_part-bounds (Json.float f) = (length-safe_text-le (Json.float f) 200, omega arith)
  model_part-bounds (str s) = (length-safe_text-le (str s) 200, omega arith)
  model_part-bounds (Json.arr vs) = (length-safe_text-le (Json.arr vs) 200, omega arith)

  -- A text within the limit is only stripped.
  bounded_again :
      (n : ℕ) (s : Text) → length s ≤ n → take n (strip (value_text repr (str s))) ≡ strip s
  bounded_again n s h =
      rw (value_text-str s) (take_whole n (strip s) (omega (arith, length-strip-le s, h)))

  pub model_fields-public :
      (profile_id : Text) (payload : Fields)
      → model_fields repr profile_id (public_model_config repr profile_id payload)
        ≡ served profile_id
            (described (get_or "model" (obj end) payload))
            (agent_of (get_or "agent" (obj end) payload))
  unfolding model_fields public_model_config bounded_field integer_or_zero get_or get safe_text
  model_fields-public profile_id payload =
      let (model, provider) = model_part-bounds (get_or "model" (obj end) payload) in
      let agent = agent_of (get_or "agent" (obj end) payload) in
      rw
        (
          bounded_again 200 (model_part repr (get_or "model" (obj end) payload)).model model,
          bounded_again 100 (model_part repr (get_or "model" (obj end) payload)).provider provider,
          bounded_again 20 (safe_text repr (get_or "reasoning_effort" null agent) 20)
              (length-safe_text-le (get_or "reasoning_effort" null agent) 20),
          bounded_again 20 (safe_text repr (get_or "service_tier" null agent) 20)
              (length-safe_text-le (get_or "service_tier" null agent) 20),
        )
        (ap (λ part. served profile_id part agent)
          (model_part-described (get_or "model" (obj end) payload)))
