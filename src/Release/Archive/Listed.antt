-- ===== src/Release/Archive/Listed.antt =====
-- The elements of the `manifests` of an index, and the one that is chosen of them.
use hermes_link_server.Prelude.{
  Bool, List, [], ◌∷◌, ◌++◌, ◌≡◌, refl, ap, keep, Bool-cases, inl, inr, Text,
}
use hermes_link_server.Json.{Json, null, str, int, arr, obj, Items, Fields, get_or, items}
use hermes_link_server.Release.Verdict.{accepted, accepted_injective}
use hermes_link_server.Release.Archive.{list_of}

-- An index that is an object, with its `manifests`.
pub record IsListed (index : Json) (children : List Json) : Type 0 where
  pub fields : Fields
  pub is_object : index ≡ obj fields
  pub manifests : (vs : Items) × (get_or "manifests" null fields ≡ arr vs) × (children ≡ items vs)

list_of_sound :
    (v : Json) (message : Text) (vs : List Json)
    → list_of v message ≡ accepted vs
    → (is : Items) × (v ≡ arr is) × (vs ≡ items is)
unfolding list_of
list_of_sound (arr is) message vs h = (is, refl, cc (accepted_injective h))
list_of_sound null message vs h = cc
list_of_sound (Json.bool b) message vs h = cc
list_of_sound (int n) message vs h = cc
list_of_sound (Json.float f) message vs h = cc
list_of_sound (str s) message vs h = cc
list_of_sound (obj fs) message vs h = cc

pub list_of-IsListed :
    (index : Json) (fields : Fields) (children : List Json) (message : Text)
    → index ≡ obj fields
    → list_of (get_or "manifests" null fields) message ≡ accepted children
    → IsListed index children
list_of-IsListed index fields children message e h = record {
  fields = fields;
  is_object = e;
  manifests = list_of_sound _ message children h;
}

-- A value stands in a list.
abbrev pub Among {ℓ} : {A : Type ℓ} → A → List A → Type ℓ
Among {A = A} v vs = (before : List A) × (after : List A) × (vs ≡ before ++ v ∷ after)

pub keep_one-Among {ℓ} :
    {A : Type ℓ} (p : A → Bool) (vs : List A) (v : A) → keep p vs ≡ v ∷ [] → Among v vs
keep_one-Among p [] v h = cc
keep_one-Among p (x ∷ xs) v h = elim (Bool-cases (p x)) [
  | inl e ↦ ([], xs, cc (rw e at h))
  | inr e ↦
      let (before, after, same) = keep_one-Among p xs v (rw e at h) in
      (x ∷ before, after, ap (λ ys. x ∷ ys) same)
]
