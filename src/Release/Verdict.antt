-- ===== src/Release/Verdict.antt =====
-- scripts/release_manifest.py: the results of its functions. An exception is a value, with the
-- message of a ManifestError; `main` catches no other one.
use hermes_link_server.Prelude.{◌≡◌, refl, Text, Bool, true, false}

pub data Raised : Type 0 where
  manifest_error : Text → Raised
  type_error : Raised
  index_error : Raised

pub data Verdict {ℓ} (Given : Type ℓ) : Type ℓ where
  raised : Raised → Verdict Given
  accepted : Given → Verdict Given

infixl 5 ◌>>=◌
abbrev pub ◌>>=◌ {ℓ κ} :
    {Given : Type ℓ} {After : Type κ} → Verdict Given → (Given → Verdict After) → Verdict After
raised why >>= after = raised why
accepted given >>= after = after given

-- `if not passed: raise ManifestError(message)`
abbrev pub require : Bool → Text → Verdict {0} Unit
require true message = accepted tt
require false message = raised (manifest_error message)

module _ {ℓ κ μ} {Given : Type ℓ} {After : Type κ} {Goal : Type μ} where
  -- A sequence that is accepted: so are its parts.
  pub both :
      (first : Verdict Given) (after : Given → Verdict After) {b : After}
      → first >>= after ≡ accepted b
      → ((a : Given) → first ≡ accepted a → after a ≡ accepted b → Goal)
      → Goal
  both (raised why) after h k = cc
  both (accepted a) after h k = k a refl h

pub both_required {κ μ} :
    {After : Type κ} {Goal : Type μ} (passed : Bool) (message : Text) (after : Unit → Verdict After)
    {b : After}
    → require passed message >>= after ≡ accepted b
    → (passed ≡ true → after tt ≡ accepted b → Goal)
    → Goal
both_required false message after h k = cc
both_required true message after h k = k refl h

pub require_passed :
    (passed : Bool) (message : Text) (u : Unit)
    → require passed message ≡ accepted u
    → passed ≡ true
require_passed true message u h = refl
require_passed false message u h = cc

pub accepted_injective {ℓ} : {A : Type ℓ} {a b : A} → accepted a ≡ accepted b → a ≡ b
accepted_injective h = cc
