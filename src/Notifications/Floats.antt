-- ===== src/Notifications/Floats.antt =====
-- Python's floats, of which the program only converts, stores and compares time stamps.
use hermes_link_server.Prelude.{ℕ, ◌≡◌, refl, Bool, false, Option, none, some, ltb, arith, ◌+◌}
use hermes_link_server.Json.{Json, int, pos}

pub record Floats : Type 1 where
  pub Real : Type 0
  -- `float(value)`; `none` is a TypeError or a ValueError
  pub of_json : Json → Option Real
  -- the number as a JSON document holds it
  pub to_json : Real → Json
  -- `a < b - n`
  pub before : Real → Real → ℕ → Bool
  pub is_nan : Real → Bool
  pub of_json-to_json : (a : Real) → of_json (to_json a) ≡ some a
  -- No float, infinities and not-a-number included, is less than itself less n.
  pub before_irrefl : (a : Real) (n : ℕ) → before a a n ≡ false

-- Whole seconds: the assumptions can be met.
abbrev pub of_nat : Json → Option ℕ
of_nat (int (pos n)) = some n
of_nat _ = none

pub ltb_irrefl : (a n : ℕ) → ltb (a + n) a ≡ false
ltb_irrefl a n = ground arith

abbrev pub whole_seconds : Floats
whole_seconds = record {
  Real = ℕ;
  of_json = of_nat;
  to_json = λ n. int (pos n);
  before = λ a b n. ltb (a + n) b;
  is_nan = λ a. false;
  of_json-to_json = λ a. refl;
  before_irrefl = ltb_irrefl;
}
