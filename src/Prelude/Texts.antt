-- ===== src/Prelude/Texts.antt =====
-- Python's `str` as the list of its code points, with the methods that the program calls.
use Prim.Native.Nat.{ℕ, zero, suc, ◌+◌, ◌/◌, ◌%◌}
use Prim.Native.Char.{code}
use Prim.Native.String.{String}
use mathlib.Core.Path.{◌≡◌, refl}
use mathlib.Core.Logic.{◌↔◌}
use mathlib.Core.Bool.{Bool, true, false, ◌&&◌, ◌||◌}
use mathlib.Core.Option.{Option, none, some}
use mathlib.Core.List.{List, [], ◌∷◌, ◌++◌}
use native.Mathlib.Omega.{arith}
use hermes_link_server.Prelude.Tests.{leb, ◌==◌, if◌then◌else◌}
use hermes_link_server.Prelude.Lists.{length, all}

abbrev pub Text : Type 0
Text = List ℕ

-- A literal of the source.
unfoldable pub text : String → Text
text String.[] = []
text (String.◌∷◌ c s) = code c ∷ text s

unfoldable pub text_eq : Text → Text → Bool
text_eq [] [] = true
text_eq [] (_ ∷ _) = false
text_eq (_ ∷ _) [] = false
text_eq (a ∷ s) (b ∷ t) = a == b && text_eq s t

pub text_eq_sound : (s t : Text) → text_eq s t ≡ true → s ≡ t
unfolding text_eq
text_eq_sound [] [] h = refl
text_eq_sound [] (_ ∷ _) h = cc
text_eq_sound (_ ∷ _) [] h = cc
text_eq_sound (a ∷ s) (b ∷ t) h = ground (arith, text_eq_sound s t)

pub text_eq_refl : (s : Text) → text_eq s s ≡ true
unfolding text_eq
text_eq_refl [] = refl
text_eq_refl (a ∷ s) = ground (arith, text_eq_refl s)

pub text_eq_complete : (s t : Text) → s ≡ t → text_eq s t ≡ true
text_eq_complete s t e = rw e (text_eq_refl t)

pub text_eq_iff : (s t : Text) → (text_eq s t ≡ true) ↔ (s ≡ t)
text_eq_iff s t = (text_eq_sound s t, text_eq_complete s t)

-- `s in list`
unfoldable pub contains : Text → List Text → Bool
contains s [] = false
contains s (t ∷ ts) = text_eq t s || contains s ts

-- `not s`
abbrev pub is_empty : Text → Bool
is_empty [] = true
is_empty (_ ∷ _) = false

-- The code points for which `str.isspace` holds.
unfoldable pub is_space : ℕ → Bool
is_space c =
    (leb 9 c && leb c 13)
    || (leb 28 c && leb c 32)
    || c == 0x85
    || c == 0xa0
    || c == 0x1680
    || (leb 0x2000 c && leb c 0x200a)
    || c == 0x2028
    || c == 0x2029
    || c == 0x202f
    || c == 0x205f
    || c == 0x3000

-- `lstrip`, `rstrip` and `strip` by a test on the code points
unfoldable pub lstrip : (ℕ → Bool) → Text → Text
lstrip p [] = []
lstrip p (c ∷ s) = let rest = lstrip p s in if p c then rest else c ∷ s

abbrev pub drop_last : Bool → ℕ → Text → Text
drop_last true c [] = []
drop_last true c (d ∷ r) = c ∷ d ∷ r
drop_last false c r = c ∷ r

unfoldable pub rstrip : (ℕ → Bool) → Text → Text
rstrip p [] = []
rstrip p (c ∷ s) = drop_last (p c) c (rstrip p s)

-- `strip()`
unfoldable pub strip : Text → Text
unfolding lstrip rstrip is_space
strip s = rstrip is_space (lstrip is_space s)

-- `startswith`, and what follows the prefix
unfoldable pub after_prefix : Text → Text → Option Text
after_prefix [] s = some s
after_prefix (_ ∷ _) [] = none
after_prefix (a ∷ p) (b ∷ s) = if a == b then after_prefix p s else none

abbrev pub is_some {ℓ} : {A : Type ℓ} → Option A → Bool
is_some none = false
is_some (some _) = true

unfoldable pub starts_with : Text → Text → Bool
unfolding after_prefix
starts_with p s = is_some (after_prefix p s)

pub after_prefix_sound : (p s r : Text) → after_prefix p s ≡ some r → s ≡ p ++ r
unfolding after_prefix
after_prefix_sound [] s r h = ground arith
after_prefix_sound (a ∷ p) [] r h = cc
after_prefix_sound (a ∷ p) (b ∷ s) r h = ground (arith, after_prefix_sound p s r)

pub after_prefix-append : (p r : Text) → after_prefix p (p ++ r) ≡ some r
unfolding after_prefix
after_prefix-append [] r = refl
after_prefix-append (a ∷ p) r = ground (arith, after_prefix-append p r)

-- `str.lower` on the code points that it takes into ASCII (A to Z, and the Kelvin sign). It leaves
-- no other code point in ASCII but U+0130, which becomes `i` and a combining dot.
unfoldable pub lower : Text → Text
lower [] = []
lower (c ∷ s) =
    let rest = lower s in
    if leb b'A' c && leb c b'Z'
    then (c + 32) ∷ rest
    else if c == 0x212a
    then b'k' ∷ rest
    else if c == 0x130
    then b'i' ∷ 0x307 ∷ rest
    else c ∷ rest

-- A pattern `^[class]{lo,hi}$` under `fullmatch`.
unfoldable pub full_match : (ℕ → Bool) → ℕ → ℕ → Text → Bool
full_match p lo hi s = all p s && (leb lo (length s) && leb (length s) hi)

unfoldable pub is_alnum : ℕ → Bool
is_alnum c = (leb b'0' c && leb c b'9') || (leb b'A' c && leb c b'Z') || (leb b'a' c && leb c b'z')

-- `[A-Za-z0-9_-]`
unfoldable pub is_url_safe : ℕ → Bool
unfolding is_alnum
is_url_safe c = is_alnum c || c == b'_' || c == b'-'

-- `[A-Za-z0-9._-]`
unfoldable pub is_name_char : ℕ → Bool
unfolding is_alnum
is_name_char c = is_alnum c || c == b'.' || c == b'_' || c == b'-'

-- `PROFILE_ID_PATTERN`: `^[A-Za-z0-9._-]{1,64}$`
unfoldable pub is_profile_id : Text → Bool
unfolding full_match is_name_char
is_profile_id s = full_match is_name_char 1 64 s

-- The decimal digits of a number, as `str(int)` prints them.
digits_on_fuel : ℕ → ℕ → Text → Text
digits_on_fuel zero n acc = acc
digits_on_fuel (suc f) n acc =
    let acc' = (n % 10 + b'0') ∷ acc in
    let rest = digits_on_fuel f (n / 10) acc' in if n / 10 == 0 then acc' else rest

unfoldable pub decimal : ℕ → Text
unfolding digits_on_fuel
decimal n = digits_on_fuel (n + 1) n []
