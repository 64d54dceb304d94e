-- ===== src/Prelude/Words.antt =====
-- Texts that hold no white space, and lists of distinct texts.
use hermes_link_server.Prelude.Lists.{all}
use hermes_link_server.Prelude.Texts.{
  Text, text_eq, contains, is_space, lstrip, rstrip, strip, is_name_char, is_url_safe,
  is_profile_id, is_empty,
}
use Prim.Native.Nat.{ℕ}
use mathlib.Core.Path.{◌≡◌, refl}
use mathlib.Core.Bool.{Bool, true, false, not, ◌||◌}
use mathlib.Core.List.{List, [], ◌∷◌, ◌++◌}
use native.Mathlib.Omega.{arith}

pub text_eq_sym : (s t : Text) → text_eq s t ≡ text_eq t s
unfolding text_eq
text_eq_sym [] [] = refl
text_eq_sym [] (_ ∷ _) = refl
text_eq_sym (_ ∷ _) [] = refl
text_eq_sym (a ∷ s) (b ∷ t) = ground (arith, text_eq_sym s t)

-- `s in list` for lists that are joined
pub contains-append :
    (s : Text) (xs ys : List Text) → contains s (xs ++ ys) ≡ (contains s xs || contains s ys)
unfolding contains
contains-append s [] ys = refl
contains-append s (x ∷ xs) ys = ground (arith, contains-append s xs ys)

-- No text stands twice in the list.
abbrev pub Distinct : List Text → Type 0
Distinct [] = Unit
Distinct (x ∷ xs) = (contains x xs ≡ false) × Distinct xs

pub Distinct-snoc :
    (xs : List Text) (s : Text) → Distinct xs → contains s xs ≡ false → Distinct (xs ++ s ∷ [])
unfolding contains
Distinct-snoc [] s d h = (refl, tt)
Distinct-snoc (x ∷ xs) s (new, d) h = (
  ground (arith, contains-append x xs (s ∷ []), text_eq_sym x s),
  Distinct-snoc xs s d (ground arith),
)

pub contains-of_Distinct :
    (xs : List Text) (s : Text) (ys : List Text) → Distinct (xs ++ s ∷ ys) → contains s xs ≡ false
unfolding contains
contains-of_Distinct [] s ys d = refl
contains-of_Distinct (x ∷ xs) s ys (new, d) =
    ground (arith, contains-append x xs (s ∷ ys), text_eq_sym x s, contains-of_Distinct xs s ys d)

abbrev has_no_space : Text → Bool
has_no_space s = all (λ c. not (is_space c)) s

lstrip-no_space : (s : Text) → has_no_space s ≡ true → lstrip is_space s ≡ s
unfolding lstrip
lstrip-no_space [] h = refl
lstrip-no_space (c ∷ s) h = ground arith

rstrip-no_space : (s : Text) → has_no_space s ≡ true → rstrip is_space s ≡ s
unfolding rstrip
rstrip-no_space [] h = refl
rstrip-no_space (c ∷ s) h = ground (arith, rstrip-no_space s)

pub strip-no_space : (s : Text) → has_no_space s ≡ true → strip s ≡ s
unfolding strip
strip-no_space s h = rw (lstrip-no_space s h) (rstrip-no_space s h)

pub is_space-is_name_char : (c : ℕ) → is_name_char c ≡ true → is_space c ≡ false
unfolding is_name_char is_space
is_space-is_name_char c h = ground arith

is_space-is_url_safe : (c : ℕ) → is_url_safe c ≡ true → is_space c ≡ false
unfolding is_url_safe is_space
is_space-is_url_safe c h = ground arith

no_space-name_chars : (s : Text) → all is_name_char s ≡ true → has_no_space s ≡ true
no_space-name_chars [] h = refl
no_space-name_chars (c ∷ s) h = ground (arith, is_space-is_name_char c, no_space-name_chars s)

pub no_space-url_safe : (s : Text) → all is_url_safe s ≡ true → has_no_space s ≡ true
no_space-url_safe [] h = refl
no_space-url_safe (c ∷ s) h = ground (arith, is_space-is_url_safe c, no_space-url_safe s)

-- A profile id has no white space at its ends.
pub strip-profile_id : (s : Text) → is_profile_id s ≡ true → strip s ≡ s
unfolding is_profile_id
strip-profile_id s h = strip-no_space s (no_space-name_chars s (ground arith))

pub profile_id-nonempty : (s : Text) → is_profile_id s ≡ true → is_empty s ≡ false
unfolding is_profile_id
profile_id-nonempty [] h = ground arith
profile_id-nonempty (c ∷ s) h = refl
