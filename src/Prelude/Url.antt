-- ===== src/Prelude/Url.antt =====
-- `urllib.parse.quote(text, safe='')`: unreserved characters stay, and every other code point
-- is written as the percent escapes of its UTF-8 bytes. (Python's surrogates are not code points
-- of a decoded text.)
use Prim.Native.Nat.{ℕ, ◌+◌, ◌-◌, ◌/◌, ◌%◌}
use mathlib.Core.Path.{◌≡◌, refl}
use mathlib.Core.Bool.{Bool, true, ◌||◌}
use mathlib.Core.List.{List, [], ◌∷◌, ◌++◌}
use native.Mathlib.Omega.{arith}
use hermes_link_server.Prelude.Tests.{ltb, ◌==◌, if◌then◌else◌}
use hermes_link_server.Prelude.Lists.{all}
use hermes_link_server.Prelude.Texts.{Text, is_name_char, is_profile_id}

unfoldable pub utf8 : ℕ → List ℕ
utf8 c =
    if ltb c 0x80
    then c ∷ []
    else if ltb c 0x800
    then (0xc0 + c / 64) ∷ (0x80 + c % 64) ∷ []
    else if ltb c 0x10000
    then (0xe0 + c / 4096) ∷ (0x80 + c / 64 % 64) ∷ (0x80 + c % 64) ∷ []
    else (0xf0 + c / 262144) ∷ (0x80 + c / 4096 % 64) ∷ (0x80 + c / 64 % 64) ∷ (0x80 + c % 64) ∷ []

hex_digit : ℕ → ℕ
hex_digit n = if ltb n 10 then b'0' + n else b'A' + (n - 10)

escapes : List ℕ → Text
escapes [] = []
escapes (b ∷ bs) = b'%' ∷ hex_digit (b / 16) ∷ hex_digit (b % 16) ∷ escapes bs

-- letters, digits and `_.-~`
is_unreserved : ℕ → Bool
unfolding is_name_char
is_unreserved c = is_name_char c || c == b'~'

unfoldable pub quote : Text → Text
unfolding utf8 escapes hex_digit is_unreserved
quote [] = []
quote (c ∷ s) = let rest = quote s in if is_unreserved c then c ∷ rest else escapes (utf8 c) ++ rest

quote-name_chars : (s : Text) → all is_name_char s ≡ true → quote s ≡ s
unfolding quote
quote-name_chars [] h = refl
quote-name_chars (c ∷ s) h = unfold is_unreserved in ground (arith, quote-name_chars s)

-- A profile id is its own quotation.
pub quote-profile_id : (s : Text) → is_profile_id s ≡ true → quote s ≡ s
unfolding is_profile_id
quote-profile_id s h = quote-name_chars s (ground arith)
