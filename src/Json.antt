-- ===== src/Json.antt =====
-- JSON values as Python's `json` module returns them, and the conversions that the program
-- applies to them. A float is written as the text of its `repr`.
use package.text.Mathlib.Text.{◌==◌ as str_eq}
use hermes_link_server.Prelude.{
  ℕ, ◌+◌, Text, text, text_eq, decimal, String, Bool, true, false, not, Option, none, some, List,
  [], ◌∷◌, ◌++◌, ◌||◌, ◌==◌, if◌then◌else◌, is_empty,
}

-- `negsuc n` is -(n + 1).
pub data ℤ : Type 0 where
  pos : ℕ → ℤ
  negsuc : ℕ → ℤ

mutual
  pub data Json : Type 0 where
    null : Json
    bool : Bool → Json
    int : ℤ → Json
    float : Text → Json
    str : Text → Json
    arr : Items → Json
    obj : Fields → Json

  pub data Items : Type 0 where
    nil : Items
    cons : Json → Items → Items

  pub data Fields : Type 0 where
    end : Fields
    field : String → Json → Fields → Fields

-- A text that is handed to `json.loads`: the document that it holds, or no document.
pub data JsonText : Type 0 where
  document : Json → JsonText
  malformed : JsonText

unfoldable pub get : String → Fields → Option Json
get k end = none
get k (field j v fs) = if str_eq j k then some v else get k fs

-- `dict.get(k, default)`
abbrev pub with_default {ℓ} : {A : Type ℓ} → A → Option A → A
with_default d none = d
with_default d (some v) = v

unfoldable pub get_or : String → Json → Fields → Json
unfolding get
get_or k d fs = with_default d (get k fs)

abbrev pub keys : Fields → List String
keys end = []
keys (field k v fs) = k ∷ keys fs

unfoldable pub print_int : ℤ → Text
unfolding decimal
print_int (pos n) = decimal n
print_int (negsuc n) = b'-' ∷ decimal (n + 1)

-- `str(value)`. Of a list and a dict only the brackets are written: no pattern and no comparison
-- of the program accepts a text with a bracket, so it never tells two of them apart.
unfoldable pub to_text : Json → Text
unfolding print_int text
to_text null = text "None"
to_text (bool true) = text "True"
to_text (bool false) = text "False"
to_text (int n) = print_int n
to_text (float s) = s
to_text (str s) = s
to_text (arr _) = text "[]"
to_text (obj _) = text "{}"

-- `bool(value)`
unfoldable pub is_truthy : Json → Bool
unfolding text text_eq
is_truthy null = false
is_truthy (bool b) = b
is_truthy (int (pos n)) = not (n == 0)
is_truthy (int (negsuc n)) = true
is_truthy (float s) = not (text_eq s (text "0.0") || text_eq s (text "-0.0"))
is_truthy (str s) = not (is_empty s)
is_truthy (arr nil) = false
is_truthy (arr (cons _ _)) = true
is_truthy (obj end) = false
is_truthy (obj (field _ _ _)) = true

-- `str(value or "")`
unfoldable pub text_or_empty : Json → Text
unfolding to_text is_truthy
text_or_empty v = if is_truthy v then to_text v else []

-- `str(value or "")`, where `repr` is `str` on lists and dictionaries
unfoldable pub value_text : (Json → Text) → Json → Text
unfolding text_or_empty is_truthy
value_text repr (arr vs) = if is_truthy (arr vs) then repr (arr vs) else []
value_text repr (obj fs) = if is_truthy (obj fs) then repr (obj fs) else []
value_text repr v = text_or_empty v

-- `value == n`, for a natural number n
unfoldable pub equals_nat : ℕ → Json → Bool
unfolding text text_eq decimal
equals_nat n (bool true) = n == 1
equals_nat n (bool false) = n == 0
equals_nat n (int (pos m)) = m == n
equals_nat n (float s) = text_eq s (decimal n ++ text ".0")
equals_nat n _ = false

abbrev pub items : Items → List Json
items nil = []
items (cons v vs) = v ∷ items vs

abbrev pub texts : List Text → Items
texts [] = nil
texts (s ∷ ss) = cons (str s) (texts ss)
