-- ===== src/Bridge/Sse.antt =====
-- src/hermes_link/integrations/hermes_agent/bridge.py: the texts of server-sent events. A blank
-- line ends a block; the lines of a block carry the event name and the data.
use hermes_link_server.Prelude.{
  ℕ, Text, ◌≡◌, refl, sym, ap, Bool, true, false, ◌&&◌, ◌==◌, if◌then◌else◌, List, [], ◌∷◌, ◌++◌,
}

abbrev pub newline : ℕ
newline = 10

-- the first line, one character longer
abbrev extend_line : ℕ → List Text → List Text
extend_line c [] = (c ∷ []) ∷ []
extend_line c (l ∷ ls) = (c ∷ l) ∷ ls

-- `block.split("\n")`
unfoldable pub lines_of : Text → List Text
lines_of [] = [] ∷ []
lines_of (c ∷ s) = let rest = lines_of s in if c == newline then [] ∷ rest else extend_line c rest

-- `"\n".join(parts)`
unfoldable pub join_lines : List Text → Text
join_lines [] = []
join_lines (l ∷ []) = l
join_lines (l ∷ m ∷ ls) = l ++ newline ∷ join_lines (m ∷ ls)

-- The finished blocks, and what follows the last blank line.
abbrev pub Blocks : Type 0
Blocks = List Text × Text

abbrev extend_blocks : ℕ → Blocks → Blocks
extend_blocks c ([], rest) = ([], c ∷ rest)
extend_blocks c (b ∷ bs, rest) = ((c ∷ b) ∷ bs, rest)

-- `while "\n\n" in buffer: block, buffer = buffer.split("\n\n", 1)`
unfoldable pub split_blocks : Text → Blocks
split_blocks [] = ([], [])
split_blocks (c ∷ []) = ([], c ∷ [])
split_blocks (c ∷ d ∷ s) =
    let after = split_blocks s in
    let later = split_blocks (d ∷ s) in
    if c == newline && d == newline then ([] ∷ after.0, after.1) else extend_blocks c later

abbrev pub after_blocks : Blocks → Text → Blocks
after_blocks (bs, rest) s = (bs ++ (split_blocks (rest ++ s)).0, (split_blocks (rest ++ s)).1)

abbrev step : Bool → ℕ → Blocks → Blocks → Blocks
step b c after later = if b then ([] ∷ after.0, after.1) else extend_blocks c later

step_rest :
    (b : Bool) (c : ℕ) (after later : Blocks) (s : Text)
    → (later.0 ≡ [] → later.1 ≡ s)
    → (step b c after later).0 ≡ []
    → (step b c after later).1 ≡ c ∷ s
step_rest true c after later s h e = cc
step_rest false c after ([], r) s h e = ap (λ z. c ∷ z) (h refl)
step_rest false c after (l ∷ ls, r) s h e = cc

-- A text without a finished block is all rest.
pub split_blocks_rest : (s : Text) → (split_blocks s).0 ≡ [] → (split_blocks s).1 ≡ s
unfolding split_blocks
split_blocks_rest [] e = refl
split_blocks_rest (c ∷ []) e = refl
split_blocks_rest (c ∷ d ∷ s) e =
    step_rest (c == newline && d == newline) c (split_blocks s) (split_blocks (d ∷ s)) (d ∷ s)
      (split_blocks_rest (d ∷ s)) e

step_append :
    (b : Bool) (c : ℕ) (after later after' later' : Blocks) (t : Text)
    → after' ≡ after_blocks after t
    → later' ≡ after_blocks later t
    → (b ≡ false → later.0 ≡ [] → split_blocks (c ∷ later.1 ++ t) ≡ extend_blocks c later')
    → step b c after' later' ≡ after_blocks (step b c after later) t
step_append true c after later after' later' t e f h = rw e refl
step_append false c after ([], r) after' later' t e f h = sym (h refl refl)
step_append false c after (l ∷ ls, r) after' later' t e f h = rw f refl

-- The blocks of a text do not depend on where the text is cut into two.
pub split_blocks-append : (s t : Text) → split_blocks (s ++ t) ≡ after_blocks (split_blocks s) t
unfolding split_blocks
split_blocks-append [] t = refl
split_blocks-append (c ∷ []) t = refl
split_blocks-append (c ∷ d ∷ s) t =
    step_append (c == newline && d == newline) c (split_blocks s) (split_blocks (d ∷ s))
      (split_blocks (s ++ t)) (split_blocks (d ∷ s ++ t)) t (split_blocks-append s t)
      (split_blocks-append (d ∷ s) t) (λ f n. rw (split_blocks_rest (d ∷ s) n, f) refl)

step_open :
    (b : Bool) (c : ℕ) (after later : Blocks)
    → split_blocks after.1 ≡ ([], after.1)
    → split_blocks later.1 ≡ ([], later.1)
    → (b ≡ false → later.0 ≡ [] → split_blocks (c ∷ later.1) ≡ ([], c ∷ later.1))
    → split_blocks (step b c after later).1 ≡ ([], (step b c after later).1)
step_open true c after later f g h = f
step_open false c after ([], r) f g h = h refl refl
step_open false c after (l ∷ ls, r) f g h = g

-- What follows the last blank line holds no finished block.
pub split_blocks_open : (s : Text) → split_blocks (split_blocks s).1 ≡ ([], (split_blocks s).1)
unfolding split_blocks
split_blocks_open [] = refl
split_blocks_open (c ∷ []) = refl
split_blocks_open (c ∷ d ∷ s) =
    step_open (c == newline && d == newline) c (split_blocks s) (split_blocks (d ∷ s))
      (split_blocks_open s) (split_blocks_open (d ∷ s))
      λ f n.
        let whole = split_blocks_rest (d ∷ s) n in
        rw (whole, f) (λ i. extend_blocks c (n i, whole i))
