-- ===== src/Notifications/Direct/Prune.antt =====
-- `_prune`: what it keeps, and how many rows it leaves.
use hermes_link_server.Prelude.{
  ℕ, ◌≤◌, ◌<◌, ◌≡◌, refl, Bool, true, false, ltb, none, some, List, [], ◌∷◌, ◌++◌, arith, any, keep,
  length, All, Bool-cases, Option-cases, inl, inr,
}
use hermes_link_server.Notifications.Floats.{Floats}
use hermes_link_server.Notifications.Direct.{Row, newest_offset, drop_through}

module _ {ℓ κ} {A : Type ℓ} (P : A → Type κ) (p : A → Bool) where
  pub All-keep : (xs : List A) → All P xs → All P (keep p xs)
  All-keep [] h = tt
  All-keep (x ∷ xs) (px, h) = ground (arith, px, All-keep xs h)

module _ {ℓ} {A : Type ℓ} (p : A → Bool) where
  pub length-keep-le : (xs : List A) → length (keep p xs) ≤ length xs
  length-keep-le [] = omega arith
  length-keep-le (x ∷ xs) = ground (arith, length-keep-le xs)

  pub keep-snoc : (xs : List A) (x : A) → p x ≡ true → keep p (xs ++ x ∷ []) ≡ keep p xs ++ x ∷ []
  keep-snoc [] x h = ground arith
  keep-snoc (y ∷ xs) x h = ground (arith, keep-snoc xs x h)

  pub any-keep : (q : A → Bool) (xs : List A) → any q xs ≡ false → any q (keep p xs) ≡ false
  any-keep q [] h = refl
  any-keep q (x ∷ xs) h = ground (arith, any-keep q xs)

module _ (F : Floats) where
  -- The sequences rise along the rows, from above `low`.
  abbrev pub Rising : ℕ → List (Row F) → Type 0
  Rising low [] = Unit
  Rising low (r ∷ rs) = (low < r.sequence) × Rising r.sequence rs

  pub Rising-weaken :
      (low low' : ℕ) (rs : List (Row F)) → low' ≤ low → Rising low rs → Rising low' rs
  Rising-weaken low low' [] h _ = tt
  Rising-weaken low low' (r ∷ rs) h (lt, rising) = (omega arith, rising)

  pub Rising-keep :
      (p : Row F → Bool) (low : ℕ) (rs : List (Row F)) → Rising low rs → Rising low (keep p rs)
  Rising-keep p low [] h = tt
  Rising-keep p low (r ∷ rs) (lt, rising) = elim (Bool-cases (p r)) [
    | inl kept ↦ rw kept (lt, Rising-keep p r.sequence rs rising)
    | inr dropped ↦ rw dropped (
        Rising-weaken r.sequence low (keep p rs) (omega arith) (Rising-keep p r.sequence rs rising))
  ]

  -- Where the last sequence is at most `high`, a row above it can follow.
  pub Rising-snoc :
      (low high : ℕ) (rs : List (Row F)) (x : Row F)
      → Rising low rs
      → All (λ r. r.sequence ≤ high) rs
      → low ≤ high
      → high < x.sequence
      → Rising low (rs ++ x ∷ [])
  Rising-snoc low high [] x _ _ h k = (omega arith, tt)
  Rising-snoc low high (r ∷ rs) x (lt, rising) (le, all) h k =
      (lt, Rising-snoc r.sequence high rs x rising all le k)

  pub newest_offset-gt :
      (k low p : ℕ) (rs : List (Row F)) → Rising low rs → newest_offset F k rs ≡ some p → low < p
  unfolding newest_offset
  newest_offset-gt k low p [] h e = cc
  newest_offset-gt k low p (r ∷ rs) (lt, rising) e =
      ground (arith, newest_offset-gt k r.sequence p rs rising)

  length-keep_above :
      (k low p : ℕ) (rs : List (Row F))
      → Rising low rs
      → newest_offset F k rs ≡ some p
      → length (keep (λ (r : Row F). ltb p r.sequence) rs) ≤ k
  unfolding newest_offset
  length-keep_above k low p [] h e = omega arith
  length-keep_above k low p (r ∷ rs) (lt, rising) e = ground (
    arith,
    length-keep_above k r.sequence p rs rising,
    newest_offset-gt k r.sequence p rs rising,
    length-keep-le (λ (x : Row F). ltb p x.sequence) rs,
  )

  newest_offset-none : (k : ℕ) (rs : List (Row F)) → newest_offset F k rs ≡ none → length rs ≤ k
  unfolding newest_offset
  newest_offset-none k [] e = omega arith
  newest_offset-none k (r ∷ rs) e = ground (arith, newest_offset-none k rs)

  pub drop_through-le :
      (k low : ℕ) (rs : List (Row F))
      → Rising low rs
      → length (drop_through F (newest_offset F k rs) rs) ≤ k
  unfolding drop_through
  drop_through-le k low rs h = elim (Option-cases (newest_offset F k rs)) [
    | inl e ↦ rw e (newest_offset-none k rs e)
    | inr (p, e) ↦ rw e (length-keep_above k low p rs h e)
  ]
