-- ===== src/Levenshtein/Nearest.antt =====
-- What `MinString` returns.
use go_hdb.Prelude.{
  ℕ, ◌-◌, ◌^◌, ◌≤◌, ◌<◌, ◌≡◌, refl, sym, ap, Bool, true, false, List, [], ◌∷◌, arith, ltb,
  Bool-cases, inl, inr, All,
}
use mathlib.Core.Path.{subst}
use go_hdb.Levenshtein.{Runes, distance_case, min_loop, min_string}

module _ (to_lower : Runes → Runes) (s : Runes) (case_sensitive : Bool) where
  abbrev pub to_s : Runes → ℕ
  to_s xs = distance_case to_lower xs s case_sensitive

  abbrev pub NoNearer : ℕ → List Runes → Type 0
  NoNearer d x = All (λ (xs : Runes). d ≤ to_s xs) x

  min_loop-end : (rv : Runes) (least : ℕ) → min_loop to_lower [] s case_sensitive rv least ≡ rv
  unfolding min_loop
  min_loop-end rv least = refl

  min_loop-nearer :
      (xs : Runes) (x : List Runes) (rv : Runes) (least : ℕ)
      → ltb (to_s xs) least ≡ true
      → min_loop to_lower (xs ∷ x) s case_sensitive rv least
        ≡ min_loop to_lower x s case_sensitive xs (to_s xs)
  unfolding min_loop
  min_loop-nearer xs x rv least t = rw t refl

  min_loop-other :
      (xs : Runes) (x : List Runes) (rv : Runes) (least : ℕ)
      → ltb (to_s xs) least ≡ false
      → min_loop to_lower (xs ∷ x) s case_sensitive rv least
        ≡ min_loop to_lower x s case_sensitive rv least
  unfolding min_loop
  min_loop-other xs x rv least t = rw t refl

  min_loop-NoNearer :
      (x : List Runes) (rv : Runes) (least : ℕ)
      → to_s rv ≡ least
      → (to_s (min_loop to_lower x s case_sensitive rv least) ≤ least)
        × NoNearer (to_s (min_loop to_lower x s case_sensitive rv least)) x
  min_loop-NoNearer [] rv least e = (start rv least e, tt)
    where
      start :
          (rv : Runes) (least : ℕ)
          → to_s rv ≡ least
          → to_s (min_loop to_lower [] s case_sensitive rv least) ≤ least
      start rv least e = omega (arith, e, ap to_s (min_loop-end rv least))
  min_loop-NoNearer (xs ∷ x) rv least e = elim (Bool-cases (ltb (to_s xs) least)) [
    | inl t ↦
        let h = min_loop-NoNearer x xs (to_s xs) refl in
        let less : to_s xs < least = ground (arith, t) in
        subst (λ (r : Runes). (to_s r ≤ least) × NoNearer (to_s r) (xs ∷ x))
          (sym (min_loop-nearer xs x rv least t)) (omega (arith, h.0, less), (h.0, h.1))
    | inr t ↦
        let h = min_loop-NoNearer x rv least e in
        let more : least ≤ to_s xs = ground (arith, t) in
        subst (λ (r : Runes). (to_s r ≤ least) × NoNearer (to_s r) (xs ∷ x))
          (sym (min_loop-other xs x rv least t)) (h.0, (omega (arith, h.0, more), h.1))
  ]

  -- No text is nearer to s than the one that is returned.
  pub min_string-NoNearer :
      (x : List Runes)
      → All (λ (xs : Runes). to_s xs < 2 ^ 63 - 1) x
      → NoNearer (to_s (min_string to_lower x s case_sensitive)) x
  unfolding min_string
  min_string-NoNearer [] h = tt
  min_string-NoNearer (xs ∷ x) (h, hs) =
      subst (λ (r : Runes). NoNearer (to_s r) (xs ∷ x))
        (sym (min_loop-nearer xs x [] (2 ^ 63 - 1) (ground (arith, h))))
        (min_loop-NoNearer x xs (to_s xs) refl)
