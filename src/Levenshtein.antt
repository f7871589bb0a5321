-- ===== src/Levenshtein.antt =====
-- driver/internal/protocol/levenshtein/levenshtein.go: the distance of two texts by one row of a table.
-- A text is its runes. strings.ToLower is a parameter.
pub mod Least
pub mod Rows
pub mod Nearest
use Prim.Native.Nat.{min}
use go_hdb.Prelude.{
  ℕ, zero, suc, ◌+◌, ◌-◌, ◌^◌, Bool, true, false, List, [], ◌∷◌, ltb, ◌==◌, if◌then◌else◌,
}

abbrev pub Runes : Type 0
Runes = List ℕ

-- The loop `for j := range f` over a row of n entries from j on.
unfoldable pub first_row : ℕ → ℕ → List ℕ
first_row j zero = []
first_row j (suc n) = j ∷ first_row (suc j) n

-- The entry for the runes cb of b and ca of a: `up` is f[j], `left` the new f[j-1], and `corner` the old one.
unfoldable pub entry : ℕ → ℕ → ℕ → ℕ → ℕ → ℕ
entry ca cb corner left up =
    let mn = min (up + 1) (left + 1) in if cb == ca then min mn corner else min mn (corner + 1)

-- The loop over b, which overwrites f[1], f[2] and so on: fj1 is the old f[j-1], and `left` the new one.
unfoldable pub row_loop : ℕ → ℕ → ℕ → List ℕ → Runes → List ℕ
row_loop ca fj1 left f [] = f
row_loop ca fj1 left [] (cb ∷ b) = []
row_loop ca fj1 left (fj ∷ f) (cb ∷ b) =
    let mn = entry ca cb fj1 left fj in mn ∷ row_loop ca fj mn f b

-- One round of the loop over a.
unfoldable pub next_row : ℕ → Runes → List ℕ → List ℕ
next_row ca b [] = []
next_row ca b (f0 ∷ f) = (f0 + 1) ∷ row_loop ca f0 (f0 + 1) f b

unfoldable pub rows_loop : Runes → Runes → List ℕ → List ℕ
rows_loop [] b f = f
rows_loop (ca ∷ a) b f = rows_loop a b (next_row ca b f)

-- f[len(f)-1]; f is never empty.
abbrev pub last_entry : List ℕ → ℕ
last_entry [] = 0
last_entry (x ∷ []) = x
last_entry (x ∷ y ∷ xs) = last_entry (y ∷ xs)

abbrev pub count : Runes → ℕ
count [] = 0
count (c ∷ cs) = suc (count cs)

unfoldable pub distance : Runes → Runes → ℕ
distance a b = last_entry (rows_loop a b (first_row 0 (count b + 1)))

module _ (to_lower : Runes → Runes) where
  -- `Distance`.
  unfoldable pub distance_case : Runes → Runes → Bool → ℕ
  distance_case a b case_sensitive =
      if case_sensitive then distance a b else distance (to_lower a) (to_lower b)

  -- The loop of `MinString`, with math.MaxInt for no minimum yet; x is the texts that fn gives.
  unfoldable pub min_loop : List Runes → Runes → Bool → Runes → ℕ → Runes
  min_loop [] s case_sensitive rv least = rv
  min_loop (xs ∷ x) s case_sensitive rv least =
      let d = distance_case xs s case_sensitive in
      min_loop x s case_sensitive (if ltb d least then xs else rv)
        (if ltb d least then d else least)

  unfoldable pub min_string : List Runes → Runes → Bool → Runes
  min_string x s case_sensitive = min_loop x s case_sensitive [] (2 ^ 63 - 1)
