-- ===== src/Levenshtein/Rows.antt =====
-- The row of the loops as distances of prefixes, and what `distance` is.
use go_hdb.Prelude.{ℕ, suc, ◌+◌, ◌≤◌, ◌≡◌, refl, sym, ap, ap₂, ◌∙◌, List, [], ◌∷◌, ◌++◌, arith}
use go_hdb.Levenshtein.{
  Runes, count, first_row, entry, row_loop, next_row, rows_loop, last_entry, distance,
}
use go_hdb.Levenshtein.Least.{
  Edits, extend, edit, edit-le, edit-Edits, reverse, reverse-reverse, Edits-reverse,
}
use mathlib.Core.List.{append_assoc, append-nil}

-- The entries of the prefixes that end in b, behind a prefix that is `rb` backwards.
abbrev prefix_row : (Runes → ℕ) → Runes → Runes → List ℕ
prefix_row g rb [] = []
prefix_row g rb (c ∷ b) = g (c ∷ rb) ∷ prefix_row g (c ∷ rb) b

abbrev full_row : (Runes → ℕ) → Runes → List ℕ
full_row g b = g [] ∷ prefix_row g [] b

entry-extend :
    (ca cb : ℕ) (g : Runes → ℕ) (rb : Runes)
    → entry ca cb (g rb) (extend ca g rb) (g (cb ∷ rb)) ≡ extend ca g (cb ∷ rb)
unfolding entry
entry-extend ca cb g rb = refl

row_loop-prefix :
    (ca : ℕ) (g : Runes → ℕ) (rb b : Runes)
    → row_loop ca (g rb) (extend ca g rb) (prefix_row g rb b) b ≡ prefix_row (extend ca g) rb b
unfolding row_loop
row_loop-prefix ca g rb [] = refl
row_loop-prefix ca g rb (c ∷ b) =
    rw (entry-extend ca c g rb)
      (ap (λ (r : List ℕ). extend ca g (c ∷ rb) ∷ r) (row_loop-prefix ca g (c ∷ rb) b))

next_row-full :
    (ca : ℕ) (g : Runes → ℕ) (b : Runes) → next_row ca b (full_row g b) ≡ full_row (extend ca g) b
unfolding next_row
next_row-full ca g b = ap (λ (r : List ℕ). (g [] + 1) ∷ r) (row_loop-prefix ca g [] b)

rows_loop-full :
    (a ra b : Runes) → rows_loop a b (full_row (edit ra) b) ≡ full_row (edit (reverse a ++ ra)) b
unfolding rows_loop
rows_loop-full [] ra b = refl
rows_loop-full (ca ∷ a) ra b =
    ap (rows_loop a b) (next_row-full ca (edit ra) b)
    ∙ rows_loop-full a (ca ∷ ra) b
    ∙ ap (λ (r : Runes). full_row (edit r) b) (sym (append_assoc (reverse a) (ca ∷ []) ra))

first_row-prefix : (rb b : Runes) → first_row (suc (count rb)) (count b) ≡ prefix_row count rb b
unfolding first_row
first_row-prefix rb [] = refl
first_row-prefix rb (c ∷ b) = ap (λ (r : List ℕ). suc (count rb) ∷ r) (first_row-prefix (c ∷ rb) b)

first_row-full : (b : Runes) → first_row 0 (count b + 1) ≡ full_row (edit []) b
unfolding first_row
first_row-full b =
    let e : count b + 1 ≡ suc (count b) = omega arith in
    rw e (ap (λ (r : List ℕ). 0 ∷ r) (first_row-prefix [] b))

last-prefix :
    (g : Runes → ℕ) (rb b : Runes) → last_entry (g rb ∷ prefix_row g rb b) ≡ g (reverse b ++ rb)
last-prefix g rb [] = refl
last-prefix g rb (c ∷ b) =
    last-prefix g (c ∷ rb) b ∙ ap g (sym (append_assoc (reverse b) (c ∷ []) rb))

distance-edit : (a b : Runes) → distance a b ≡ edit (reverse a) (reverse b)
unfolding distance
distance-edit a b =
    ap (λ (f : List ℕ). last_entry (rows_loop a b f)) (first_row-full b)
    ∙ ap last_entry (rows_loop-full a [] b)
    ∙ last-prefix (edit (reverse a ++ [])) [] b
    ∙ ap₂ edit (append-nil (reverse a)) (append-nil (reverse b))

-- The distance is a number of edits that is enough.
pub distance-Edits : (a b : Runes) → Edits a b (distance a b)
distance-Edits a b = rw (sym (distance-edit a b)) at (
    rw (reverse-reverse a, reverse-reverse b) at
      (Edits-reverse (reverse a) (reverse b) (edit (reverse a) (reverse b))
        (edit-Edits (reverse a) (reverse b))))

-- No fewer edits are enough.
pub distance-le : (a b : Runes) (n : ℕ) → Edits a b n → distance a b ≤ n
distance-le a b n e =
    rw (distance-edit a b) (edit-le (reverse a) (reverse b) n (Edits-reverse a b n e))
