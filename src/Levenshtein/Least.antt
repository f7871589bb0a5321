-- ===== src/Levenshtein/Least.antt =====
-- The distance of two texts as the least number of edits, and the recursion that computes it.
use Prim.Native.Nat.{min}
use go_hdb.Prelude.{
  ℕ, suc, ◌+◌, ◌≤◌, ◌≡◌, refl, sym, Bool, true, false, ◌⊎◌, [], ◌∷◌, ◌++◌, arith, ◌==◌,
  if◌then◌else◌, inl, inr,
}
use mathlib.Core.List.{append_assoc, append-nil}
use mathlib.Core.Path.{subst}
use go_hdb.Levenshtein.{Runes, count}

-- One text is turned into the other by n changes, insertions and deletions.
pub data Edits : Runes → Runes → ℕ → Type 0 where
  done : Edits [] [] 0
  keep : {x : ℕ} {xs ys : Runes} {n : ℕ} → Edits xs ys n → Edits (x ∷ xs) (x ∷ ys) n
  change : {x y : ℕ} {xs ys : Runes} {n : ℕ} → Edits xs ys n → Edits (x ∷ xs) (y ∷ ys) (suc n)
  insertion : {y : ℕ} {xs ys : Runes} {n : ℕ} → Edits xs ys n → Edits xs (y ∷ ys) (suc n)
  deletion : {x : ℕ} {xs ys : Runes} {n : ℕ} → Edits xs ys n → Edits (x ∷ xs) ys (suc n)

-- The distance from x and a text, whose distances are `before`.
abbrev pub extend : ℕ → (Runes → ℕ) → Runes → ℕ
extend x before [] = before [] + 1
extend x before (y ∷ ys) =
    let mn = min (before (y ∷ ys) + 1) (extend x before ys + 1) in
    if y == x then min mn (before ys) else min mn (before ys + 1)

abbrev pub edit : Runes → Runes → ℕ
edit [] ys = count ys
edit (x ∷ xs) ys = extend x (edit xs) ys

insertions : (ys : Runes) → Edits [] ys (count ys)
insertions [] = Edits.done
insertions (y ∷ ys) = Edits.insertion (insertions ys)

edit-insertion : (xs : Runes) (y : ℕ) (ys : Runes) → edit xs (y ∷ ys) ≤ edit xs ys + 1
edit-insertion [] y ys = omega arith
edit-insertion (x ∷ xs) y ys = ground arith

edit-deletion : (x : ℕ) (xs ys : Runes) → edit (x ∷ xs) ys ≤ edit xs ys + 1
edit-deletion x xs [] = omega arith
edit-deletion x xs (y ∷ ys) = ground arith

edit-change : (x y : ℕ) (xs ys : Runes) → edit (x ∷ xs) (y ∷ ys) ≤ edit xs ys + 1
edit-change x y xs ys = ground arith

edit-keep : (x : ℕ) (xs ys : Runes) → edit (x ∷ xs) (x ∷ ys) ≤ edit xs ys
edit-keep x xs ys = ground arith

-- No fewer edits are enough.
pub edit-le : (xs ys : Runes) (n : ℕ) → Edits xs ys n → edit xs ys ≤ n
edit-le _ _ _ Edits.done = omega arith
edit-le _ _ _ (Edits.keep {x = x} {xs = xs} {ys = ys} {n = n} e) =
    omega (arith, edit-le xs ys n e, edit-keep x xs ys)
edit-le _ _ _ (Edits.change {x = x} {y = y} {xs = xs} {ys = ys} {n = n} e) =
    omega (arith, edit-le xs ys n e, edit-change x y xs ys)
edit-le _ _ _ (Edits.insertion {y = y} {xs = xs} {ys = ys} {n = n} e) =
    omega (arith, edit-le xs ys n e, edit-insertion xs y ys)
edit-le _ _ _ (Edits.deletion {x = x} {xs = xs} {ys = ys} {n = n} e) =
    omega (arith, edit-le xs ys n e, edit-deletion x xs ys)

-- Which of the three gives the minimum.
step_cases :
    (b : Bool) (up left corner : ℕ)
    → let mn = min (up + 1) (left + 1) in
      let m = if b then min mn corner else min mn (corner + 1) in
      (m ≡ suc up) ⊎ ((m ≡ suc left) ⊎ (((b ≡ true) × (m ≡ corner)) ⊎ (m ≡ suc corner)))
step_cases true up left corner = ground arith
step_cases false up left corner = ground arith

-- The same number of edits, written otherwise.
cast : {xs ys : Runes} (m n : ℕ) → m ≡ n → Edits xs ys m → Edits xs ys n
cast {xs} {ys} m n e h = subst (λ (k : ℕ). Edits xs ys k) e h

keep_same :
    {xs ys : Runes} (x y n : ℕ) → (y == x) ≡ true → Edits xs ys n → Edits (x ∷ xs) (y ∷ ys) n
keep_same {xs} {ys} x y n b e =
    let same : x ≡ y = ground (arith, b) in
    subst (λ (z : ℕ). Edits (x ∷ xs) (z ∷ ys) n) (same) (Edits.keep e)

extend-Edits :
    (x : ℕ) (xs : Runes)
    → ((ys : Runes) → Edits xs ys (edit xs ys))
    → (ys : Runes) → Edits (x ∷ xs) ys (edit (x ∷ xs) ys)
extend-Edits x xs ih [] =
    cast (suc (edit xs [])) (edit xs [] + 1) (omega arith) (Edits.deletion (ih []))
extend-Edits x xs ih (y ∷ ys) =
    let n = edit (x ∷ xs) (y ∷ ys) in
    elim (step_cases (y == x) (edit xs (y ∷ ys)) (edit (x ∷ xs) ys) (edit xs ys)) [
      | inl e ↦ cast (suc (edit xs (y ∷ ys))) n (sym e) (Edits.deletion (ih (y ∷ ys)))
      | inr r ↦ elim r [
        | inl e ↦
            cast (suc (edit (x ∷ xs) ys)) n (sym e) (Edits.insertion (extend-Edits x xs ih ys))
        | inr r ↦ elim r [
          | inl (b, e) ↦ cast (edit xs ys) n (sym e) (keep_same x y (edit xs ys) (b) (ih ys))
          | inr e ↦ cast (suc (edit xs ys)) n (sym e) (Edits.change (ih ys))
        ]
      ]
    ]

-- So many edits are enough.
pub edit-Edits : (xs ys : Runes) → Edits xs ys (edit xs ys)
edit-Edits [] ys = insertions ys
edit-Edits (x ∷ xs) ys = extend-Edits x xs (edit-Edits xs) ys

-- Edits one after another.
Edits-append :
    (xs ys xs' ys' : Runes) (n m : ℕ)
    → Edits xs ys n
    → Edits xs' ys' m
    → Edits (xs ++ xs') (ys ++ ys') (n + m)
Edits-append _ _ xs' ys' _ m Edits.done f = cast m (0 + m) (omega arith) f
Edits-append _ _ xs' ys' _ m (Edits.keep {x = x} {xs = xs} {ys = ys} {n = n} e) f =
    Edits.keep (Edits-append xs ys xs' ys' n m e f)
Edits-append _ _ xs' ys' _ m (Edits.change {x = x} {y = y} {xs = xs} {ys = ys} {n = n} e) f =
    cast (suc (n + m)) (suc n + m) (omega arith) (Edits.change (Edits-append xs ys xs' ys' n m e f))
Edits-append _ _ xs' ys' _ m (Edits.insertion {y = y} {xs = xs} {ys = ys} {n = n} e) f =
    cast (suc (n + m)) (suc n + m) (omega arith)
      (Edits.insertion (Edits-append xs ys xs' ys' n m e f))
Edits-append _ _ xs' ys' _ m (Edits.deletion {x = x} {xs = xs} {ys = ys} {n = n} e) f =
    cast (suc (n + m)) (suc n + m) (omega arith)
      (Edits.deletion (Edits-append xs ys xs' ys' n m e f))

abbrev pub reverse : Runes → Runes
reverse [] = []
reverse (c ∷ cs) = reverse cs ++ c ∷ []

-- Texts that are read backwards take as many edits.
pub Edits-reverse : (xs ys : Runes) (n : ℕ) → Edits xs ys n → Edits (reverse xs) (reverse ys) n
Edits-reverse _ _ _ Edits.done = Edits.done
Edits-reverse _ _ _ (Edits.keep {x = x} {xs = xs} {ys = ys} {n = n} e) =
    cast (n + 0) n (omega arith) (
      Edits-append (reverse xs) (reverse ys) (x ∷ []) (x ∷ []) n 0 (Edits-reverse xs ys n e)
        (Edits.keep Edits.done))
Edits-reverse _ _ _ (Edits.change {x = x} {y = y} {xs = xs} {ys = ys} {n = n} e) =
    cast (n + 1) (suc n) (omega arith) (
      Edits-append (reverse xs) (reverse ys) (x ∷ []) (y ∷ []) n 1 (Edits-reverse xs ys n e)
        (Edits.change Edits.done))
Edits-reverse _ _ _ (Edits.insertion {y = y} {xs = xs} {ys = ys} {n = n} e) =
    cast (n + 1) (suc n) (omega arith) (
      rw (append-nil (reverse xs)) at (
        Edits-append (reverse xs) (reverse ys) [] (y ∷ []) n 1 (Edits-reverse xs ys n e)
          (Edits.insertion Edits.done)))
Edits-reverse _ _ _ (Edits.deletion {x = x} {xs = xs} {ys = ys} {n = n} e) =
    cast (n + 1) (suc n) (omega arith) (
      rw (append-nil (reverse ys)) at (
        Edits-append (reverse xs) (reverse ys) (x ∷ []) [] n 1 (Edits-reverse xs ys n e)
          (Edits.deletion Edits.done)))

pub reverse-append : (xs ys : Runes) → reverse (xs ++ ys) ≡ reverse ys ++ reverse xs
reverse-append [] ys = sym (append-nil (reverse ys))
reverse-append (x ∷ xs) ys =
    rw (reverse-append xs ys) (append_assoc (reverse ys) (reverse xs) (x ∷ []))

pub reverse-reverse : (xs : Runes) → reverse (reverse xs) ≡ xs
reverse-reverse [] = refl
reverse-reverse (x ∷ xs) = rw (reverse-append (reverse xs) (x ∷ []), reverse-reverse xs) refl
