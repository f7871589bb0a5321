-- ===== src/Driver/Identifier.antt =====
-- driver/identifier.go: identifiers that need no quotes. An identifier is the runes of a range over it;
-- strconv.Quote is a parameter.
use go_hdb.Prelude.{
  ℕ, ◌≡◌, ◌⊎◌, inl, inr, refl, sym, ◌∙◌, Bool, true, false, ◌&&◌, ◌||◌, List, [], ◌∷◌, arith, leb,
  ◌==◌, if◌then◌else◌, All, Bool-cases, ◌↔◌,
}

abbrev pub is_letter : ℕ → Bool
is_letter r = r == b'_' || (leb b'A' r && leb r b'Z')

abbrev pub is_inner : ℕ → Bool
is_inner r = r == b'#' || r == b'$' || (leb b'0' r && leb r b'9')

-- The loop behind the first rune, and the loop.
unfoldable pub rest_is_simple : List ℕ → Bool
rest_is_simple [] = true
rest_is_simple (r ∷ i) =
    let rest = rest_is_simple i in if is_letter r then rest else if is_inner r then rest else false

unfoldable pub is_simple : List ℕ → Bool
is_simple [] = true
is_simple (r ∷ i) = if is_letter r then rest_is_simple i else false

unfoldable pub to_string : (List ℕ → List ℕ) → List ℕ → List ℕ
to_string quote i = if is_simple i then i else quote i

abbrev pub IsLetter : ℕ → Type 0
IsLetter r = is_letter r ≡ true

abbrev pub IsInner : ℕ → Type 0
IsInner r = (is_letter r ≡ true) ⊎ (is_inner r ≡ true)

-- The pattern ^[_A-Z][_#$A-Z0-9]*$ or no rune at all.
abbrev pub IsSimple : List ℕ → Type 0
IsSimple [] = Unit {0}
IsSimple (r ∷ i) = IsLetter r × All IsInner i

false-true : false ≡ true → ⊥
false-true h = ground (arith, h)

if_same : (b : Bool) → (if b then true else true) ≡ true
if_same true = refl
if_same false = refl

rest_is_simple-IsInner : (i : List ℕ) → rest_is_simple i ≡ true → All IsInner i
unfolding rest_is_simple
rest_is_simple-IsInner [] h = tt
rest_is_simple-IsInner (r ∷ i) h = elim (Bool-cases (is_letter r)) [
  | inl e ↦ (inl e, rest_is_simple-IsInner i (rw e at h))
  | inr e ↦ elim (Bool-cases (is_inner r)) [
    | inl t ↦ (inr t, rest_is_simple-IsInner i (rw (e, t) at h))
    | inr t ↦ absurd (false-true (rw (e, t) at h))
  ]
]

IsInner-rest_is_simple : (i : List ℕ) → All IsInner i → rest_is_simple i ≡ true
unfolding rest_is_simple
IsInner-rest_is_simple [] h = refl
IsInner-rest_is_simple (r ∷ i) (inl e, hs) = rw e (IsInner-rest_is_simple i hs)
IsInner-rest_is_simple (r ∷ i) (inr e, hs) =
    rw (e, IsInner-rest_is_simple i hs) (if_same (is_letter r))

-- An identifier needs no quotes exactly if it has no rune or is of the pattern.
pub is_simple_iff : (i : List ℕ) → (is_simple i ≡ true) ↔ IsSimple i
unfolding is_simple
is_simple_iff [] = (λ h. tt, λ h. refl)
is_simple_iff (r ∷ i) = elim (Bool-cases (is_letter r)) [
  | inl e ↦
      (λ h. (e, rest_is_simple-IsInner i (rw e at h)), λ h. rw e (IsInner-rest_is_simple i h.1))
  | inr e ↦ (λ h. absurd (false-true (rw e at h)), λ h. absurd (false-true (sym e ∙ h.0)))
]
