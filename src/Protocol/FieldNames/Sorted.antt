-- ===== src/Protocol/FieldNames/Sorted.antt =====
-- The offsets as a sorted list without duplicates.
use go_hdb.Prelude.{
  ℕ, ◌≤◌, ◌<◌, ◌≡◌, ◌≢◌, refl, ap, true, false, Option, none, some, List, [], ◌∷◌, ◌++◌, arith, ltb,
  ◌==◌, if◌then◌else◌, All, inl, inr, Bool-cases,
}
use go_hdb.Protocol.FieldNames.{OfsHandle, fresh, IsSorted}

-- Insertion from the front.
abbrev pub insert_sorted : ℕ → List OfsHandle → List OfsHandle
insert_sorted ofs [] = fresh ofs ∷ []
insert_sorted ofs (h ∷ hs) =
    if ltb ofs h.ofs
    then fresh ofs ∷ h ∷ hs
    else if ofs == h.ofs
    then h ∷ hs
    else h ∷ insert_sorted ofs hs

-- Lookup from the front.
abbrev pub lookup : ℕ → List OfsHandle → Option OfsHandle
lookup ofs [] = none
lookup ofs (h ∷ hs) = if ofs == h.ofs then some h else lookup ofs hs

pub ltb_of_lt : (a b : ℕ) → a < b → ltb a b ≡ true
ltb_of_lt a b h = ground arith

pub ltb_of_le : (a b : ℕ) → b ≤ a → ltb a b ≡ false
ltb_of_le a b h = ground arith

pub eq_of_lt : (a b : ℕ) → b < a → (a == b) ≡ false
eq_of_lt a b h = ground arith

pub ne_of_lt : (a b : ℕ) → a < b → (a == b) ≡ false
ne_of_lt a b h = ground arith

pub eq_of_ne : (a b : ℕ) → a ≢ b → (a == b) ≡ false
eq_of_ne a b h = ground arith

pub ne_of_eq : (a b : ℕ) → (a == b) ≡ false → a ≢ b
ne_of_eq a b h = ground arith

pub eq_self : (a b : ℕ) → b ≡ a → (a == b) ≡ true
eq_self a b h = ground arith

pub insert_sorted-between :
    (ofs : ℕ) (hs ks : List OfsHandle)
    → All (λ (h : OfsHandle). h.ofs < ofs) hs
    → All (λ (h : OfsHandle). ofs < h.ofs) ks
    → insert_sorted ofs (hs ++ ks) ≡ hs ++ fresh ofs ∷ ks
insert_sorted-between ofs [] [] h k = refl
insert_sorted-between ofs [] (x ∷ ks) h (k, _) = rw (ltb_of_lt ofs x.ofs k)
insert_sorted-between ofs (x ∷ hs) ks (h, hr) k =
    rw (ltb_of_le ofs x.ofs (omega (arith, h)), eq_of_lt ofs x.ofs h)
      (ap (λ (l : List OfsHandle). x ∷ l) (insert_sorted-between ofs hs ks hr k))

pub insert_sorted-present :
    (ofs : ℕ) (hs ks : List OfsHandle) (k : OfsHandle)
    → All (λ (h : OfsHandle). h.ofs < ofs) hs
    → k.ofs ≡ ofs
    → insert_sorted ofs (hs ++ k ∷ ks) ≡ hs ++ k ∷ ks
insert_sorted-present ofs [] ks k h e =
    rw (ltb_of_le ofs k.ofs (omega (arith, e)), eq_self ofs k.ofs e)
insert_sorted-present ofs (x ∷ hs) ks k (h, hr) e =
    rw (ltb_of_le ofs x.ofs (omega (arith, h)), eq_of_lt ofs x.ofs h)
      (ap (λ (l : List OfsHandle). x ∷ l) (insert_sorted-present ofs hs ks k hr e))

pub lookup-between :
    (ofs : ℕ) (hs ks : List OfsHandle)
    → All (λ (h : OfsHandle). h.ofs < ofs) hs
    → All (λ (h : OfsHandle). ofs < h.ofs) ks
    → lookup ofs (hs ++ ks) ≡ none
lookup-between ofs [] [] h k = refl
lookup-between ofs [] (x ∷ ks) h (k, kr) = rw (ne_of_lt ofs x.ofs k) (lookup-between ofs [] ks h kr)
lookup-between ofs (x ∷ hs) ks (h, hr) k = rw (eq_of_lt ofs x.ofs h) (lookup-between ofs hs ks hr k)

pub lookup-present :
    (ofs : ℕ) (hs ks : List OfsHandle) (k : OfsHandle)
    → All (λ (h : OfsHandle). h.ofs < ofs) hs
    → k.ofs ≡ ofs
    → lookup ofs (hs ++ k ∷ ks) ≡ some k
lookup-present ofs [] ks k h e = rw (eq_self ofs k.ofs e)
lookup-present ofs (x ∷ hs) ks k (h, hr) e =
    rw (eq_of_lt ofs x.ofs h) (lookup-present ofs hs ks k hr e)

All-insert_sorted :
    (o ofs : ℕ) (hs : List OfsHandle)
    → o < ofs
    → All (λ (h : OfsHandle). o < h.ofs) hs
    → All (λ (h : OfsHandle). o < h.ofs) (insert_sorted ofs hs)
All-insert_sorted o ofs [] k h = (k, tt)
All-insert_sorted o ofs (x ∷ hs) k (h, hr) = elim (Bool-cases (ltb ofs x.ofs)) [
  | inl a ↦ rw a (k, (h, hr))
  | inr a ↦ elim (Bool-cases (ofs == x.ofs)) [
    | inl b ↦ rw (a, b) (h, hr)
    | inr b ↦ rw (a, b) (h, All-insert_sorted o ofs hs k hr)
  ]
]

pub All-weaken :
    (o p : ℕ) (hs : List OfsHandle)
    → o < p
    → All (λ (h : OfsHandle). p < h.ofs) hs
    → All (λ (h : OfsHandle). o < h.ofs) hs
All-weaken o p [] k h = tt
All-weaken o p (x ∷ hs) k (h, hr) = (omega (arith, k, h), All-weaken o p hs k hr)

pub insert_sorted-IsSorted :
    (ofs : ℕ) (hs : List OfsHandle) → IsSorted hs → IsSorted (insert_sorted ofs hs)
insert_sorted-IsSorted ofs [] h = (tt, tt)
insert_sorted-IsSorted ofs (x ∷ hs) (h, hr) = elim (Bool-cases (ltb ofs x.ofs)) [
  | inl a ↦ rw a ((ground arith, All-weaken ofs x.ofs hs (ground arith) h), (h, hr))
  | inr a ↦ elim (Bool-cases (ofs == x.ofs)) [
    | inl b ↦ rw (a, b) (h, hr)
    | inr b ↦
        rw (a, b)
          (All-insert_sorted x.ofs ofs hs (ground arith) h, insert_sorted-IsSorted ofs hs hr)
  ]
]

pub lookup-insert_sorted_other :
    (o ofs : ℕ) (hs : List OfsHandle) → o ≢ ofs → lookup o (insert_sorted ofs hs) ≡ lookup o hs
lookup-insert_sorted_other o ofs [] n = rw (eq_of_ne o ofs n)
lookup-insert_sorted_other o ofs (x ∷ hs) n = elim (Bool-cases (ltb ofs x.ofs)) [
  | inl a ↦ rw (a, eq_of_ne o ofs n)
  | inr a ↦ elim (Bool-cases (ofs == x.ofs)) [
    | inl b ↦ rw (a, b)
    | inr b ↦
        rw (a, b)
          (ap (λ (l : Option OfsHandle). if o == x.ofs then some x else l)
            (lookup-insert_sorted_other o ofs hs n))
  ]
]
