-- ===== src/Tests/Names.antt =====
-- Field names, with a search from the front in place of the binary search.
use go_hdb.Prelude.{
  ℕ, suc, ◌≤◌, ◌<◌, ◌≡◌, refl, true, false, some, List, [], ◌∷◌, arith, ltb, ◌==◌, if◌then◌else◌,
  length, take, drop, All, ok, inl, inr, Bool-cases,
}
use go_hdb.Protocol.FieldNames.{
  value, OfsHandle, IsSorted, Search, IsBinarySearch, insert_ofs, name,
}
use go_hdb.Protocol.FieldNames.Sorted.{lookup, All-weaken}
use go_hdb.Protocol.FieldNames.Lookup.{insert_ofs-IsSorted, name-lookup}

-- The position of the first offset that is not below the target.
abbrev linear : Search
linear [] ofs = (0, false)
linear (h ∷ hs) ofs =
    let (i, found) = linear hs ofs in if ltb h.ofs ofs then (suc i, found) else (0, ofs == h.ofs)

linear-IsBinarySearch : IsBinarySearch linear
linear-IsBinarySearch = record {
  in_bounds = in_bounds;
  before = before;
  found = found;
  not_found = not_found;
}
  where
    in_bounds : (hs : List OfsHandle) (ofs : ℕ) → IsSorted hs → (linear hs ofs).0 ≤ length hs
    in_bounds [] ofs s = omega arith
    in_bounds (h ∷ hs) ofs (_, s) = elim (Bool-cases (ltb h.ofs ofs)) [
      | inl a ↦ rw a (omega (arith, in_bounds hs ofs s))
      | inr a ↦ rw a (omega arith)
    ]

    before :
        (hs : List OfsHandle) (ofs : ℕ)
        → IsSorted hs
        → All (λ (h : OfsHandle). h.ofs < ofs) (take (linear hs ofs).0 hs)
    before [] ofs s = tt
    before (h ∷ hs) ofs (_, s) = elim (Bool-cases (ltb h.ofs ofs)) [
      | inl a ↦ rw a (ground arith, before hs ofs s)
      | inr a ↦ rw a tt
    ]

    found :
        (hs : List OfsHandle) (ofs : ℕ)
        → IsSorted hs
        → (linear hs ofs).1 ≡ true
        → (h : OfsHandle) × (rest : List OfsHandle) × (drop (linear hs ofs).0 hs ≡ h ∷ rest)
          × (h.ofs ≡ ofs)
    found [] ofs s e = absurd (ground (arith, e))
    found (h ∷ hs) ofs (_, s) e = elim (Bool-cases (ltb h.ofs ofs)) [
      | inl a ↦ rw a (found hs ofs s (rw a at e))
      | inr a ↦ rw a (h, hs, refl, ground (arith, rw a at e))
    ]

    not_found :
        (hs : List OfsHandle) (ofs : ℕ)
        → IsSorted hs
        → (linear hs ofs).1 ≡ false
        → All (λ (h : OfsHandle). ofs < h.ofs) (drop (linear hs ofs).0 hs)
    not_found [] ofs s e = tt
    not_found (h ∷ hs) ofs (hr, s) e = elim (Bool-cases (ltb h.ofs ofs)) [
      | inl a ↦ rw a (not_found hs ofs s (rw a at e))
      | inr a ↦
          let above : ofs < h.ofs = ground (arith, rw a at e) in
          rw a (above, All-weaken ofs h.ofs hs above hr)
    ]

abbrev two_names : List OfsHandle
two_names =
    record { ofs = 0; handle = some (65 ∷ []) } ∷ record { ofs = 5; handle = some (66 ∷ []) } ∷ []

insert_ofs-IsSorted_example :
    IsSorted (insert_ofs linear 3 two_names)
    × (lookup 5 (insert_ofs linear 3 two_names) ≡ lookup 5 two_names)
insert_ofs-IsSorted_example =
    insert_ofs-IsSorted linear linear-IsBinarySearch 3 5 two_names ((omega arith, tt), (tt, tt))
      (omega arith)

name-lookup_example : name linear 5 two_names ≡ ok (66 ∷ [])
unfolding value
name-lookup_example =
    name-lookup linear linear-IsBinarySearch 5 two_names ((omega arith, tt), (tt, tt))
