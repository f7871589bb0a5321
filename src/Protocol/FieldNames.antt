-- ===== src/Protocol/FieldNames.antt =====
-- driver/internal/protocol/fieldnames.go: the names of fields, looked up by their offset in the part.
-- The binary search of the standard library is a parameter; `decode`, which fills in the names, is not
-- part of this.
pub mod Sorted
pub mod Lookup
use go_hdb.Prelude.{
  ℕ, zero, suc, ◌-◌, ◌^◌, ◌≤◌, ◌<◌, ◌≡◌, Bool, true, false, Option, none, some, List, [], ◌∷◌, ◌++◌,
  leb, ltb, ◌==◌, if◌then◌else◌, length, get_elem?, take, drop, All, Bytes, Outcome, ok, panic,
}

abbrev pub no_field_name : ℕ
no_field_name = 2 ^ 32 - 1

-- A handle is none until `decode` sets it.
pub record OfsHandle : Type 0 where
  pub ofs : ℕ
  pub handle : Option Bytes

abbrev pub fresh : ℕ → OfsHandle
fresh ofs = record { ofs = ofs; handle = none }

-- Offsets rise.
abbrev pub IsSorted : List OfsHandle → Type 0
IsSorted [] = Unit {0}
IsSorted (h ∷ hs) = All (λ (k : OfsHandle). h.ofs < k.ofs) hs × IsSorted hs

-- slices.BinarySearchFunc by offsets.
abbrev pub Search : Type 0
Search = List OfsHandle → ℕ → ℕ × Bool

-- What it documents: in a sorted slice, the position where the target is found, or where it would stand
-- in the order, and whether it is there.
pub record IsBinarySearch (search : Search) : Type 0 where
  pub in_bounds : (hs : List OfsHandle) (ofs : ℕ) → IsSorted hs → (search hs ofs).0 ≤ length hs
  pub before :
      (hs : List OfsHandle) (ofs : ℕ)
      → IsSorted hs
      → All (λ (h : OfsHandle). h.ofs < ofs) (take (search hs ofs).0 hs)
  pub found :
      (hs : List OfsHandle) (ofs : ℕ)
      → IsSorted hs
      → (search hs ofs).1 ≡ true
      → (h : OfsHandle) × (rest : List OfsHandle) × (drop (search hs ofs).0 hs ≡ h ∷ rest)
        × (h.ofs ≡ ofs)
  pub not_found :
      (hs : List OfsHandle) (ofs : ℕ)
      → IsSorted hs
      → (search hs ofs).1 ≡ false
      → All (λ (h : OfsHandle). ofs < h.ofs) (drop (search hs ofs).0 hs)

-- `insertOfs` behind the search: `append`, and `copy` to make room at i.
unfoldable pub insert_at : ℕ → ℕ → List OfsHandle → List OfsHandle
insert_at i ofs hs =
    if leb (length hs) i then hs ++ fresh ofs ∷ [] else take i hs ++ fresh ofs ∷ drop i hs

-- The value of a handle; one that is not set yet panics.
unfoldable pub value : Option OfsHandle → Outcome Bytes
value none = panic
value (some h) = elim h.handle [ none ↦ panic | some s ↦ ok s ]

module _ (search : Search) where
  unfoldable pub insert_ofs : ℕ → List OfsHandle → List OfsHandle
  insert_ofs ofs hs =
      let (i, found) = search hs ofs in
      if ofs == no_field_name then hs else if found then hs else insert_at i ofs hs

  -- `name`: the empty string if there is no such offset.
  unfoldable pub name : ℕ → List OfsHandle → Outcome Bytes
  name ofs hs = let (i, found) = search hs ofs in if found then value (get_elem? hs i) else ok []
