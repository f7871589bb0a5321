-- ===== src/Protocol/FieldNames/Lookup.antt =====
-- `insertOfs` and `name` against insertion and lookup from the front.
use go_hdb.Prelude.{
  ℕ, zero, suc, ◌≤◌, ◌≡◌, ◌≢◌, refl, sym, ap, ◌∙◌, true, false, Option, none, some, List, [], ◌∷◌,
  ◌++◌, arith, leb, ◌==◌, length, take, drop, take-append-drop, inl, inr, Bool-cases, Bytes,
  Outcome, ok, get_elem?, drop_all, take_all,
}
use go_hdb.Protocol.FieldNames.{
  OfsHandle, fresh, IsSorted, Search, IsBinarySearch, insert_at, insert_ofs, no_field_name, name,
  value,
}
use go_hdb.Protocol.FieldNames.Sorted.{
  insert_sorted, lookup, eq_of_ne, ne_of_eq, insert_sorted-between, insert_sorted-present,
  lookup-between, lookup-present, insert_sorted-IsSorted, lookup-insert_sorted_other,
}

get_elem?-drop : (hs : List OfsHandle) (i : ℕ) → get_elem? hs i ≡ get_elem? (drop i hs) 0
get_elem?-drop hs zero = refl
get_elem?-drop [] (suc i) = refl
get_elem?-drop (h ∷ hs) (suc i) = get_elem?-drop hs i

insert_at-between :
    (i ofs : ℕ) (hs : List OfsHandle)
    → i ≤ length hs
    → insert_at i ofs hs ≡ take i hs ++ fresh ofs ∷ drop i hs
unfolding insert_at
insert_at-between i ofs hs h = elim (Bool-cases (leb (length hs) i)) [
  | inl a ↦ rw (a, take_all i hs (ground arith), drop_all i hs (ground arith))
  | inr a ↦ rw a
]

-- The name of a handle that was looked up, the empty string if there is none.
abbrev pub name_of : Option OfsHandle → Outcome Bytes
name_of none = ok []
name_of (some h) = value (some h)

module _ (search : Search) (s : IsBinarySearch search) (ofs : ℕ) (hs : List OfsHandle)
    (sorted : IsSorted hs) where
  split : take (search hs ofs).0 hs ++ drop (search hs ofs).0 hs ≡ hs
  split = take-append-drop (search hs ofs).0 hs

  insert_ofs-found :
      ofs ≢ no_field_name
      → (search hs ofs).1 ≡ true
      → insert_ofs search ofs hs ≡ insert_sorted ofs hs
  unfolding insert_ofs
  insert_ofs-found n f =
      let (k, rest, e, k_ofs) = s.found hs ofs sorted f in
      let hs_split : take (search hs ofs).0 hs ++ k ∷ rest ≡ hs = rw e at split in
      rw (insert_ofs, eq_of_ne ofs no_field_name n, f)
        (sym hs_split
          ∙ sym (insert_sorted-present ofs _ rest k (s.before hs ofs sorted) k_ofs)
          ∙ ap (insert_sorted ofs) hs_split)

  insert_ofs-not_found :
      ofs ≢ no_field_name
      → (search hs ofs).1 ≡ false
      → insert_ofs search ofs hs ≡ insert_sorted ofs hs
  unfolding insert_ofs
  insert_ofs-not_found n f =
      rw (insert_ofs, eq_of_ne ofs no_field_name n, f)
        (insert_at-between (search hs ofs).0 ofs hs (s.in_bounds hs ofs sorted)
          ∙ sym
              (insert_sorted-between ofs _ _ (s.before hs ofs sorted) (s.not_found hs ofs sorted f))
          ∙ ap (insert_sorted ofs) split)

  -- Inserting at the position of the binary search is inserting from the front.
  pub insert_ofs-insert_sorted :
      ofs ≢ no_field_name → insert_ofs search ofs hs ≡ insert_sorted ofs hs
  insert_ofs-insert_sorted n = elim (Bool-cases (search hs ofs).1) [
    | inl f ↦ insert_ofs-found n f
    | inr f ↦ insert_ofs-not_found n f
  ]

  name-found : (search hs ofs).1 ≡ true → name search ofs hs ≡ name_of (lookup ofs hs)
  unfolding name
  name-found f =
      let (k, rest, e, k_ofs) = s.found hs ofs sorted f in
      let hs_split : take (search hs ofs).0 hs ++ k ∷ rest ≡ hs = rw e at split in
      let looked_up : lookup ofs hs ≡ some k =
        ap (lookup ofs) (sym hs_split)
        ∙ lookup-present ofs _ rest k (s.before hs ofs sorted) k_ofs in
      let got : get_elem? hs (search hs ofs).0 ≡ some k =
        get_elem?-drop hs (search hs ofs).0 ∙ ap (λ (l : List OfsHandle). get_elem? l 0) e in
      rw (name, f, looked_up) (ap value got)

  name-not_found : (search hs ofs).1 ≡ false → name search ofs hs ≡ name_of (lookup ofs hs)
  unfolding name
  name-not_found f =
      let looked_up : lookup ofs hs ≡ none =
        ap (lookup ofs) (sym split)
        ∙ lookup-between ofs _ _ (s.before hs ofs sorted) (s.not_found hs ofs sorted f) in
      rw (name, f, looked_up)

  -- In sorted offsets, `name` by the binary search is the name of the entry that has the offset, a panic
  -- if its name is not set yet, and the empty string without such an entry.
  pub name-lookup : name search ofs hs ≡ name_of (lookup ofs hs)
  name-lookup = elim (Bool-cases (search hs ofs).1) [
    | inl f ↦ name-found f
    | inr f ↦ name-not_found f
  ]

insert_ofs_no_name :
    (search : Search) (ofs : ℕ) (hs : List OfsHandle)
    → (ofs == no_field_name) ≡ true
    → insert_ofs search ofs hs ≡ hs
unfolding insert_ofs
insert_ofs_no_name search ofs hs h = rw (insert_ofs, h)

-- `insertOfs` with a binary search as documented, on sorted offsets: they stay sorted without duplicates,
-- whatever the new one is, and an offset o other than the new one keeps its entry.
pub insert_ofs-IsSorted :
    (search : Search) (s : IsBinarySearch search) (ofs o : ℕ) (hs : List OfsHandle)
    → IsSorted hs
    → o ≢ ofs
    → IsSorted (insert_ofs search ofs hs) × (lookup o (insert_ofs search ofs hs) ≡ lookup o hs)
insert_ofs-IsSorted search s ofs o hs sorted n = elim (Bool-cases (ofs == no_field_name)) [
  | inl a ↦
      (rw (insert_ofs_no_name search ofs hs a) sorted, rw (insert_ofs_no_name search ofs hs a))
  | inr a ↦
      let e = insert_ofs-insert_sorted search s ofs hs sorted (ne_of_eq ofs no_field_name a) in
      (rw e (insert_sorted-IsSorted ofs hs sorted), rw e (lookup-insert_sorted_other o ofs hs n))
]
