-- ===== src/Protocol/Reader/Errors.antt =====
-- The linking of errors to statements in `IterateParts`.
use go_hdb.Prelude.{
  ℕ, zero, suc, ◌+◌, ◌≤◌, ◌≡◌, refl, sym, ap, ◌∙◌, none, some, List, [], ◌∷◌, ◌++◌, arith, length,
  get_elem?, set, if◌then◌else◌, inl, inr, Bool-cases, length-append,
}
use go_hdb.Prelude.Int.{ℤ, pos, eq_ℤ}
use go_hdb.Protocol.Errors.{HdbError, HdbErrors, set_stmt_no}
use go_hdb.Protocol.RowsAffected.{ra_execution_failed}
use go_hdb.Protocol.Reader.Iterate.{link_errors}
use mathlib.Core.List.{append_assoc, append-nil}

-- The positions of the rows that failed, the first row at `i`.
abbrev pub failed_rows : ℕ → List ℤ → List ℕ
failed_rows i [] = []
failed_rows i (row ∷ rows) =
    if eq_ℤ row ra_execution_failed then i ∷ failed_rows (i + 1) rows else failed_rows (i + 1) rows

-- The errors in their order get these statement numbers in theirs; what is over stays as it is.
abbrev pub number : ℕ → List ℕ → List HdbError → List HdbError
number offset [] errs = errs
number offset (i ∷ is) [] = []
number offset (i ∷ is) (e ∷ errs) = record e { stmt_no = pos (offset + i) } ∷ number offset is errs

get_elem-behind : (xs ys : List HdbError) → get_elem? (xs ++ ys) (length xs) ≡ get_elem? ys 0
get_elem-behind [] ys = refl
get_elem-behind (x ∷ xs) ys = get_elem-behind xs ys

set-behind :
    (xs ys : List HdbError) (y e : HdbError) → set (xs ++ y ∷ ys) (length xs) e ≡ xs ++ e ∷ ys
set-behind [] ys y e = refl
set-behind (x ∷ xs) ys y e = ap (λ (l : List HdbError). x ∷ l) (set-behind xs ys y e)

get_elem?_beyond : (xs : List HdbError) (j : ℕ) → length xs ≤ j → get_elem? xs j ≡ none
get_elem?_beyond [] j h = refl
get_elem?_beyond (x ∷ xs) zero h = absurd (omega arith)
get_elem?_beyond (x ∷ xs) (suc j) h = get_elem?_beyond xs j (omega arith)

set_stmt_no-behind :
    (es : HdbErrors) (xs ys : List HdbError) (y : HdbError) (n : ℤ)
    → es.errs ≡ xs ++ y ∷ ys
    → (set_stmt_no (length xs) n es).errs ≡ xs ++ record y { stmt_no = n } ∷ ys
unfolding set_stmt_no
set_stmt_no-behind es xs ys y n h =
    let found : get_elem? es.errs (length xs) ≡ some y =
      ap (λ (l : List HdbError). get_elem? l (length xs)) h ∙ get_elem-behind xs (y ∷ ys) in
    rw (set_stmt_no, found)
      (ap (λ (l : List HdbError). set l (length xs) (record y { stmt_no = n })) h
        ∙ set-behind xs ys y (record y { stmt_no = n }))

set_stmt_no_out : (es : HdbErrors) (j : ℕ) (n : ℤ) → length es.errs ≤ j → set_stmt_no j n es ≡ es
unfolding set_stmt_no
set_stmt_no_out es j n h = rw (set_stmt_no, get_elem?_beyond es.errs j h)

link_errors_out :
    (offset j i : ℕ) (rows : List ℤ) (es : HdbErrors)
    → length es.errs ≤ j
    → link_errors offset j i rows es ≡ es
unfolding link_errors
link_errors_out offset j i [] es h = refl
link_errors_out offset j i (row ∷ rows) es h = elim (Bool-cases (eq_ℤ row ra_execution_failed)) [
  | inl a ↦
      rw (link_errors, a, set_stmt_no_out es j (pos (offset + i)) h)
        (link_errors_out offset (j + 1) (i + 1) rows es (omega arith))
  | inr a ↦ rw (link_errors, a) (link_errors_out offset j (i + 1) rows es h)
]

length-snoc : (xs : List HdbError) (x : HdbError) → length (xs ++ x ∷ []) ≡ length xs + 1
length-snoc xs x = length-append xs (x ∷ [])

at_end : (es : HdbErrors) (xs : List HdbError) → es.errs ≡ xs ++ [] → length es.errs ≤ length xs
at_end es xs h = rw (h ∙ append-nil xs) (omega arith)

link_errors-failed :
    (offset i : ℕ) (rows : List ℤ) (es : HdbErrors) (xs ys : List HdbError)
    → ((es : HdbErrors) (xs ys : List HdbError)
        → es.errs ≡ xs ++ ys
        → (link_errors offset (length xs) (i + 1) rows es).errs
          ≡ xs ++ number offset (failed_rows (i + 1) rows) ys)
    → es.errs ≡ xs ++ ys
    → (link_errors offset
        (length xs + 1)
        (i + 1)
        rows
        (set_stmt_no (length xs) (pos (offset + i)) es)).errs
      ≡ xs ++ number offset (i ∷ failed_rows (i + 1) rows) ys
link_errors-failed offset i rows es xs [] next h =
    ap (λ (l : HdbErrors). l.errs)
      (link_errors_out offset (length xs + 1) (i + 1) rows
        (set_stmt_no (length xs) (pos (offset + i)) es)
        (rw (set_stmt_no_out es (length xs) (pos (offset + i)) (at_end es xs h))
          (omega (arith, at_end es xs h))))
    ∙ ap (λ (l : HdbErrors). l.errs)
        (set_stmt_no_out es (length xs) (pos (offset + i)) (at_end es xs h))
    ∙ h
link_errors-failed offset i rows es xs (y ∷ ys) next h =
    let e = record y { stmt_no = pos (offset + i) } in
    (rw (length-snoc xs e) at (
      next (set_stmt_no (length xs) (pos (offset + i)) es) (xs ++ e ∷ []) ys
        (set_stmt_no-behind es xs ys y (pos (offset + i)) h ∙ sym (append_assoc xs (e ∷ []) ys))))
    ∙ append_assoc xs (e ∷ []) (number offset (failed_rows (i + 1) rows) ys)

link_errors-behind :
    (offset i : ℕ) (rows : List ℤ) (es : HdbErrors) (xs ys : List HdbError)
    → es.errs ≡ xs ++ ys
    → (link_errors offset (length xs) i rows es).errs ≡ xs ++ number offset (failed_rows i rows) ys
unfolding link_errors
link_errors-behind offset i [] es xs ys h = h
link_errors-behind offset i (row ∷ rows) es xs ys h =
    elim (Bool-cases (eq_ℤ row ra_execution_failed)) [
      | inl a ↦
          rw (link_errors, a)
            (link_errors-failed offset i rows es xs ys (link_errors-behind offset (i + 1) rows) h)
      | inr a ↦ rw (link_errors, a) (link_errors-behind offset (i + 1) rows es xs ys h)
    ]

-- The j-th error gets the offset and the position of the j-th row that failed as its statement number;
-- what there are more errors than failed rows keeps its number, and no error is lost, added or moved.
pub link_errors-errs :
    (offset : ℕ) (rows : List ℤ) (es : HdbErrors)
    → (link_errors offset 0 0 rows es).errs ≡ number offset (failed_rows 0 rows) es.errs
link_errors-errs offset rows es = link_errors-behind offset 0 rows es [] es.errs refl
