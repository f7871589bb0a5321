-- ===== src/Protocol/RowsAffected.antt =====
-- driver/internal/protocol/rowsaffected.go: the number of rows that each statement of a batch touched.
-- A decoded part replaces the rows before it, so the reuse of their slice does not show.
use go_hdb.Prelude.{
  ℕ, zero, suc, ◌+◌, ◌≡◌, ◌∙◌, List, [], ◌∷◌, ◌++◌, arith, if◌then◌else◌, Outcome, ok, panic,
}
use go_hdb.Prelude.Int.{ℤ, pos, negsuc, pos_part, ltb_ℤ}
use go_hdb.Encoding.Decoder.{Decoding, ◌>>=◌, pure, int32}

-- raExecutionFailed is -3.
abbrev pub ra_execution_failed : ℤ
ra_execution_failed = negsuc 2

-- The loop of `decodeNumArg`.
unfoldable pub decode_rows : ℕ → Decoding (List ℤ)
decode_rows zero d = ([], d)
decode_rows (suc n) d =
    let (row, d') = int32 d in let (rows, d'') = decode_rows n d' in (row ∷ rows, d'')

-- `decodeNumArg`: the slice cannot be cut to a negative length.
unfoldable pub decode_num_arg : ℤ → Decoding (Outcome (List ℤ))
decode_num_arg (pos n) = do rows ← decode_rows n; pure (ok rows)
decode_num_arg (negsuc n) = pure panic

-- `Total`: an int64 cannot be reached by fewer than 2^32 rows of 31 bits each.
unfoldable pub total_loop : ℕ → List ℤ → ℕ
total_loop total [] = total
total_loop total (row ∷ rows) =
    total_loop (if ltb_ℤ (pos 0) row then total + pos_part row else total) rows

unfoldable pub total : List ℤ → ℕ
unfolding total_loop
total rows = total_loop 0 rows

abbrev sum_pos : List ℤ → ℕ
sum_pos [] = 0
sum_pos (row ∷ rows) = pos_part row + sum_pos rows

total_loop-sum : (t : ℕ) (rows : List ℤ) → total_loop t rows ≡ t + sum_pos rows
unfolding total_loop
total_loop-sum t [] = omega arith
total_loop-sum t (row ∷ rows) =
    total_loop-sum (if ltb_ℤ (pos 0) row then t + pos_part row else t) rows ∙ ground arith

sum_pos-append : (xs ys : List ℤ) → sum_pos (xs ++ ys) ≡ sum_pos xs + sum_pos ys
sum_pos-append [] ys = omega arith
sum_pos-append (x ∷ xs) ys = omega (arith, sum_pos-append xs ys)

-- The total over two lists of rows, one after the other, is the sum of their totals, and a statement
-- that failed or gave no count (a negative code) adds nothing.
pub total-append :
    (xs ys : List ℤ) (n : ℕ)
    → (total (xs ++ ys) ≡ total xs + total ys) × (total (xs ++ negsuc n ∷ ys) ≡ total (xs ++ ys))
unfolding total
total-append xs ys n = omega (
  arith,
  total_loop-sum 0 (xs ++ ys),
  total_loop-sum 0 (xs ++ negsuc n ∷ ys),
  total_loop-sum 0 xs,
  total_loop-sum 0 ys,
  sum_pos-append xs ys,
  sum_pos-append xs (negsuc n ∷ ys),
)
