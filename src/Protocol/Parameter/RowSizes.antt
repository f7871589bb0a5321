-- ===== src/Protocol/Parameter/RowSizes.antt =====
-- parameter.go: `InputParameters.size` and `encode` agree, row by row.
use go_hdb.Prelude.{
  ℕ, zero, suc, ◌+◌, ◌≡◌, refl, ap, ◌∙◌, Bool, true, false, ok, List, ◌++◌, arith, length,
  length-append, length-take, length-drop, take, drop, take-append, drop-append, if◌then◌else◌,
}
use mathlib.Core.Path.{subst}
use go_hdb.Prelude.Int.{pos, +ℤ-pos}
use go_hdb.Encoding.Encoder.{Encoder}
use go_hdb.Protocol.Convert.Values.{Value}
use go_hdb.Protocol.Parameter.Metadata.{ParameterField}
use go_hdb.Protocol.Parameter.Fields.{done, Runtime}
use go_hdb.Protocol.Parameter.Sizes.{Encodes}
use go_hdb.Protocol.Parameter.Input.{
  set_positions, size_row, size_rows, size, num_rows, write_lobs, encode_columns, encode_row,
  encode_rows, encode, has_in_lob,
}
use go_hdb.Protocol.Parameter.ColumnSizes.{
  FitsRow, FitsRows, columns_bytes, lobs_bytes, size_columns-fits, encode_columns-Encodes,
  Encodes-then,
}
use go_hdb.Protocol.Parameter.Positions.{
  set_positions-size, lobs_bytes-set_positions, columns_bytes-set_positions, FitsRow-set_positions,
  length-write_lobs, FitsRow-length,
}

-- What is behind the columns of a row, of which t bytes have been counted: x bytes for large objects.
abbrev Behind : Runtime → List ParameterField → Bool → List Value → ℕ → ℕ → List Value → Type 0
Behind r fs b row t x row' =
    ((if b then set_positions row (pos t) else (pos t, row)) ≡ (pos (t + x), row'))
    × FitsRow r fs row'
    × (columns_bytes fs row' ≡ columns_bytes fs row)
    × ((e : Encoder) → length (if b then write_lobs row' e else e) ≡ length e + x)

behind_lem :
    (r : Runtime) (fs : List ParameterField) (b : Bool) (row : List Value) (t : ℕ)
    → FitsRow r fs row
    → (x : ℕ) × (row' : List Value) × Behind r fs b row t x row'
behind_lem r fs true row t h = (
  lobs_bytes row,
  (set_positions row (pos t)).1,
  (
    λ i. (set_positions-size row t i, (set_positions row (pos t)).1),
    FitsRow-set_positions r fs row (pos t) h,
    columns_bytes-set_positions fs row (pos t),
    λ e.
        length-write_lobs (set_positions row (pos t)).1 e
        ∙ ap (λ (k : ℕ). length e + k) (lobs_bytes-set_positions row (pos t)),
  ),
)
behind_lem r fs false row t h =
    (0, row, ((λ i. (pos (zero_right t i), row)), h, refl, λ e. zero_right (length e)))
  where
    zero_right : (n : ℕ) → n ≡ n + 0
    zero_right n = omega arith

-- k rows, of which s bytes have been counted, are n bytes, and the values are then ws.
abbrev Agree : Runtime → ℕ → List ParameterField → List Value → ℕ → ℕ → List Value → Type 0
Agree r k fs vs s n ws =
    (size_rows k fs vs (pos s) ≡ ok (pos (s + n), ws))
    × (length ws ≡ length vs)
    × ((e : Encoder) → Encodes n e (encode_rows r k fs ws e))

row_lem :
    (r : Runtime) (fs : List ParameterField) (row : List Value) (s : ℕ)
    → FitsRow r fs row
    → (n : ℕ) × (row' : List Value) × (size_row fs row (pos s) ≡ ok (pos (s + n), row'))
      × FitsRow r fs row'
      × ((e : Encoder) → Encodes n e (encode_row r fs row' e))
unfolding size_row encode_row
row_lem r fs row s h =
    let t : ℕ = s + length fs + columns_bytes fs row in
    let (x, row', (sized, fits, same, written)) = behind_lem r fs (has_in_lob fs) row t h in
    (
      length fs + columns_bytes fs row + x,
      row',
      rw (+ℤ-pos s (length fs), size_columns-fits r fs row (s + length fs) h)
          (ap ok (sized ∙ ap (λ (k : ℕ). (pos k, row')) (omega arith))),
      fits,
      λ e.
          Encodes-then (length fs + columns_bytes fs row) x e (encode_columns r fs row' e)
            (λ e. done (if has_in_lob fs then write_lobs row' e else e))
            (subst (λ (k : ℕ). Encodes (length fs + k) e (encode_columns r fs row' e)) same
              (encode_columns-Encodes r fs row' e fits))
            written,
    )

take_front {ℓ} : {A : Type ℓ} (xs ys : List A) (n : ℕ) → length xs ≡ n → take n (xs ++ ys) ≡ xs
take_front xs ys n h = subst (λ (k : ℕ). take k (xs ++ ys) ≡ xs) h (take-append xs ys)

drop_front {ℓ} : {A : Type ℓ} (xs ys : List A) (n : ℕ) → length xs ≡ n → drop n (xs ++ ys) ≡ ys
drop_front xs ys n h = subst (λ (k : ℕ). drop k (xs ++ ys) ≡ ys) h (drop-append xs ys)

rows_lem :
    (r : Runtime) (k : ℕ) (fs : List ParameterField) (vs : List Value) (s : ℕ)
    → FitsRows r k fs vs
    → (n : ℕ) × (ws : List Value) × Agree r k fs vs s n ws
unfolding size_rows encode_rows
rows_lem r zero fs vs s h =
    (0, vs, (ap (λ (k : ℕ). ok (pos k, vs)) (omega arith), refl, λ e. omega arith))
rows_lem r (suc k) fs vs s (h, hs) =
    let n_fs : ℕ = length fs in
    let (m, row', sized, fits, written) = row_lem r fs (take n_fs vs) s h in
    let (n, ws, (sized', same, written')) = rows_lem r k fs (drop n_fs vs) (s + m) hs in
    let len : length row' ≡ n_fs = FitsRow-length r fs row' fits in
    (
      m + n,
      row' ++ ws,
      (
        rw (sized, sized') (ap (λ (k : ℕ). ok (pos k, row' ++ ws)) (omega arith)),
        omega (
          arith,
          length-append row' ws,
          FitsRow-length r fs (take n_fs vs) h,
          len,
          same,
          length-take n_fs vs,
          length-drop n_fs vs,
        ),
        λ e.
            rw (take_front row' ws n_fs len, drop_front row' ws n_fs len)
              (Encodes-then m n e (encode_row r fs row' e) (λ e. encode_rows r k fs ws e)
                (written e) written'),
      ),
    )

num_rows-length :
    (fs : List ParameterField) (vs ws : List Value)
    → length ws ≡ length vs
    → num_rows fs vs ≡ num_rows fs ws
unfolding num_rows
num_rows-length fs vs ws h = rw h refl

-- Rows of values, each nil or of the type of its field; texts have at most MaxInt32 bytes, those in
-- CESU-8 are the UTF-8 of runes with at most MaxInt32 bytes of CESU-8, those of hexadecimal digits are
-- decoded to half as many bytes, fixed numbers have no negative precision or scale, and of a decimal the
-- digits that convertRatToDecimal returns are below 2^128. Then `size` is a number n, and `encode` of
-- the values, with the positions that `size` has set, appends exactly n bytes, or a decimal is out of
-- range; neither panics. Values behind the last whole row are not written.
pub encode-size :
    (r : Runtime) (fs : List ParameterField) (vs : List Value) (e : Encoder)
    → FitsRows r (num_rows fs vs) fs vs
    → (n : ℕ) × (ws : List Value) × (size fs vs ≡ ok (pos n, ws))
      × (length ws ≡ length vs)
      × Encodes n e (encode r fs ws e)
unfolding size encode
encode-size r fs vs e h =
    let (n, ws, (sized, same, written)) = rows_lem r (num_rows fs vs) fs vs 0 h in
    (
      n,
      ws,
      sized ∙ ap (λ (k : ℕ). ok (pos k, ws)) (omega arith),
      same,
      subst (λ (k : ℕ). Encodes n e (encode_rows r k fs ws e)) (num_rows-length fs vs ws same)
          (written e),
    )
