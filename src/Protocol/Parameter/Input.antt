-- ===== src/Protocol/Parameter/Input.antt =====
-- parameter.go: `InputParameters`. A row of values has a value for each field; the values behind the last
-- row that is whole are neither counted nor written. `size` sets the positions of large objects, so it
-- returns the values too.
use go_hdb.Prelude.{
  ℕ, zero, suc, ◌/◌, ◌&&◌, ◌||◌, Bool, false, Outcome, ok, panic, List, [], ◌∷◌, ◌++◌, ◌==◌,
  if◌then◌else◌, length, take, drop,
}
use go_hdb.Prelude.Int.{ℤ, pos, pos_part, ◌+ℤ◌}
use go_hdb.Encoding.Encoder
use go_hdb.Encoding.Encoder.{Encoder}
use go_hdb.Protocol.Convert.Values.{Value, lob}
use go_hdb.Protocol.Parameter.Metadata.{ParameterField, is_lob_field, is_in}
use go_hdb.Protocol.Parameter.Fields.{Written, done, failed, panicked, stuck, Runtime}
use go_hdb.Protocol.Parameter.Encode.{prm_size, encode_prm}

-- `f.IsLob() && f.In()`
unfoldable pub is_in_lob : ParameterField → Bool
is_in_lob f = is_lob_field f && is_in f

unfoldable pub has_in_lob : List ParameterField → Bool
unfolding is_in_lob
has_in_lob [] = false
has_in_lob (f ∷ fs) = is_in_lob f || has_in_lob fs

abbrev pub and_then {ℓ κ} : {A : Type ℓ} {B : Type κ} → Outcome A → (A → Outcome B) → Outcome B
and_then (ok a) f = f a
and_then panic f = panic

-- A value that is missing is out of range.
unfoldable pub size_columns : List ParameterField → List Value → ℤ → Outcome ℤ
size_columns [] vs size = ok size
size_columns (f ∷ fs) [] size = panic
size_columns (f ∷ fs) (v ∷ vs) size = and_then (prm_size f v) λ n. size_columns fs vs (size +ℤ n)

-- Each large object is put behind the row.
unfoldable pub set_positions : List Value → ℤ → ℤ × List Value
set_positions [] size = (size, [])
set_positions (lob d ∷ vs) size =
    let (n, ws) = set_positions vs (size +ℤ pos (length d.buf)) in
    (n, lob (record d { position = pos_part size }) ∷ ws)
set_positions (v ∷ vs) size = let (n, ws) = set_positions vs size in (n, v ∷ ws)

unfoldable pub size_row : List ParameterField → List Value → ℤ → Outcome (ℤ × List Value)
unfolding size_columns set_positions has_in_lob
size_row fs row size =
    and_then (size_columns fs row (size +ℤ pos (length fs)))
      λ n. ok (if has_in_lob fs then set_positions row n else (n, row))

unfoldable pub size_rows : ℕ → List ParameterField → List Value → ℤ → Outcome (ℤ × List Value)
unfolding size_row
size_rows zero fs vs size = ok (size, vs)
size_rows (suc rows) fs vs size = and_then (size_row fs (take (length fs) vs) size) λ (n, row).
    and_then (size_rows rows fs (drop (length fs) vs) n) λ (m, rest). ok (m, row ++ rest)

-- `numArg`; without fields there is no row.
unfoldable pub num_rows : List ParameterField → List Value → ℕ
num_rows fs vs = if length fs == 0 then 0 else length vs / length fs

unfoldable pub size : List ParameterField → List Value → Outcome (ℤ × List Value)
unfolding size_rows num_rows
size fs vs = size_rows (num_rows fs vs) fs vs (pos 0)

abbrev pub then_write : Written → (Encoder → Written) → Written
then_write (done e) f = f e
then_write (failed x e) f = failed x e
then_write panicked f = panicked
then_write stuck f = stuck

-- `writeFirst` of each large object.
unfoldable pub write_lobs : List Value → Encoder → Encoder
write_lobs [] e = e
write_lobs (lob d ∷ vs) e = write_lobs vs (Encoder.bytes d.buf e)
write_lobs (v ∷ vs) e = write_lobs vs e

module _ (r : Runtime) where
  unfoldable pub encode_columns : List ParameterField → List Value → Encoder → Written
  encode_columns [] vs e = done e
  encode_columns (f ∷ fs) [] e = panicked
  encode_columns (f ∷ fs) (v ∷ vs) e = then_write (encode_prm r f v e) λ e. encode_columns fs vs e

  unfoldable pub encode_row : List ParameterField → List Value → Encoder → Written
  unfolding encode_columns write_lobs has_in_lob
  encode_row fs row e =
      then_write (encode_columns fs row e) λ e. done (if has_in_lob fs then write_lobs row e else e)

  unfoldable pub encode_rows : ℕ → List ParameterField → List Value → Encoder → Written
  unfolding encode_row
  encode_rows zero fs vs e = done e
  encode_rows (suc rows) fs vs e =
      then_write (encode_row fs (take (length fs) vs) e)
        λ e. encode_rows rows fs (drop (length fs) vs) e

  unfoldable pub encode : List ParameterField → List Value → Encoder → Written
  unfolding encode_rows num_rows
  encode fs vs e = encode_rows (num_rows fs vs) fs vs e
