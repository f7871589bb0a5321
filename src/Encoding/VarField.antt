-- ===== src/Encoding/VarField.antt =====
-- driver/internal/protocol/encoding/encode.go, decode.go and field.go: fields of variable size, which
-- begin with a length indicator. `LIString` and `LIBytes` differ in the Go type of the bytes alone.
pub mod Size
pub mod RoundTrip
use go_hdb.Prelude.{
  ℕ, ◌+◌, ◌-◌, ◌^◌, Bool, true, false, Option, none, Outcome, ok, panic, some, leb, ◌==◌,
  if◌then◌else◌, replicate, length, Bytes,
}
use go_hdb.Prelude.Int.{ℤ, pos, negsuc, ◌+ℤ◌, convert}
use go_hdb.Encoding.Encoder
use go_hdb.Encoding.Encoder.{Encoder}
use go_hdb.Encoding.Decoder
use go_hdb.Encoding.Decoder.{Decoder, Decoding, ◌>>=◌, ◌>>◌, pure}

abbrev pub bytes_len_ind_null_value : ℕ
bytes_len_ind_null_value = 255

abbrev pub bytes_len_ind_small : ℕ
bytes_len_ind_small = 245

abbrev pub bytes_len_ind_medium : ℕ
bytes_len_ind_medium = 246

abbrev pub bytes_len_ind_big : ℕ
bytes_len_ind_big = 247

-- math.MaxInt16 and math.MaxInt32
abbrev pub max_int16 : ℕ
max_int16 = 2 ^ 15 - 1

abbrev pub max_int32 : ℕ
max_int32 = 2 ^ 31 - 1

-- `varSize` on a length; its answer -1 is `negsuc 0`.
unfoldable pub var_size : ℕ → ℤ
var_size size =
    if leb size bytes_len_ind_small
    then pos (size + 1)
    else if leb size max_int16
    then pos (size + 3)
    else if leb size max_int32
    then pos (size + 5)
    else negsuc 0

-- "max argument length %d of string exceeded"
pub data LengthError : Type 0 where
  max_length_exceeded : ℕ → LengthError

-- The returned error, nil as `none`, and the encoder after it.
unfoldable pub put_var_field_ind : ℕ → Encoder → Option LengthError × Encoder
put_var_field_ind size e =
    if leb size bytes_len_ind_small
    then (none, Encoder.byte size e)
    else if leb size max_int16
    then (none, Encoder.int16 (convert (2 ^ 15) (pos size)) (Encoder.byte bytes_len_ind_medium e))
    else if leb size max_int32
    then (none, Encoder.int32 (convert (2 ^ 31) (pos size)) (Encoder.byte bytes_len_ind_big e))
    else (some (max_length_exceeded size), e)

-- `if err != nil { return err }; e.Bytes(p)`
abbrev pub then_bytes : Bytes → Option LengthError × Encoder → Option LengthError × Encoder
then_bytes p (none, e) = (none, Encoder.bytes p e)
then_bytes p (some x, e) = (some x, e)

unfoldable pub put_li_bytes : Bytes → Encoder → Option LengthError × Encoder
put_li_bytes p e = then_bytes p (put_var_field_ind (length p) e)

-- n, size, null
pub record VarInd : Type 0 where
  pub n : ℕ
  pub size : ℤ
  pub null : Bool

unfoldable pub var_field_ind : Decoding VarInd
var_field_ind = do
  ind ← Decoder.byte
  if ind == bytes_len_ind_null_value
      then pure (record { n = 1; size = pos 0; null = true })
      else if leb ind bytes_len_ind_small
      then pure (record { n = 1; size = pos ind; null = false })
      else if ind == bytes_len_ind_medium
      then (do size ← Decoder.int16; pure (record { n = 3; size = size; null = false }))
      else if ind == bytes_len_ind_big
      then (do size ← Decoder.int32; pure (record { n = 5; size = size; null = false }))
      else pure (record { n = 1; size = pos 0; null = false })

-- `make([]byte, size)` panics on a negative size; then `d.Bytes(b)` and `n + size, b`.
unfoldable pub make_bytes : ℕ → ℤ → Decoding (Outcome (ℤ × Option Bytes))
make_bytes n (pos size) = do
  b ← Decoder.bytes (replicate size 0)
  pure (ok (pos (n + size), some b))
make_bytes n (negsuc size) = pure panic

-- `LIBytes`; a nil slice is `none`.
unfoldable pub li_bytes : Decoding (Outcome (ℤ × Option Bytes))
li_bytes = do v ← var_field_ind; if v.null then pure (ok (pos v.n, none)) else make_bytes v.n v.size
