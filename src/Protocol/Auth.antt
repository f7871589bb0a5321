-- ===== src/Protocol/Auth.antt =====
-- driver/internal/protocol/auth/auth.go: the size of nested authentication parameters.
pub mod RoundTrip
use go_hdb.Prelude.{
  ℕ, ◌-◌, ◌^◌, Bool, Option, none, some, leb, ltb, ◌==◌, if◌then◌else◌, Outcome, ok, panic,
}
use go_hdb.Encoding.Encoder
use go_hdb.Encoding.Encoder.{Encoder, big_endian}
use go_hdb.Encoding.Decoder
use go_hdb.Encoding.Decoder.{Decoding, ◌>>=◌, pure}

abbrev pub max_sub_prms_size_1_byte_len : ℕ
max_sub_prms_size_1_byte_len = 245

abbrev pub sub_prms_size_2_byte_indicator : ℕ
sub_prms_size_2_byte_indicator = 255

-- math.MaxUint16
abbrev pub max_uint16 : ℕ
max_uint16 = 2 ^ 16 - 1

-- "invalid subparameter size %d"
pub data SubSizeError : Type 0 where
  invalid_sub_size : ℕ → SubSizeError

-- `fieldSize`
unfoldable pub field_size : ℕ → ℕ
field_size s = if ltb max_sub_prms_size_1_byte_len s then 3 else 1

-- `encode`, of a size, which is never negative.
unfoldable pub encode_sub_size : ℕ → Encoder → Option SubSizeError × Encoder
encode_sub_size s e =
    if leb s max_sub_prms_size_1_byte_len
    then (none, Encoder.byte s e)
    else if leb s max_uint16
    then (
      none,
      Encoder.uint16_byte_order s big_endian (Encoder.byte sub_prms_size_2_byte_indicator e),
    )
    else (some (invalid_sub_size s), e)

-- `decode`: an indicator that is neither a size nor 255 panics.
unfoldable pub decode_sub_size : Decoding (Outcome ℕ)
decode_sub_size = do
  b ← Decoder.byte
  if leb b max_sub_prms_size_1_byte_len
      then pure (ok b)
      else if b == sub_prms_size_2_byte_indicator
      then (do s ← Decoder.uint16_byte_order big_endian; pure (ok s))
      else pure panic
