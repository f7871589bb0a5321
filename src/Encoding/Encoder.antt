-- ===== src/Encoding/Encoder.antt =====
-- driver/internal/protocol/encoding/encode.go: the fixed-size values of `Encoder`.
-- The io.Writer is represented by the bytes it was given: it takes all of them, as the buffered writer
-- of a connection does until it fails, which Flush tells.
pub mod Zeroes
use go_hdb.Prelude.{
  ℕ, zero, suc, ◌-◌, ◌^◌, Bool, [], ◌∷◌, ◌++◌, leb, if◌then◌else◌, replicate, Bytes,
}
use go_hdb.Prelude.Int.{ℤ, wrap}
use go_hdb.Prelude.Words.{le_bytes, be_bytes}

-- The bytes written so far.
abbrev pub Encoder : Type 0
Encoder = Bytes

-- One statement after another.
infixl 5 ◌>>◌
abbrev pub ◌>>◌ : (Encoder → Encoder) → (Encoder → Encoder) → Encoder → Encoder
◌>>◌ f g e = g (f e)

abbrev pub write_scratch_size : ℕ
write_scratch_size = 4096

unfoldable pub bytes : Bytes → Encoder → Encoder
bytes p e = e ++ p

-- The loop of `Zeroes`: `left` is cnt - i. Each round writes one byte at least.
unfoldable pub zeroes_loop : ℕ → ℕ → Encoder → Encoder
unfolding bytes
zeroes_loop zero left e = e
zeroes_loop (suc fuel) zero e = e
zeroes_loop (suc fuel) (suc left) e =
    let j = if leb (suc left) write_scratch_size then suc left else write_scratch_size in
    zeroes_loop fuel (suc left - j) (bytes (replicate j 0) e)

unfoldable pub zeroes : ℕ → Encoder → Encoder
unfolding zeroes_loop
zeroes cnt e = zeroes_loop cnt cnt e

-- A byte is a number below 256.
unfoldable pub byte : ℕ → Encoder → Encoder
unfolding bytes
byte b e = bytes (b ∷ []) e

unfoldable pub bool : Bool → Encoder → Encoder
unfolding byte
bool v e = if v then byte 1 e else byte 0 e

unfoldable pub int8 : ℤ → Encoder → Encoder
unfolding byte
int8 i e = byte (wrap (2 ^ 8) i) e

unfoldable pub int16 : ℤ → Encoder → Encoder
unfolding bytes
int16 i e = bytes (le_bytes 2 (wrap (2 ^ 16) i)) e

unfoldable pub uint16 : ℕ → Encoder → Encoder
unfolding bytes
uint16 i e = bytes (le_bytes 2 i) e

pub data ByteOrder : Type 0 where
  little_endian big_endian : ByteOrder

-- `PutUint16` and the like of a `binary.ByteOrder`, on n bytes.
unfoldable pub put_uint : ByteOrder → ℕ → ℕ → Bytes
put_uint little_endian n v = le_bytes n v
put_uint big_endian n v = be_bytes n v

unfoldable pub uint16_byte_order : ℕ → ByteOrder → Encoder → Encoder
unfolding bytes
uint16_byte_order i order e = bytes (put_uint order 2 i) e

unfoldable pub int32 : ℤ → Encoder → Encoder
unfolding bytes
int32 i e = bytes (le_bytes 4 (wrap (2 ^ 32) i)) e

unfoldable pub uint32 : ℕ → Encoder → Encoder
unfolding bytes
uint32 i e = bytes (le_bytes 4 i) e

unfoldable pub int64 : ℤ → Encoder → Encoder
unfolding bytes
int64 i e = bytes (le_bytes 8 (wrap (2 ^ 64) i)) e

unfoldable pub uint64 : ℕ → Encoder → Encoder
unfolding bytes
uint64 i e = bytes (le_bytes 8 i) e

-- A float64 is its bit pattern, math.Float64bits.
unfoldable pub float64 : ℕ → Encoder → Encoder
unfolding bytes
float64 bits e = bytes (le_bytes 8 bits) e
