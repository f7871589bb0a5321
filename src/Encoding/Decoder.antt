-- ===== src/Encoding/Decoder.antt =====
-- driver/internal/protocol/encoding/decode.go: the state of `Decoder` and its fixed-size values.
-- The io.Reader is represented by the bytes it still delivers before its end.
pub mod Progress
pub mod Values
pub mod Ready
use Prim.Native.Nat.{min}
use go_hdb.Prelude.{
  ℕ, zero, suc, ◌+◌, ◌-◌, ◌%◌, ◌^◌, Bool, true, false, not, Option, none, some, List, [], ◌∷◌, ◌++◌,
  leb, ◌==◌, if◌then◌else◌, replicate, length, take, drop, Bytes,
}
use go_hdb.Prelude.Int.{ℤ, signed}
use go_hdb.Prelude.Words.{le_value, be_value}
use go_hdb.Encoding.Encoder.{ByteOrder, little_endian, big_endian}

-- io.EOF and io.ErrUnexpectedEOF
pub data IoError : Type 0 where
  eof unexpected_eof : IoError

pub record Decoder : Type 0 where
  pub rd : Bytes
  pub err : Option IoError
  pub cnt : ℕ
  pub alphanum_dfv1 : Bool
  pub empty_date_as_null : Bool

abbrev pub Decoding {ℓ} : Type ℓ → Type ℓ
Decoding A = Decoder → A × Decoder

infixl 5 ◌>>=◌ ◌>>◌
abbrev pub ◌>>=◌ {ℓ κ} : {A : Type ℓ} {B : Type κ} → Decoding A → (A → Decoding B) → Decoding B
◌>>=◌ m f d = let (a, d') = m d in f a d'

abbrev pub ◌>>◌ {ℓ} : {B : Type ℓ} → Decoding (Unit {0}) → Decoding B → Decoding B
◌>>◌ m k d = let (_, d') = m d in k d'

abbrev pub pure {ℓ} : {A : Type ℓ} → A → Decoding A
pure a d = (a, d)

abbrev pub read_scratch_size : ℕ
read_scratch_size = 4096

-- `io.ReadFull` and `io.CopyN` read n of the wanted bytes: the error that they return.
unfoldable pub read_full_error : ℕ → ℕ → Option IoError
read_full_error wanted n =
    if n == wanted then none else if n == 0 then some eof else some unexpected_eof

unfoldable pub copy_n_error : ℕ → ℕ → Option IoError
copy_n_error wanted n = if n == wanted then none else some eof

-- `buf[:n]` is overwritten by what was read.
unfoldable pub read_reader : Bytes → Decoding (Bytes × Option IoError)
read_reader buf d =
    let n = min (length buf) (length d.rd) in
    let e = read_full_error (length buf) n in
    ((take n d.rd ++ drop n buf, e), record d { rd = drop n d.rd; err = e; cnt = d.cnt + n })

-- `readFull`: the buffer as it is left, and the error.
unfoldable pub read_full : Bytes → Decoding (Bytes × Option IoError)
read_full buf d = elim d.err [ none ↦ read_reader buf d | some e ↦ ((buf, some e), d) ]

unfoldable pub skip : ℕ → Decoding (Unit {0})
skip cnt d =
    if leb cnt read_scratch_size
    then (tt, (read_full (replicate cnt 0) d).1)
    else (let n = min cnt (length d.rd) in
        (tt, record d { rd = drop n d.rd; err = copy_n_error cnt n; cnt = d.cnt + n }))

-- `if err != nil { return 0 }; return v`
abbrev pub or_zero : Option IoError → ℕ → ℕ
or_zero none v = v
or_zero (some e) v = 0

unfoldable pub byte : Decoding ℕ
byte = do (b, e) ← read_full (replicate 1 0); pure (or_zero e (le_value b))

-- `Bytes(p)`: p as it is left.
unfoldable pub bytes : Bytes → Decoding Bytes
bytes p = do (b, e) ← read_full p; pure b

unfoldable pub bool : Decoding Bool
bool = do b ← byte; pure (not (b == 0))

unfoldable pub int8 : Decoding ℤ
int8 = do b ← byte; pure (signed (2 ^ 7) b)

-- `binary.LittleEndian` over n bytes of the scratch buffer, 0 on an error.
unfoldable pub uint_le : ℕ → Decoding ℕ
uint_le n = do (b, e) ← read_full (replicate n 0); pure (or_zero e (le_value b))

unfoldable pub int16 : Decoding ℤ
int16 = do u ← uint_le 2; pure (signed (2 ^ 15) u)

unfoldable pub uint16 : Decoding ℕ
uint16 = uint_le 2

-- `Uint16` and `Uint32` of a `binary.ByteOrder`, on all bytes of a slice.
unfoldable pub get_uint : ByteOrder → Bytes → ℕ
get_uint little_endian b = le_value b
get_uint big_endian b = be_value b

unfoldable pub uint16_byte_order : ByteOrder → Decoding ℕ
uint16_byte_order order = do (b, e) ← read_full (replicate 2 0); pure (or_zero e (get_uint order b))

unfoldable pub int32 : Decoding ℤ
int32 = do u ← uint_le 4; pure (signed (2 ^ 31) u)

unfoldable pub uint32 : Decoding ℕ
uint32 = uint_le 4

unfoldable pub uint32_byte_order : ByteOrder → Decoding ℕ
uint32_byte_order order = do (b, e) ← read_full (replicate 4 0); pure (or_zero e (get_uint order b))

unfoldable pub int64 : Decoding ℤ
int64 = do u ← uint_le 8; pure (signed (2 ^ 63) u)

unfoldable pub uint64 : Decoding ℕ
uint64 = uint_le 8

-- A float64 is its bit pattern, math.Float64frombits.
unfoldable pub float64 : Decoding ℕ
float64 = uint_le 8
