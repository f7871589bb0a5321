-- ===== src/Encoding/Decoder/Ready.antt =====
-- Reads of `Decoder` with no error before them and enough input.
use Prim.Native.Nat.{min}
use go_hdb.Prelude.{
  ℕ, ◌+◌, ◌*◌, ◌^◌, ◌<◌, ◌≡◌, refl, sym, ap, ◌∙◌, Bool, true, false, none, [], ◌∷◌, ◌++◌, arith,
  length, length-append, length-replicate, take-append, drop-append, drop_all, replicate, Bytes,
  leb, if◌then◌else◌, Bool-cases, inl, inr,
}
use go_hdb.Prelude.Int.{
  ℤ, pos, wrap, wrap-pos, signed-wrap, wrap-lt, IsInt8, IsInt16, IsInt32, IsInt64,
}
use go_hdb.Prelude.Words.{
  le_bytes, le_value, le_value-le_bytes, be_value-be_bytes, length-le_bytes, length-be_bytes,
}
use go_hdb.Encoding.Encoder.{ByteOrder, little_endian, big_endian, put_uint}
use go_hdb.Encoding.Decoder.{
  Decoder, read_full_error, copy_n_error, read_reader, read_full, skip, byte, bytes, bool, int8,
  uint_le, int16, uint16, uint16_byte_order, int32, uint32, int64, uint64, float64,
  read_scratch_size, get_uint,
}
use go_hdb.Encoding.Decoder.Progress.{advance}
use mathlib.Core.List.{append-nil}

-- `d` with no error, before `rd`, with the counter at `cnt`.
unfoldable pub ready : Decoder → Bytes → ℕ → Decoder
ready d rd cnt = record d { rd = rd; err = none; cnt = cnt }

read_full_error_self : (n : ℕ) → read_full_error n n ≡ none
unfolding read_full_error
read_full_error_self n = ground arith

copy_n_error_self : (n : ℕ) → copy_n_error n n ≡ none
unfolding copy_n_error
copy_n_error_self n = ground arith

module _ (d : Decoder) (rest : Bytes) (cnt : ℕ) where
  read_reader-ready :
      (buf got : Bytes)
      → length got ≡ length buf
      → read_reader buf (ready d (got ++ rest) cnt) ≡ ((got, none), ready d rest (cnt + length got))
  unfolding ready read_reader
  read_reader-ready buf got h =
      let n_eq : min (length buf) (length (got ++ rest)) ≡ length got =
        omega (arith, length-append got rest) in
      rw (n_eq, ← h)
        (rw (take-append got rest, drop-append got rest, drop_all (length got) buf (omega arith))
          (rw (read_full_error_self (length got), append-nil)))

  pub read_full-ready :
      (buf got : Bytes)
      → length got ≡ length buf
      → read_full buf (ready d (got ++ rest) cnt) ≡ ((got, none), ready d rest (cnt + length got))
  unfolding read_full ready
  read_full-ready buf got h = read_reader-ready buf got h

module _ (d : Decoder) (got rest : Bytes) (cnt : ℕ) where
  uint_le-ready :
      (n : ℕ)
      → length got ≡ n
      → uint_le n (ready d (got ++ rest) cnt) ≡ (le_value got, ready d rest (cnt + n))
  unfolding uint_le
  uint_le-ready n h =
      rw (read_full-ready d rest cnt (replicate n 0) got (h ∙ sym (length-replicate n 0)), h)

  pub bytes-ready :
      (p : Bytes)
      → length got ≡ length p
      → bytes p (ready d (got ++ rest) cnt) ≡ (got, ready d rest (cnt + length got))
  unfolding bytes
  bytes-ready p h = rw (read_full-ready d rest cnt p got h)

-- The bytes of one value, in front of `rest`.
module _ (d : Decoder) (rest : Bytes) (cnt : ℕ) where
  pub byte-ready : (b : ℕ) → byte (ready d (b ∷ rest) cnt) ≡ (b, ready d rest (cnt + 1))
  unfolding byte le_value
  byte-ready b =
      rw (read_full-ready d rest cnt (0 ∷ []) (b ∷ []) refl)
        (ap (λ (v : ℕ). (v, ready d rest (cnt + 1))) {x = b + 256 * 0} {y = b} (omega arith))

  pub bool-ready :
      (v : Bool) → bool (ready d ((if v then 1 else 0) ∷ rest) cnt) ≡ (v, ready d rest (cnt + 1))
  unfolding bool
  bool-ready true = rw (byte-ready 1)
  bool-ready false = rw (byte-ready 0)

  pub int8-ready :
      (z : ℤ) → IsInt8 z → int8 (ready d (wrap (2 ^ 8) z ∷ rest) cnt) ≡ (z, ready d rest (cnt + 1))
  unfolding int8
  int8-ready z h = rw (byte-ready (wrap (2 ^ 8) z), signed-wrap (2 ^ 7) z h)

  -- An unsigned value of n bytes.
  uint-ready :
      (n v : ℕ)
      → v < 256 ^ n
      → uint_le n (ready d (le_bytes n v ++ rest) cnt) ≡ (v, ready d rest (cnt + n))
  uint-ready n v h =
      rw (uint_le-ready d (le_bytes n v) rest cnt n (length-le_bytes n v), le_value-le_bytes n v h)

  pub uint16-ready :
      (v : ℕ)
      → v < 2 ^ 16
      → uint16 (ready d (le_bytes 2 v ++ rest) cnt) ≡ (v, ready d rest (cnt + 2))
  unfolding uint16
  uint16-ready v h = uint-ready 2 v h

  pub uint32-ready :
      (v : ℕ)
      → v < 2 ^ 32
      → uint32 (ready d (le_bytes 4 v ++ rest) cnt) ≡ (v, ready d rest (cnt + 4))
  unfolding uint32
  uint32-ready v h = uint-ready 4 v h

  pub uint64-ready :
      (v : ℕ)
      → v < 2 ^ 64
      → uint64 (ready d (le_bytes 8 v ++ rest) cnt) ≡ (v, ready d rest (cnt + 8))
  unfolding uint64
  uint64-ready v h = uint-ready 8 v h

  pub float64-ready :
      (v : ℕ)
      → v < 2 ^ 64
      → float64 (ready d (le_bytes 8 v ++ rest) cnt) ≡ (v, ready d rest (cnt + 8))
  unfolding float64
  float64-ready v h = uint-ready 8 v h

  pub int16-ready :
      (z : ℤ)
      → IsInt16 z
      → int16 (ready d (le_bytes 2 (wrap (2 ^ 16) z) ++ rest) cnt) ≡ (z, ready d rest (cnt + 2))
  unfolding int16
  int16-ready z h =
      rw (
        uint-ready 2 (wrap (2 ^ 16) z) (wrap-lt (2 ^ 16) z (omega arith)),
        signed-wrap (2 ^ 15) z h,
      )

  pub int32-ready :
      (z : ℤ)
      → IsInt32 z
      → int32 (ready d (le_bytes 4 (wrap (2 ^ 32) z) ++ rest) cnt) ≡ (z, ready d rest (cnt + 4))
  unfolding int32
  int32-ready z h =
      rw (
        uint-ready 4 (wrap (2 ^ 32) z) (wrap-lt (2 ^ 32) z (omega arith)),
        signed-wrap (2 ^ 31) z h,
      )

  pub int64-ready :
      (z : ℤ)
      → IsInt64 z
      → int64 (ready d (le_bytes 8 (wrap (2 ^ 64) z) ++ rest) cnt) ≡ (z, ready d rest (cnt + 8))
  unfolding int64
  int64-ready z h =
      rw (
        uint-ready 8 (wrap (2 ^ 64) z) (wrap-lt (2 ^ 64) z (omega arith)),
        signed-wrap (2 ^ 63) z h,
      )

  get_uint-put_uint :
      (order : ByteOrder) (n v : ℕ) → v < 256 ^ n → get_uint order (put_uint order n v) ≡ v
  unfolding get_uint put_uint
  get_uint-put_uint little_endian n v h = le_value-le_bytes n v h
  get_uint-put_uint big_endian n v h = be_value-be_bytes n v h

  pub length-put_uint : (order : ByteOrder) (n v : ℕ) → length (put_uint order n v) ≡ n
  unfolding put_uint
  length-put_uint little_endian n v = length-le_bytes n v
  length-put_uint big_endian n v = length-be_bytes n v

  pub uint16_byte_order-ready :
      (order : ByteOrder) (v : ℕ)
      → v < 2 ^ 16
      → uint16_byte_order order (ready d (put_uint order 2 v ++ rest) cnt)
        ≡ (v, ready d rest (cnt + 2))
  unfolding uint16_byte_order
  uint16_byte_order-ready order v h =
      rw (read_full-ready d rest cnt (0 ∷ 0 ∷ []) (put_uint order 2 v) (length-put_uint order 2 v))
        (rw (get_uint-put_uint order 2 v h, length-put_uint order 2 v))

  skip_far-ready :
      (got : Bytes)
      → advance
          (ready d (got ++ rest) cnt)
          (length got)
          (copy_n_error (length got) (min (length got) (length (got ++ rest))))
        ≡ ready d rest (cnt + length got)
  unfolding advance ready
  skip_far-ready got =
      let n_eq : min (length got) (length (got ++ rest)) ≡ length got =
        omega (arith, length-append got rest) in
      rw n_eq (rw (drop-append got rest, copy_n_error_self (length got)))

  -- Bytes that are skipped.
  pub skip-ready :
      (got : Bytes)
      → skip (length got) (ready d (got ++ rest) cnt) ≡ (tt, ready d rest (cnt + length got))
  unfolding skip ready advance
  skip-ready got = elim (Bool-cases (leb (length got) read_scratch_size)) [
    | inl near ↦ rw near (
        rw (
          read_full-ready d rest cnt (replicate (length got) 0) got
            (sym (length-replicate (length got) 0))))
    | inr far ↦ rw far (ap (λ e. (tt, e)) (skip_far-ready got))
  ]

  -- Sizes, which are written from an int that fits.
  pub int16-ready_pos :
      (v : ℕ)
      → v < 2 ^ 15
      → int16 (ready d (le_bytes 2 v ++ rest) cnt) ≡ (pos v, ready d rest (cnt + 2))
  int16-ready_pos v h =
      rw (wrap-pos (2 ^ 16) v (omega arith)) at (int16-ready (pos v) (omega arith))

  pub int32-ready_pos :
      (v : ℕ)
      → v < 2 ^ 31
      → int32 (ready d (le_bytes 4 v ++ rest) cnt) ≡ (pos v, ready d rest (cnt + 4))
  int32-ready_pos v h =
      rw (wrap-pos (2 ^ 32) v (omega arith)) at (int32-ready (pos v) (omega arith))
