-- ===== src/Protocol/Options/Values.antt =====
-- optiontype.go: what is read of a value that was written.
use go_hdb.Prelude.{
  ℕ, ◌+◌, ◌^◌, ◌<◌, ◌≡◌, refl, sym, ap, true, false, ◌∷◌, ◌++◌, arith, if◌then◌else◌, length,
  length-append, length-replicate, replicate, Bytes, ok,
}
use go_hdb.Prelude.Int.{pos, wrap, convert, convert-pos, IsInt8, IsInt32, IsInt64}
use go_hdb.Prelude.Words.{le_bytes}
use go_hdb.Encoding.Encoder
use go_hdb.Encoding.Decoder.{Decoder}
use go_hdb.Encoding.Decoder.Ready.{
  ready, bool-ready, int8-ready, int16-ready, int32-ready, int64-ready, float64-ready, bytes-ready,
}
use go_hdb.Protocol.Options.{
  OptValue, boolean, tinyint, integer, bigint, double, string, bstring, opt_type_via_type,
  size_value,
}
use go_hdb.Protocol.Options.Encode.{encode_value}
use go_hdb.Protocol.Options.Decode.{decode_bytes, decode_value}
use mathlib.Core.List.{append_assoc}

-- A value that its type can carry; the length of a text is an int16.
abbrev pub InRange : OptValue → Type 0
InRange (boolean v) = Unit {0}
InRange (tinyint v) = IsInt8 v
InRange (integer v) = IsInt32 v
InRange (bigint v) = IsInt64 v
InRange (double v) = v < 2 ^ 64
InRange (string v) = length v < 2 ^ 15
InRange (bstring v) = length v < 2 ^ 15

unfoldable pub text_bytes : Bytes → Bytes → Bytes
text_bytes v rest = le_bytes 2 (wrap (2 ^ 16) (convert (2 ^ 15) (pos (length v)))) ++ (v ++ rest)

unfoldable pub value_bytes : OptValue → Bytes → Bytes
value_bytes (boolean v) rest = (if v then 1 else 0) ∷ rest
value_bytes (tinyint v) rest = wrap (2 ^ 8) v ∷ rest
value_bytes (integer v) rest = le_bytes 4 (wrap (2 ^ 32) v) ++ rest
value_bytes (bigint v) rest = le_bytes 8 (wrap (2 ^ 64) v) ++ rest
value_bytes (double v) rest = le_bytes 8 v ++ rest
value_bytes (string v) rest = text_bytes v rest
value_bytes (bstring v) rest = text_bytes v rest

pub encode_value-append :
    (v : OptValue) (e rest : Bytes) → encode_value v e ++ rest ≡ e ++ value_bytes v rest
unfolding encode_value value_bytes text_bytes Encoder.bool Encoder.byte Encoder.bytes Encoder.int8
    Encoder.int16 Encoder.int32 Encoder.int64 Encoder.float64
encode_value-append (boolean true) e rest = simp append_assoc
encode_value-append (boolean false) e rest = simp append_assoc
encode_value-append (tinyint v) e rest = simp append_assoc
encode_value-append (integer v) e rest = simp append_assoc
encode_value-append (bigint v) e rest = simp append_assoc
encode_value-append (double v) e rest = simp append_assoc
encode_value-append (string v) e rest = simp append_assoc
encode_value-append (bstring v) e rest = simp append_assoc

pub length-value_bytes :
    (v : OptValue) (rest : Bytes) → length (value_bytes v rest) ≡ size_value v + length rest
unfolding value_bytes text_bytes size_value le_bytes
length-value_bytes (boolean v) rest = omega arith
length-value_bytes (tinyint v) rest = omega arith
length-value_bytes (integer v) rest = omega arith
length-value_bytes (bigint v) rest = omega arith
length-value_bytes (double v) rest = omega arith
length-value_bytes (string v) rest = omega (arith, length-append v rest)
length-value_bytes (bstring v) rest = omega (arith, length-append v rest)

decode_text-ready :
    (d : Decoder) (v rest : Bytes) (cnt : ℕ)
    → decode_bytes (pos (length v)) (ready d (v ++ rest) cnt)
      ≡ (ok v, ready d rest (cnt + length v))
unfolding decode_bytes
decode_text-ready d v rest cnt =
    rw (bytes-ready d v rest cnt (replicate (length v) 0) (sym (length-replicate (length v) 0)))
      refl

pub decode_value-ready :
    (d : Decoder) (v : OptValue) (rest : Bytes) (cnt : ℕ)
    → InRange v
    → decode_value (opt_type_via_type v) (ready d (value_bytes v rest) cnt)
      ≡ (ok v, ready d rest (cnt + size_value v))
unfolding decode_value value_bytes text_bytes opt_type_via_type size_value
decode_value-ready d (boolean v) rest cnt h = rw (bool-ready d rest cnt v) refl
decode_value-ready d (tinyint v) rest cnt h = rw (int8-ready d rest cnt v h) refl
decode_value-ready d (integer v) rest cnt h = rw (int32-ready d rest cnt v h) refl
decode_value-ready d (bigint v) rest cnt h = rw (int64-ready d rest cnt v h) refl
decode_value-ready d (double v) rest cnt h = rw (float64-ready d rest cnt v h) refl
decode_value-ready d (string v) rest cnt h =
    rw
      (
        convert-pos (2 ^ 15) (length v) h,
        int16-ready d (v ++ rest) cnt (pos (length v)) (omega arith),
        decode_text-ready d v rest (cnt + 2),
      )
      (ap (λ (k : ℕ). (ok (string v), ready d rest k)) {x = cnt + 2 + length v}
        {y = cnt + (2 + length v)} (omega arith))
decode_value-ready d (bstring v) rest cnt h =
    rw
      (
        convert-pos (2 ^ 15) (length v) h,
        int16-ready d (v ++ rest) cnt (pos (length v)) (omega arith),
        decode_text-ready d v rest (cnt + 2),
      )
      (ap (λ (k : ℕ). (ok (bstring v), ready d rest k)) {x = cnt + 2 + length v}
        {y = cnt + (2 + length v)} (omega arith))
