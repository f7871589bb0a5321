-- ===== src/Protocol/Auth/RoundTrip.antt =====
-- The size of nested parameters is decoded to what was encoded.
use go_hdb.Prelude.{
  ℕ, suc, ◌+◌, ◌≤◌, ◌<◌, ◌≡◌, refl, ap, none, some, [], ◌∷◌, ◌++◌, arith, leb, ltb, true, false,
  length, Bytes, inl, inr, Bool-cases, ok,
}
use go_hdb.Encoding.Encoder
use go_hdb.Encoding.Encoder.{put_uint, big_endian}
use go_hdb.Encoding.Decoder.{Decoder}
use go_hdb.Encoding.Decoder.Ready.{ready, byte-ready, uint16_byte_order-ready, length-put_uint}
use go_hdb.Protocol.Auth.{
  max_sub_prms_size_1_byte_len, sub_prms_size_2_byte_indicator, max_uint16, invalid_sub_size,
  field_size, encode_sub_size, decode_sub_size,
}
use native.Mathlib.Nat.{add_assoc}

leb_of_le : (a b : ℕ) → a ≤ b → leb a b ≡ true
leb_of_le a b h = ground arith

not_ltb :
    (s : ℕ) → leb s max_sub_prms_size_1_byte_len ≡ true → ltb max_sub_prms_size_1_byte_len s ≡ false
not_ltb s h = ground arith

is_ltb :
    (s : ℕ) → leb s max_sub_prms_size_1_byte_len ≡ false → ltb max_sub_prms_size_1_byte_len s ≡ true
is_ltb s h = ground arith

module _ (d : Decoder) (rest : Bytes) (cnt s : ℕ) where
  small :
      leb s max_sub_prms_size_1_byte_len ≡ true
      → decode_sub_size (ready d (s ∷ rest) cnt) ≡ (ok s, ready d rest (cnt + 1))
  unfolding decode_sub_size
  small h = rw (byte-ready d rest cnt s) (rw h)

  large :
      s ≤ max_uint16
      → decode_sub_size
          (ready d (sub_prms_size_2_byte_indicator ∷ (put_uint big_endian 2 s ++ rest)) cnt)
        ≡ (ok s, ready d rest (cnt + 3))
  unfolding decode_sub_size
  large h = rw (byte-ready d (put_uint big_endian 2 s ++ rest) cnt sub_prms_size_2_byte_indicator) (
      rw (uint16_byte_order-ready d rest (cnt + 1) big_endian s (omega (arith, h)))
        (simp add_assoc))

-- Up to MaxUint16 a size is encoded without an error in as many bytes as fieldSize says, and decoded to
-- itself from exactly them.
pub decode_sub_size-encode_sub_size :
    (d : Decoder) (rest : Bytes) (cnt s : ℕ)
    → s ≤ max_uint16
    → let bytes = (encode_sub_size s []).1 in
      ((encode_sub_size s []).0 ≡ none)
      × (length bytes ≡ field_size s)
      × (decode_sub_size (ready d (bytes ++ rest) cnt) ≡ (ok s, ready d rest (cnt + field_size s)))
unfolding encode_sub_size field_size Encoder.byte Encoder.uint16_byte_order
decode_sub_size-encode_sub_size d rest cnt s h =
    elim (Bool-cases (leb s max_sub_prms_size_1_byte_len)) [
      | inl a ↦ rw (a, not_ltb s a) (refl, refl, small d rest cnt s a)
      | inr a ↦
          rw (a, is_ltb s a, leb_of_le s max_uint16 h)
            (refl, ap suc (length-put_uint d rest cnt big_endian 2 s), large d rest cnt s h)
    ]

-- Beyond MaxUint16 an error is returned and nothing is written.
pub encode_sub_size_too_large :
    (s : ℕ) (e : Bytes) → max_uint16 < s → encode_sub_size s e ≡ (some (invalid_sub_size s), e)
unfolding encode_sub_size
encode_sub_size_too_large s e h = ground arith
