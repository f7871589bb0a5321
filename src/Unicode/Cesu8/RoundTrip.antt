-- ===== src/Unicode/Cesu8/RoundTrip.antt =====
-- cesu8.go: a rune is decoded as it was encoded, and its length is the number of its bytes.
use go_hdb.Prelude.{
  ℕ, ◌+◌, ◌-◌, ◌/◌, ◌%◌, ◌≤◌, ◌<◌, ◌≡◌, ◌≢◌, ◌⊎◌, inl, inr, refl, true, false, [], ◌∷◌, ◌++◌, arith,
  ltb, length, Bytes, Bool-cases, ltb→lt,
}
use go_hdb.Prelude.Int.{pos}
use go_hdb.Unicode.Utf8
use go_hdb.Unicode.Utf8.{rune_error, max_rune, is_valid, encode_valid, decode_two, decode_three}
use go_hdb.Unicode.Cesu8.{
  encode_rune, rune_len, is_surrogate, decode_surrogate, decode_surrogates, decode_rune,
}

-- The runes: up to `max_rune`, without the surrogates.
abbrev pub IsRune : ℕ → Type 0
IsRune r = (r ≤ max_rune) × ((r < 55296) ⊎ (57343 < r))

pub is_valid-IsRune : (r : ℕ) → IsRune r → is_valid r ≡ true
is_valid-IsRune r (h, k) = ground arith

pub rune_len-encode : (r : ℕ) → IsRune r → rune_len (pos r) ≡ pos (length (encode_rune (pos r)))
unfolding rune_len encode_rune Utf8.encode_rune encode_valid
rune_len-encode r h = ground (arith, is_valid-IsRune r h)

pub is_surrogate-other : (b : ℕ) (p : Bytes) → b ≢ 237 → is_surrogate (b ∷ p) ≡ false
unfolding is_surrogate
is_surrogate-other b [] h = refl
is_surrogate-other b (c ∷ []) h = refl
is_surrogate-other b (c ∷ d ∷ p) h = ground arith

module _ (r : ℕ) where
  pub encode-one : r < 128 → encode_rune (pos r) ≡ r ∷ []
  unfolding encode_rune Utf8.encode_rune encode_valid
  encode-one h = ground arith

  pub encode-two : 128 ≤ r → r < 2048 → encode_rune (pos r) ≡ (192 + r / 64) ∷ (128 + r % 64) ∷ []
  unfolding encode_rune Utf8.encode_rune encode_valid
  encode-two h k = ground arith

  pub encode-three :
      2048 ≤ r
      → r < 65536
      → IsRune r
      → encode_rune (pos r) ≡ (224 + r / 4096) ∷ (128 + r / 64 % 64) ∷ (128 + r % 64) ∷ []
  unfolding encode_rune Utf8.encode_rune encode_valid
  encode-three h k v = ground (arith, is_valid-IsRune r v)

  pub encode-six :
      65536 ≤ r
      → r ≤ max_rune
      → encode_rune (pos r)
        ≡ 237
          ∷ (160 + (r - 65536) / 65536)
          ∷ (128 + (r - 65536) / 1024 % 64)
          ∷ 237
          ∷ (176 + r / 64 % 16)
          ∷ (128 + r % 64)
          ∷ []
  unfolding encode_rune
  encode-six h k = ground arith

module _ (r : ℕ) (rest : Bytes) where
  decode-one : r < 128 → decode_rune (r ∷ rest) ≡ (r, 1)
  unfolding decode_rune Utf8.decode_rune
  decode-one h = ground (arith, is_surrogate-other r rest)

  decode-two : 128 ≤ r → r < 2048 → decode_rune ((192 + r / 64) ∷ (128 + r % 64) ∷ rest) ≡ (r, 2)
  unfolding decode_rune Utf8.decode_rune decode_two
  decode-two h k = ground (arith, is_surrogate-other (192 + r / 64) ((128 + r % 64) ∷ rest))

  decode-three :
      2048 ≤ r
      → r < 65536
      → IsRune r
      → decode_rune ((224 + r / 4096) ∷ (128 + r / 64 % 64) ∷ (128 + r % 64) ∷ rest) ≡ (r, 3)
  unfolding decode_rune Utf8.decode_rune decode_three is_surrogate
  decode-three h k (v, s) = ground arith

  decode-six :
      65536 ≤ r
      → r ≤ max_rune
      → decode_rune (
          237
          ∷ (160 + (r - 65536) / 65536)
          ∷ (128 + (r - 65536) / 1024 % 64)
          ∷ 237
          ∷ (176 + r / 64 % 16)
          ∷ (128 + r % 64)
          ∷ rest)
        ≡ (r, 6)
  unfolding decode_rune is_surrogate decode_surrogates decode_surrogate
  decode-six h k = ground arith

decode-encoded :
    (r : ℕ) (rest : Bytes)
    → IsRune r
    → decode_rune (encode_rune (pos r) ++ rest) ≡ (r, length (encode_rune (pos r)))
decode-encoded r rest h = elim (Bool-cases (ltb r 128)) [
  | inl e ↦ let p = ltb→lt r 128 e in rw (encode-one r p) (decode-one r rest p)
  | inr e ↦ elim (Bool-cases (ltb r 2048)) [
    | inl t ↦
        let q : 128 ≤ r = ground (arith, e) in
        let p = ltb→lt r 2048 t in rw (encode-two r q p) (decode-two r rest q p)
    | inr t ↦ elim (Bool-cases (ltb r 65536)) [
      | inl u ↦
          let q : 2048 ≤ r = ground (arith, t) in
          let p = ltb→lt r 65536 u in rw (encode-three r q p h) (decode-three r rest q p h)
      | inr u ↦
          let q : 65536 ≤ r = ground (arith, u) in rw (encode-six r q h.0) (decode-six r rest q h.0)
    ]
  ]
]

-- Every rune is decoded as it was encoded, whatever comes behind it, and in the width that `RuneLen` gives.
pub decode_rune-encode :
    (r : ℕ) (rest : Bytes)
    → IsRune r
    → (decode_rune (encode_rune (pos r) ++ rest) ≡ (r, length (encode_rune (pos r))))
      × (rune_len (pos r) ≡ pos (length (encode_rune (pos r))))
decode_rune-encode r rest h = (decode-encoded r rest h, rune_len-encode r h)
