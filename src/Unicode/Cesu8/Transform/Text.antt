-- ===== src/Unicode/Cesu8/Transform/Text.antt =====
-- encoding.go: valid text is transformed from one encoding into the other.
use go_hdb.Prelude.{
  ℕ, ◌+◌, ◌/◌, ◌%◌, ◌≤◌, ◌<◌, ◌≡◌, ◌≢◌, true, false, ◌⊎◌, inl, inr, none, List, [], ◌∷◌, arith, ltb,
  length, Bytes, Bool-cases, All, ltb→lt,
}
use go_hdb.Prelude.Int.{pos}
use go_hdb.Unicode.Utf8
use go_hdb.Unicode.Utf8.{
  rune_error, rune_self, max_rune, encode_valid, decode_two, decode_three, decode_four,
}
use go_hdb.Unicode.Cesu8
use go_hdb.Unicode.Cesu8.{is_surrogate, decode_surrogates}
use go_hdb.Unicode.Cesu8.RoundTrip.{
  IsRune, is_valid-IsRune, rune_len-encode, decode_rune-encode, encode-one, encode-two,
  encode-three, encode-six, is_surrogate-other,
}
use go_hdb.Unicode.Cesu8.Transform.{Handler, returned, encoder, decoder, decode_cesu8, transform}
use go_hdb.Unicode.Cesu8.Transform.Loop.{text, ReadsAt, Reads, length-text, text_lem}

module _ (r : ℕ) where
  pub utf8-one : r < 128 → Utf8.encode_rune (pos r) ≡ r ∷ []
  unfolding Utf8.encode_rune encode_valid
  utf8-one h = ground arith

  pub utf8-two :
      128 ≤ r → r < 2048 → Utf8.encode_rune (pos r) ≡ (192 + r / 64) ∷ (128 + r % 64) ∷ []
  unfolding Utf8.encode_rune encode_valid
  utf8-two h k = ground arith

  pub utf8-three :
      2048 ≤ r
      → r < 65536
      → IsRune r
      → Utf8.encode_rune (pos r) ≡ (224 + r / 4096) ∷ (128 + r / 64 % 64) ∷ (128 + r % 64) ∷ []
  unfolding Utf8.encode_rune encode_valid
  utf8-three h k v = ground (arith, is_valid-IsRune r v)

  pub utf8-four :
      65536 ≤ r
      → IsRune r
      → Utf8.encode_rune (pos r)
        ≡ (240 + r / 262144) ∷ (128 + r / 4096 % 64) ∷ (128 + r / 64 % 64) ∷ (128 + r % 64) ∷ []
  unfolding Utf8.encode_rune encode_valid
  utf8-four h v = ground (arith, is_valid-IsRune r v)

module _ (r : ℕ) (rest : Bytes) where
  pub read-two :
      128 ≤ r → r < 2048 → Utf8.decode_rune ((192 + r / 64) ∷ (128 + r % 64) ∷ rest) ≡ (r, 2)
  unfolding Utf8.decode_rune decode_two
  read-two h k = ground arith

  pub read-three :
      2048 ≤ r
      → r < 65536
      → IsRune r
      → Utf8.decode_rune ((224 + r / 4096) ∷ (128 + r / 64 % 64) ∷ (128 + r % 64) ∷ rest) ≡ (r, 3)
  unfolding Utf8.decode_rune decode_three
  read-three h k (v, s) = ground arith

  pub read-four :
      65536 ≤ r
      → IsRune r
      → Utf8.decode_rune
          ((240 + r / 262144) ∷ (128 + r / 4096 % 64) ∷ (128 + r / 64 % 64) ∷ (128 + r % 64) ∷ rest)
        ≡ (r, 4)
  unfolding Utf8.decode_rune decode_four
  read-four h (v, s) = ground arith

encoder_valid :
    (p : Bytes) (r n : ℕ) → 2 ≤ n → Utf8.decode_rune p ≡ (r, n) → encoder.decode p ≡ ((r, n), false)
encoder_valid p r n h e = rw e (ground arith)

pub encoder-reads : (r : ℕ) → IsRune r → 128 ≤ r → ReadsAt encoder r (Utf8.encode_rune (pos r))
encoder-reads r h k = elim (Bool-cases (ltb r 2048)) [
  | inl t ↦
      let p = ltb→lt r 2048 t in
      rw (utf8-two r k p) (
        omega arith,
        λ rest.
            encoder_valid ((192 + r / 64) ∷ (128 + r % 64) ∷ rest) r 2 (omega arith)
              (read-two r rest k p),
      )
  | inr t ↦
      let q : 2048 ≤ r = ground (arith, t) in
      elim (Bool-cases (ltb r 65536)) [
        | inl u ↦
            let p = ltb→lt r 65536 u in
            rw (utf8-three r q p h)
              (omega arith, λ rest. encoder_valid _ r 3 (omega arith) (read-three r rest q p h))
        | inr u ↦
            let p : 65536 ≤ r = ground (arith, u) in
            rw (utf8-four r p h)
              (omega arith, λ rest. encoder_valid _ r 4 (omega arith) (read-four r rest p h))
      ]
]

pub encoder-Reads : Reads encoder Utf8.encode_rune
encoder-Reads = record {
  ascii_from = utf8-one;
  ascii_to = encode-one;
  reads = encoder-reads;
  len = rune_len-encode;
}

-- At the end of the input, and with room in dst, the UTF-8 of runes is transformed into their CESU-8.
pub transform-encoder :
    {E : Type 0} (handler : Handler E) (dst : ℕ) (rs : List ℕ)
    → All IsRune rs
    → length (text Cesu8.encode_rune rs) ≤ dst
    → transform encoder handler dst (text Utf8.encode_rune rs) true
      ≡ returned (text Cesu8.encode_rune rs) (length (text Utf8.encode_rune rs)) none
unfolding transform
transform-encoder handler dst rs h room =
    text_lem encoder handler dst (text Utf8.encode_rune rs) Utf8.encode_rune
      (length (text Utf8.encode_rune rs)) rs [] encoder-Reads h
      (length-text encoder Utf8.encode_rune rs encoder-Reads h) (omega (arith, room))

decoder_valid :
    (p : Bytes) (r n : ℕ)
    → 2 ≤ n
    → Cesu8.decode_rune p ≡ (r, n)
    → (is_surrogate p ≡ false) ⊎ (r ≢ rune_error)
    → decode_cesu8 p ≡ ((r, n), false)
unfolding decode_cesu8 Cesu8.decode_rune
decoder_valid p r n h e (inl s) = ground (arith, s, e)
decoder_valid p r n h e (inr s) = ground (arith, s, e)

pub three_no_surrogate :
    (r : ℕ) (rest : Bytes)
    → r < 65536
    → IsRune r
    → is_surrogate ((224 + r / 4096) ∷ (128 + r / 64 % 64) ∷ (128 + r % 64) ∷ rest) ≡ false
unfolding is_surrogate
three_no_surrogate r rest h (k, s) = ground arith

decoder-reads : (r : ℕ) → IsRune r → 128 ≤ r → ReadsAt decoder r (Cesu8.encode_rune (pos r))
decoder-reads r h k = elim (Bool-cases (ltb r 2048)) [
  | inl t ↦
      let p = ltb→lt r 2048 t in
      let e = encode-two r k p in
      rw e (
        omega arith,
        λ rest.
            decoder_valid _ r 2 (omega arith) (rw e at (decode_rune-encode r rest h).0)
              (inl (is_surrogate-other (192 + r / 64) ((128 + r % 64) ∷ rest) (omega arith))),
      )
  | inr t ↦
      let q : 2048 ≤ r = ground (arith, t) in
      elim (Bool-cases (ltb r 65536)) [
        | inl u ↦
            let p = ltb→lt r 65536 u in
            let e = encode-three r q p h in
            rw e (
              omega arith,
              λ rest.
                  decoder_valid _ r 3 (omega arith) (rw e at (decode_rune-encode r rest h).0)
                    (inl (three_no_surrogate r rest p h)),
            )
        | inr u ↦
            let p : 65536 ≤ r = ground (arith, u) in
            let e = encode-six r p h.0 in
            rw e (
              omega arith,
              λ rest.
                  decoder_valid _ r 6 (omega arith) (rw e at (decode_rune-encode r rest h).0)
                    (inr (λ k. omega arith)),
            )
      ]
]

rune_len-utf8 : (r : ℕ) → IsRune r → Utf8.rune_len (pos r) ≡ pos (length (Utf8.encode_rune (pos r)))
unfolding Utf8.rune_len Utf8.encode_rune encode_valid
rune_len-utf8 r (h, k) = ground (arith, is_valid-IsRune r (h, k))

decoder-Reads : Reads decoder Cesu8.encode_rune
decoder-Reads = record {
  ascii_from = encode-one;
  ascii_to = utf8-one;
  reads = decoder-reads;
  len = rune_len-utf8;
}

-- At the end of the input, and with room in dst, the CESU-8 of runes is transformed into their UTF-8.
pub transform-decoder :
    {E : Type 0} (handler : Handler E) (dst : ℕ) (rs : List ℕ)
    → All IsRune rs
    → length (text Utf8.encode_rune rs) ≤ dst
    → transform decoder handler dst (text Cesu8.encode_rune rs) true
      ≡ returned (text Utf8.encode_rune rs) (length (text Cesu8.encode_rune rs)) none
unfolding transform
transform-decoder handler dst rs h room =
    text_lem decoder handler dst (text Cesu8.encode_rune rs) Cesu8.encode_rune
      (length (text Cesu8.encode_rune rs)) rs [] decoder-Reads h
      (length-text decoder Cesu8.encode_rune rs decoder-Reads h) (omega (arith, room))
