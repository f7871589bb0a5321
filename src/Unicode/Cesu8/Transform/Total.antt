-- ===== src/Unicode/Cesu8/Transform/Total.antt =====
-- encoding.go: a transformation ends, and keeps within dst and src.
use go_hdb.Prelude.{
  ℕ, zero, suc, ◌+◌, ◌≤◌, ◌<◌, ◌≡◌, refl, Bool, ◌&&◌, not, ◌⊎◌, inl, inr, Option, none, some, [],
  ◌∷◌, ◌++◌, arith, leb, ltb, length, length-append, length-drop, drop, Bytes, Bool-cases,
}
use go_hdb.Prelude.Int.{ℤ, pos, negsuc}
use go_hdb.Unicode.Utf8
use go_hdb.Unicode.Utf8.{
  rune_error, rune_self, max_rune, encode_valid, decode_two, decode_three, decode_four,
}
use go_hdb.Unicode.Cesu8
use go_hdb.Unicode.Cesu8.{
  is_surrogate, decode_surrogates, decode_surrogate, with_low, decode_checked_surrogate,
}
use go_hdb.Unicode.Cesu8.Transform.{
  Failure, Handler, Transformed, returned, panicked, stuck, Codec, encoder, decoder, decode_cesu8,
  pos_of, handle, put, handled, decoded, ascii, transform_loop, transform,
}

-- A rune has a width, and its length is that of its code.
pub record IsCodec (c : Codec) : Type 0 where
  pub width : (b : ℕ) (p : Bytes) → 0 < (c.decode (b ∷ p)).0.1
  pub len : (r : ℤ) (m : ℕ) → c.rune_len r ≡ pos m → length (c.encode_rune r) ≡ m

pub width-two : (b : ℕ) (p : Bytes) → 0 < (decode_two b p).1
unfolding decode_two
width-two b [] = omega arith
width-two b (b1 ∷ p) = ground arith

pub width-three : (b : ℕ) (p : Bytes) → 0 < (decode_three b p).1
unfolding decode_three
width-three b [] = omega arith
width-three b (b1 ∷ []) = omega arith
width-three b (b1 ∷ b2 ∷ p) = ground arith

pub width-four : (b : ℕ) (p : Bytes) → 0 < (decode_four b p).1
unfolding decode_four
width-four b [] = omega arith
width-four b (b1 ∷ []) = omega arith
width-four b (b1 ∷ b2 ∷ []) = omega arith
width-four b (b1 ∷ b2 ∷ b3 ∷ p) = ground arith

width-utf8 : (b : ℕ) (p : Bytes) → 0 < (Utf8.decode_rune (b ∷ p)).1
unfolding Utf8.decode_rune
width-utf8 b p = ground (arith, width-two b p, width-three b p, width-four b p)

width-low : (high : ℕ) (low : Option ℕ) → 0 < (with_low high low).1
width-low high none = omega arith
width-low high (some low) = omega arith

width-surrogates : (p : Bytes) → 0 < (decode_surrogates p).1
unfolding decode_surrogates
width-surrogates p = width-low (decode_checked_surrogate p) (decode_surrogate (drop 3 p))

width-cesu8 : (b : ℕ) (p : Bytes) → 0 < (decode_cesu8 (b ∷ p)).0.1
unfolding decode_cesu8
width-cesu8 b p = elim (Bool-cases (is_surrogate (b ∷ p))) [
  | inl e ↦ rw e (width-surrogates (b ∷ p))
  | inr e ↦ rw e (width-utf8 b p)
]

len-cesu8 : (r : ℤ) (m : ℕ) → Cesu8.rune_len r ≡ pos m → length (Cesu8.encode_rune r) ≡ m
unfolding Cesu8.rune_len Cesu8.encode_rune Utf8.encode_rune encode_valid
len-cesu8 (pos r) m h = ground arith
len-cesu8 (negsuc r) m h = ground arith

len-utf8 : (r : ℤ) (m : ℕ) → Utf8.rune_len r ≡ pos m → length (Utf8.encode_rune r) ≡ m
unfolding Utf8.rune_len Utf8.encode_rune encode_valid
len-utf8 (pos r) m h = ground arith
len-utf8 (negsuc r) m h = ground arith

pub encoder-IsCodec : IsCodec encoder
encoder-IsCodec = record { width = width-utf8; len = len-cesu8 }

pub decoder-IsCodec : IsCodec decoder
decoder-IsCodec = record { width = width-cesu8; len = len-utf8 }

-- A result, and not a loop without end: nDst is in dst, nSrc in src, and without an error all is read.
-- `EncodeRune` panics on a dst that is too short: so it does not.
abbrev pub IsTransformed : {E : Type 0} → ℕ → ℕ → Transformed E → Type 0
IsTransformed dst src (returned out i e) = (length out ≤ dst) × (i ≤ src) × (e ≡ none → i ≡ src)
IsTransformed dst src panicked = Unit {0}
IsTransformed dst src stuck = ⊥

some-none : {A : Type 0} {a : A} → Option.some a ≡ none → ⊥
some-none h = ground (arith, h)

module _ {E : Type 0} (c : Codec) (handler : Handler E) (dst : ℕ) (src : Bytes)
    (at_eof : Bool) where
  abbrev IsResult : Transformed E → Type 0
  IsResult = IsTransformed dst (length src)

  failed-IsResult :
      (out p : Bytes) (e : Failure E)
      → length out ≤ dst
      → IsResult (returned out (pos_of c handler dst src at_eof p) (some e))
  failed-IsResult out p e h = (h, omega arith, λ k. absurd (some-none k))

  abbrev Ends : ℕ → (Bytes → Bytes → Transformed E) → Type 0
  Ends n again = (out p : Bytes) → length out ≤ dst → length p ≤ n → IsResult (again out p)

  put-IsResult :
      (n w : ℕ) (again : Bytes → Bytes → Transformed E) (out p : Bytes) (r m : ℤ)
      → Ends n again
      → IsCodec c
      → c.rune_len r ≡ m
      → length out ≤ dst
      → length p ≤ suc n
      → 0 < w
      → IsResult (put c handler dst src at_eof again out p w r m)
  put-IsResult n w again out p r (negsuc k) ends ok e h hp hw = tt
  put-IsResult n w again out p r (pos m) ends ok e h hp hw =
      elim (Bool-cases (ltb dst (length out + m))) [
        | inl t ↦ rw t (failed-IsResult out p Failure.short_dst h)
        | inr t ↦
            let room : length out + m ≤ dst = ground (arith, t) in
            rw t (
              ends (out ++ c.encode_rune r) (drop w p)
                (omega (arith, room, length-append {0} out (c.encode_rune r), ok.len r m e))
                (omega (arith, length-drop {0} w p)))
      ]

  handled-IsResult :
      (n w : ℕ) (again : Bytes → Bytes → Transformed E) (out p : Bytes) (x : Failure E ⊎ ℤ)
      → Ends n again
      → IsCodec c
      → length out ≤ dst
      → length p ≤ suc n
      → 0 < w
      → IsResult (handled c handler dst src at_eof again out p w x)
  handled-IsResult n w again out p (inl e) ends ok h hp hw = failed-IsResult out p e h
  handled-IsResult n w again out p (inr r) ends ok h hp hw =
      put-IsResult n w again out p r (c.rune_len r) ends ok refl h hp hw

  decoded-IsResult :
      (n : ℕ) (again : Bytes → Bytes → Transformed E) (out p : Bytes) (x : (ℕ × ℕ) × Bool)
      → Ends n again
      → IsCodec c
      → length out ≤ dst
      → length p ≤ suc n
      → 0 < x.0.1
      → IsResult (decoded c handler dst src at_eof again out p x)
  decoded-IsResult n again out p ((r, w), wrong) ends ok h hp hw =
      handled-IsResult n w again out p (handle c handler dst src at_eof p r wrong) ends ok h hp hw

  ascii-IsResult :
      (n b : ℕ) (again : Bytes → Bytes → Transformed E) (out p : Bytes)
      → Ends n again
      → length out ≤ dst
      → length p ≤ n
      → IsResult (ascii c handler dst src at_eof again out b p)
  ascii-IsResult n b again out p ends h hp = elim (Bool-cases (leb dst (length out))) [
    | inl t ↦ rw t (failed-IsResult out (b ∷ p) Failure.short_dst h)
    | inr t ↦
        let room : length out < dst = ground (arith, t) in
        rw t (ends (out ++ b ∷ []) p (omega (arith, room, length-append {0} out (b ∷ []))) hp)
  ]

  transform_loop-Ends : (n : ℕ) → IsCodec c → Ends n (transform_loop c handler dst src at_eof n)
  unfolding transform_loop
  transform_loop-Ends n ok out [] h hp = (h, omega arith, λ k. refl)
  transform_loop-Ends zero ok out (b ∷ p) h hp = absurd (omega arith)
  transform_loop-Ends (suc n) ok out (b ∷ p) h hp =
      let loop = transform_loop c handler dst src at_eof n in
      let ends = transform_loop-Ends n ok in
      elim (Bool-cases (ltb b rune_self)) [
        | inl t ↦ rw t (ascii-IsResult n b loop out p ends h (omega arith))
        | inr t ↦
            rw t
              (elim (Bool-cases
                (not at_eof && ltb (length (b ∷ p)) c.max && not (c.full_rune (b ∷ p)))) [
                  | inl u ↦ rw u (failed-IsResult out (b ∷ p) Failure.short_src h)
                  | inr u ↦ rw u (
                      decoded-IsResult n loop out (b ∷ p) (c.decode (b ∷ p)) ends ok h (omega arith)
                        (ok.width b p))
                ])
      ]

-- A transformation with a codec whose lengths are right ends, if it does not panic on a rune without a
-- length: it writes no more than dst holds, reads no more than src, and all of
-- src if it returns no error.
pub transform-IsTransformed :
    {E : Type 0} (c : Codec) (handler : Handler E) (dst : ℕ) (src : Bytes) (at_eof : Bool)
    → IsCodec c
    → IsTransformed dst (length src) (transform c handler dst src at_eof)
unfolding transform
transform-IsTransformed c handler dst src at_eof ok =
    transform_loop-Ends c handler dst src at_eof (length src) ok [] src (omega arith) (omega arith)
