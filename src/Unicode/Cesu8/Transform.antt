-- ===== src/Unicode/Cesu8/Transform.antt =====
-- driver/unicode/cesu8/encoding.go: the transformers between UTF-8 and CESU-8. `Encoder.Transform` and
-- `Decoder.Transform` have one loop, over a codec. Of `dst` the bytes that are written are kept, and its
-- length; i is `length src` less what is left. The loop's fuel is the number of bytes that are left, and
-- each round takes one of them at least; `stuck` is what comes out if the fuel is spent.
pub mod Loop
pub mod Rounds
pub mod Total
pub mod Text
use go_hdb.Prelude.{
  ℕ, zero, suc, ◌+◌, ◌-◌, Bool, true, false, ◌&&◌, ◌||◌, not, ◌⊎◌, inl, inr, Option, none, some,
  List, [], ◌∷◌, ◌++◌, leb, ltb, ◌==◌, if◌then◌else◌, length, drop, Bytes,
}
use go_hdb.Prelude.Int.{ℤ, pos, negsuc}
use go_hdb.Unicode.Utf8
use go_hdb.Unicode.Utf8.{rune_error, rune_self, utf_max}
use go_hdb.Unicode.Cesu8
use go_hdb.Unicode.Cesu8.{cesu_max, is_surrogate, decode_surrogates}

pub data Encoding : Type 0 where
  utf8 : Encoding
  cesu8 : Encoding

pub record DecodeError : Type 0 where
  pub enc : Encoding
  pub p : ℕ
  pub v : Bytes

pub data Failure (E : Type 0) : Type 0 where
  short_dst : Failure E
  short_src : Failure E
  invalid : DecodeError → Failure E
  handler_error : E → Failure E

-- An error handler, or nil.
abbrev pub Handler : Type 0 → Type 0
Handler E = Option (DecodeError → E ⊎ ℤ)

-- The bytes of dst up to nDst, nSrc and the error.
pub data Transformed (E : Type 0) : Type 0 where
  returned : Bytes → ℕ → Option (Failure E) → Transformed E
  panicked : Transformed E
  stuck : Transformed E

-- What is decoded, and whether it is invalid.
pub record Codec : Type 0 where
  pub enc : Encoding
  pub max : ℕ
  pub full_rune : Bytes → Bool
  pub decode : Bytes → (ℕ × ℕ) × Bool
  pub rune_len : ℤ → ℤ
  pub encode_rune : ℤ → Bytes

abbrev pub invalid_utf8 : ℕ × ℕ → Bool
invalid_utf8 (r, n) = (n == 0 || n == 1) && r == rune_error

abbrev pub encoder : Codec
encoder = record {
  enc = utf8;
  max = utf_max;
  full_rune = Utf8.full_rune;
  decode = λ p. (Utf8.decode_rune p, invalid_utf8 (Utf8.decode_rune p));
  rune_len = Cesu8.rune_len;
  encode_rune = Cesu8.encode_rune;
}

unfoldable pub decode_cesu8 : Bytes → (ℕ × ℕ) × Bool
decode_cesu8 p =
    if not (is_surrogate p)
    then (Utf8.decode_rune p, invalid_utf8 (Utf8.decode_rune p))
    else (decode_surrogates p, (decode_surrogates p).0 == rune_error)

abbrev pub decoder : Codec
decoder = record {
  enc = cesu8;
  max = cesu_max;
  full_rune = Cesu8.full_rune;
  decode = decode_cesu8;
  rune_len = Utf8.rune_len;
  encode_rune = Utf8.encode_rune;
}

module _ {E : Type 0} (c : Codec) (handler : Handler E) (dst : ℕ) (src : Bytes)
    (at_eof : Bool) where
  -- The position in src.
  abbrev pub pos_of : Bytes → ℕ
  pos_of p = length src - length p

  -- The rune for an invalid one.
  abbrev pub handle : Bytes → ℕ → Bool → Failure E ⊎ ℤ
  handle p r false = inr (pos r)
  handle p r true = elim handler [
    | none ↦ inl (invalid (record { enc = c.enc; p = pos_of p; v = src }))
    | some h ↦ elim (h (record { enc = c.enc; p = pos_of p; v = src })) [
      | inl e ↦ inl (handler_error e)
      | inr r ↦ inr r
    ]
  ]

  -- The rune is written, if there is room, and the loop goes on behind its n bytes.
  abbrev pub put : (Bytes → Bytes → Transformed E) → Bytes → Bytes → ℕ → ℤ → ℤ → Transformed E
  put again out p n r (negsuc k) = panicked
  put again out p n r (pos m) =
      if ltb dst (length out + m)
      then returned out (pos_of p) (some short_dst)
      else again (out ++ c.encode_rune r) (drop n p)

  abbrev pub handled :
      (Bytes → Bytes → Transformed E) → Bytes → Bytes → ℕ → Failure E ⊎ ℤ → Transformed E
  handled again out p n (inl e) = returned out (pos_of p) (some e)
  handled again out p n (inr r) = put again out p n r (c.rune_len r)

  abbrev pub decoded :
      (Bytes → Bytes → Transformed E) → Bytes → Bytes → (ℕ × ℕ) × Bool → Transformed E
  decoded again out p ((r, n), wrong) = handled again out p n (handle p r wrong)

  abbrev pub ascii : (Bytes → Bytes → Transformed E) → Bytes → ℕ → Bytes → Transformed E
  ascii again out b p =
      if leb dst (length out)
      then returned out (pos_of (b ∷ p)) (some short_dst)
      else again (out ++ b ∷ []) p

  unfoldable pub transform_loop : ℕ → Bytes → Bytes → Transformed E
  transform_loop n out [] = returned out (length src) none
  transform_loop zero out (b ∷ p) = stuck
  transform_loop (suc n) out (b ∷ p) =
      if ltb b rune_self
      then ascii (transform_loop n) out b p
      else if not at_eof && ltb (length (b ∷ p)) c.max && not (c.full_rune (b ∷ p))
      then returned out (pos_of (b ∷ p)) (some short_src)
      else decoded (transform_loop n) out (b ∷ p) (c.decode (b ∷ p))

  unfoldable pub transform : Transformed E
  transform = transform_loop (length src) [] src
