-- ===== src/Unicode/Utf8.antt =====
-- The package unicode/utf8 of Go's standard library, as documented, and unicode.IsSpace. A rune that is
-- decoded is a natural number; a rune that is encoded may be any number.
use go_hdb.Prelude.{
  ℕ, ◌+◌, ◌-◌, ◌*◌, ◌/◌, ◌%◌, Bool, true, false, not, ◌&&◌, ◌||◌, [], ◌∷◌, leb, ltb, ◌==◌,
  if◌then◌else◌, Bytes,
}
use go_hdb.Prelude.Int.{ℤ, pos, negsuc}

abbrev pub rune_error : ℕ
rune_error = 65533

abbrev pub rune_self : ℕ
rune_self = 128

abbrev pub max_rune : ℕ
max_rune = 1114111

abbrev pub utf_max : ℕ
utf_max = 4

-- The bytes that continue a sequence.
abbrev pub is_cont : ℕ → Bool
is_cont b = leb 128 b && leb b 191

-- The second bytes that may follow the first: no overlong form, no surrogate, nothing above `max_rune`.
abbrev pub is_second : ℕ → ℕ → Bool
is_second b0 b1 =
    leb (if b0 == 224 then 160 else if b0 == 240 then 144 else 128) b1
    && leb b1 (if b0 == 237 then 159 else if b0 == 244 then 143 else 191)

abbrev pub is_surrogate_rune : ℕ → Bool
is_surrogate_rune r = leb 55296 r && leb r 57343

unfoldable pub decode_two : ℕ → Bytes → ℕ × ℕ
decode_two b0 [] = (rune_error, 1)
decode_two b0 (b1 ∷ p) = if is_cont b1 then ((b0 - 192) * 64 + (b1 - 128), 2) else (rune_error, 1)

unfoldable pub decode_three : ℕ → Bytes → ℕ × ℕ
decode_three b0 [] = (rune_error, 1)
decode_three b0 (b1 ∷ []) = (rune_error, 1)
decode_three b0 (b1 ∷ b2 ∷ p) =
    if is_second b0 b1 && is_cont b2
    then ((b0 - 224) * 4096 + (b1 - 128) * 64 + (b2 - 128), 3)
    else (rune_error, 1)

unfoldable pub decode_four : ℕ → Bytes → ℕ × ℕ
decode_four b0 [] = (rune_error, 1)
decode_four b0 (b1 ∷ []) = (rune_error, 1)
decode_four b0 (b1 ∷ b2 ∷ []) = (rune_error, 1)
decode_four b0 (b1 ∷ b2 ∷ b3 ∷ p) =
    if is_second b0 b1 && is_cont b2 && is_cont b3
    then ((b0 - 240) * 262144 + (b1 - 128) * 4096 + (b2 - 128) * 64 + (b3 - 128), 4)
    else (rune_error, 1)

-- The rune at the head of the bytes and its width; `(rune_error, 1)` where they are not valid.
unfoldable pub decode_rune : Bytes → ℕ × ℕ
decode_rune [] = (rune_error, 0)
decode_rune (b0 ∷ p) =
    if ltb b0 rune_self
    then (b0, 1)
    else if ltb b0 194
    then (rune_error, 1)
    else if ltb b0 224
    then decode_two b0 p
    else if ltb b0 240
    then decode_three b0 p
    else if ltb b0 245
    then decode_four b0 p
    else (rune_error, 1)

unfoldable pub encode_valid : ℕ → Bytes
encode_valid r =
    if ltb r rune_self
    then r ∷ []
    else if ltb r 2048
    then (192 + r / 64) ∷ (128 + r % 64) ∷ []
    else if ltb r 65536
    then (224 + r / 4096) ∷ (128 + r / 64 % 64) ∷ (128 + r % 64) ∷ []
    else (240 + r / 262144) ∷ (128 + r / 4096 % 64) ∷ (128 + r / 64 % 64) ∷ (128 + r % 64) ∷ []

abbrev pub is_valid : ℕ → Bool
is_valid r = leb r max_rune && not (is_surrogate_rune r)

-- What is no rune is written as `rune_error`.
unfoldable pub encode_rune : ℤ → Bytes
encode_rune (negsuc n) = encode_valid rune_error
encode_rune (pos r) = if is_valid r then encode_valid r else encode_valid rune_error

unfoldable pub rune_len : ℤ → ℤ
rune_len (negsuc n) = negsuc 0
rune_len (pos r) =
    if ltb r rune_self
    then pos 1
    else if ltb r 2048
    then pos 2
    else if is_surrogate_rune r
    then negsuc 0
    else if ltb r 65536
    then pos 3
    else if leb r max_rune
    then pos 4
    else negsuc 0

-- Bytes that no further byte can make valid count as full.
unfoldable pub full_rune : Bytes → Bool
full_rune [] = false
full_rune (b0 ∷ []) = ltb b0 194 || leb 245 b0
full_rune (b0 ∷ b1 ∷ []) =
    if ltb b0 194 || leb 245 b0
    then true
    else if ltb b0 224
    then true
    else if is_second b0 b1
    then false
    else true
full_rune (b0 ∷ b1 ∷ b2 ∷ []) =
    if ltb b0 194 || leb 245 b0
    then true
    else if ltb b0 240
    then true
    else if is_second b0 b1
    then if is_cont b2 then false else true
    else true
full_rune (b0 ∷ b1 ∷ b2 ∷ b3 ∷ p) = true

unfoldable pub is_space : ℕ → Bool
is_space r =
    (leb 9 r && leb r 13)
    || (r == 32)
    || (r == 133)
    || (r == 160)
    || (r == 5760)
    || (leb 8192 r && leb r 8202)
    || (r == 8232)
    || (r == 8233)
    || (r == 8239)
    || (r == 8287)
    || (r == 12288)
