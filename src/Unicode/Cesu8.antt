-- ===== src/Unicode/Cesu8.antt =====
-- driver/unicode/cesu8/cesu8.go: runes above 2^16 are written as two surrogates of three bytes each. The
-- alternatives of the source's bitwise expressions share no bit: they are sums here.
pub mod RoundTrip
pub mod Transform
pub mod Sizes
use go_hdb.Prelude.{
  ℕ, zero, suc, ◌+◌, ◌-◌, ◌*◌, ◌/◌, ◌%◌, ◌^◌, Bool, true, false, ◌&&◌, ◌||◌, not, Option, none,
  some, List, [], ◌∷◌, ◌++◌, leb, ltb, ◌==◌, if◌then◌else◌, length, drop, Bytes,
}
use go_hdb.Prelude.Int.{ℤ, pos, negsuc, ◌+ℤ◌}
use go_hdb.Unicode.Utf8
use go_hdb.Unicode.Utf8.{rune_error, max_rune}

abbrev pub cesu_max : ℕ
cesu_max = 6

abbrev rune1_max : ℕ
rune1_max = 2 ^ 7 - 1

abbrev rune2_max : ℕ
rune2_max = 2 ^ 11 - 1

abbrev pub rune3_max : ℕ
rune3_max = 2 ^ 16 - 1

-- utf16.EncodeRune of a rune from 2^16 on, and utf16.DecodeRune.
abbrev pub utf16_encode : ℕ → ℕ × ℕ
utf16_encode r =
    let s = r - 65536 in
    if leb r max_rune then (55296 + s / 1024 % 1024, 56320 + s % 1024) else (rune_error, rune_error)

abbrev pub utf16_decode : ℕ → ℕ → ℕ
utf16_decode high low =
    if leb 55296 high && ltb high 56320 && leb 56320 low && ltb low 57344
    then (high - 55296) * 1024 + (low - 56320) + 65536
    else rune_error

abbrev surrogate_bytes : ℕ → Bytes
surrogate_bytes s = (224 + s / 4096 % 256) ∷ (128 + s / 64 % 256 % 64) ∷ (128 + s % 256 % 64) ∷ []

abbrev surrogates : ℕ × ℕ → Bytes
surrogates (high, low) = surrogate_bytes high ++ surrogate_bytes low

-- What `EncodeRune` writes; their number is what it returns.
unfoldable pub encode_rune : ℤ → Bytes
encode_rune (negsuc n) = Utf8.encode_rune (negsuc n)
encode_rune (pos r) =
    if leb r rune3_max then Utf8.encode_rune (pos r) else surrogates (utf16_encode r)

unfoldable pub rune_len : ℤ → ℤ
rune_len (negsuc n) = negsuc 0
rune_len (pos r) =
    if leb r rune1_max
    then pos 1
    else if leb r rune2_max
    then pos 2
    else if leb r rune3_max
    then pos 3
    else if leb r max_rune
    then pos cesu_max
    else negsuc 0

abbrev sp0 : ℕ
sp0 = 237

abbrev is_sb1 : ℕ → Bool
is_sb1 b1 = leb 160 b1 && leb b1 191

unfoldable pub is_surrogate : Bytes → Bool
is_surrogate [] = false
is_surrogate (b0 ∷ []) = false
is_surrogate (b0 ∷ b1 ∷ []) = false
is_surrogate (b0 ∷ b1 ∷ b2 ∷ p) = b0 == sp0 && is_sb1 b1

abbrev pub surrogate_value : ℕ → ℕ → ℕ → ℕ
surrogate_value b0 b1 b2 = b0 % 16 * 4096 + b1 % 64 * 64 + b2 % 64

-- `decodeSurrogate`: none where its second result is false.
unfoldable pub decode_surrogate : Bytes → Option ℕ
decode_surrogate [] = none
decode_surrogate (b0 ∷ []) = none
decode_surrogate (b0 ∷ b1 ∷ []) = none
decode_surrogate (b0 ∷ b1 ∷ b2 ∷ p) =
    if not (b0 == sp0)
    then none
    else if not (is_sb1 b1)
    then none
    else some (surrogate_value b0 b1 b2)

-- Only called where `is_surrogate` holds: there are three bytes.
abbrev pub decode_checked_surrogate : Bytes → ℕ
decode_checked_surrogate (b0 ∷ b1 ∷ b2 ∷ p) = surrogate_value b0 b1 b2
decode_checked_surrogate p = 0

abbrev pub with_low : ℕ → Option ℕ → ℕ × ℕ
with_low high none = (rune_error, 3)
with_low high (some low) = (utf16_decode high low, cesu_max)

unfoldable pub decode_surrogates : Bytes → ℕ × ℕ
decode_surrogates p = with_low (decode_checked_surrogate p) (decode_surrogate (drop 3 p))

unfoldable pub decode_rune : Bytes → ℕ × ℕ
decode_rune p = if not (is_surrogate p) then Utf8.decode_rune p else decode_surrogates p

unfoldable pub full_rune : Bytes → Bool
full_rune p = if is_surrogate p then is_surrogate (drop 3 p) else Utf8.full_rune p

-- `Size`: the loop has the number of bytes as fuel, as a rune has at least one byte.
unfoldable pub size_loop : ℕ → Bytes → ℤ
size_loop zero p = pos 0
size_loop (suc n) [] = pos 0
size_loop (suc n) (b ∷ p) =
    let (r, size) = decode_rune (b ∷ p) in rune_len (pos r) +ℤ size_loop n (drop size (b ∷ p))

abbrev pub size : Bytes → ℤ
size p = size_loop (length p) p

-- The runes of a range over a string, with its number of bytes as fuel.
unfoldable pub range_loop : ℕ → Bytes → List ℤ
range_loop zero p = []
range_loop (suc n) [] = []
range_loop (suc n) (b ∷ p) =
    let (r, size) = Utf8.decode_rune (b ∷ p) in pos r ∷ range_loop n (drop size (b ∷ p))

-- `StringSize`, over the runes of the string.
unfoldable pub string_size : List ℤ → ℤ
string_size [] = pos 0
string_size (r ∷ rs) = rune_len r +ℤ string_size rs

abbrev pub size_of_string : Bytes → ℤ
size_of_string s = string_size (range_loop (length s) s)
