-- ===== src/Protocol/Parameter/TextSizes.antt =====
-- encode.go and field.go: each text writes as many bytes as its size says.
use go_hdb.Prelude.{
  ℕ, ◌*◌, ◌/◌, ◌%◌, ◌≤◌, ◌≡◌, refl, some, ok, ◌++◌, arith, length, length-append, Bytes, List, All,
}
use go_hdb.Encoding.Encoder.{Encoder}
use go_hdb.Encoding.VarField.{max_int32, var_size, put_li_bytes, put_var_field_ind}
use go_hdb.Encoding.VarField.Size.{
  put_li_bytes-ok, put_var_field_ind-ok, var_size-ind_bytes, ind_bytes,
}
use go_hdb.Unicode.Utf8
use go_hdb.Unicode.Cesu8
use go_hdb.Unicode.Cesu8.RoundTrip.{IsRune}
use go_hdb.Unicode.Cesu8.Sizes.{size-text}
use go_hdb.Unicode.Cesu8.Transform.Loop.{text}
use go_hdb.Protocol.Convert.Values.{Value, nil, string, bytes}
use go_hdb.Protocol.Parameter.Types.{IsText}
use go_hdb.Protocol.Parameter.Fields
use go_hdb.Protocol.Parameter.Fields.{
  Written, done, failed, panicked, stuck, Runtime, FieldError, decimal_out_of_range, text_of,
  int_field, time_value_field, encode_fixed, var_field_size, cesu8_field_size, hex_field_size,
  cesu8_bytes,
}
use go_hdb.Protocol.Parameter.Sizes.{Matches}
use go_hdb.Protocol.Parameter.TextRounds.{cesu8_bytes-text}
use go_hdb.Protocol.Parameter.FieldSizes.{NotNil}

li_bytes-Matches :
    (p : Bytes) (e : Encoder)
    → length p ≤ max_int32
    → Matches 0 (ok (var_size (length p))) e (Fields.written (put_li_bytes p e))
li_bytes-Matches p e h =
    rw (var_size-ind_bytes (length p) h, put_li_bytes-ok p e h)
      (omega (
        arith,
        length-append e (ind_bytes (length p) ++ p),
        length-append (ind_bytes (length p)) p,
      ))

-- A text has no more than MaxInt32 bytes.
abbrev pub TextFits : Value → Type 0
TextFits (string p) = length p ≤ max_int32
TextFits (bytes p) = length p ≤ max_int32
TextFits _ = Unit

pub var_field-Matches :
    (v : Value) (e : Encoder)
    → NotNil v
    → IsText v
    → TextFits v
    → Matches 0 (var_field_size v) e (Fields.var_field v e)
unfolding Fields.var_field var_field_size
var_field-Matches (string p) e k t h = li_bytes-Matches p e h
var_field-Matches (bytes p) e k t h = li_bytes-Matches p e h
var_field-Matches nil e k t h = absurd k
var_field-Matches _ e k t h = absurd t

mod_two : (n : ℕ) → 2 * n % 2 ≡ 0
mod_two n = omega arith

div_two : (n : ℕ) → 2 * n / 2 ≡ n
div_two n = omega arith

-- A text of hexadecimal digits, whose bytes DecodeString returns: two digits each.
abbrev pub IsHex : Runtime → Bytes → Type 0
IsHex r p =
    (b : Bytes) × (r.decode_hex p ≡ some b) × (length p ≡ 2 * length b) × (length b ≤ max_int32)

abbrev pub HexFits : Runtime → Value → Type 0
HexFits r (string p) = IsHex r p
HexFits r (bytes p) = IsHex r p
HexFits r _ = Unit

hex_size-two : (n : ℕ) → Fields.hex_size (2 * n) ≡ ok (var_size n)
hex_size-two n = rw (mod_two n, div_two n) refl

hex_bytes-Matches :
    (r : Runtime) (p : Bytes) (e : Encoder)
    → IsHex r p
    → Matches 0 (Fields.hex_size (length p)) e (Fields.hex_bytes r e (r.decode_hex p))
hex_bytes-Matches r p e (b, d, two, h) =
    let size_eq : Fields.hex_size (length p) ≡ ok (var_size (length b)) =
      rw two (hex_size-two (length b)) in
    rw (size_eq, d) (li_bytes-Matches b e h)

pub hex_field-Matches :
    (r : Runtime) (v : Value) (e : Encoder)
    → NotNil v
    → IsText v
    → HexFits r v
    → Matches 0 (hex_field_size v) e (Fields.hex_field r v e)
unfolding Fields.hex_field hex_field_size
hex_field-Matches r (string p) e k t h = hex_bytes-Matches r p e h
hex_field-Matches r (bytes p) e k t h = hex_bytes-Matches r p e h
hex_field-Matches r nil e k t h = absurd k
hex_field-Matches r _ e k t h = absurd t

-- A text is the UTF-8 of runes whose CESU-8 has no more than MaxInt32 bytes.
abbrev pub IsUtf8 : Bytes → Type 0
IsUtf8 p =
    (rs : List ℕ) × (p ≡ text Utf8.encode_rune rs)
    × All IsRune rs
    × (length (text Cesu8.encode_rune rs) ≤ max_int32)

abbrev pub Utf8Fits : Value → Type 0
Utf8Fits (string p) = IsUtf8 p
Utf8Fits (bytes p) = IsUtf8 p
Utf8Fits _ = Unit

after-Matches :
    (r : Runtime) (rs : List ℕ) (e : Encoder)
    → All IsRune rs
    → length (text Cesu8.encode_rune rs) ≤ max_int32
    → Matches 0 (ok (var_size (length (text Cesu8.encode_rune rs)))) e (
        Fields.cesu8_after r
          (text Utf8.encode_rune rs)
          (put_var_field_ind (length (text Cesu8.encode_rune rs)) e))
after-Matches r rs e all h =
    let n = length (text Cesu8.encode_rune rs) in
    rw
      (
        var_size-ind_bytes n h,
        put_var_field_ind-ok n e h,
        cesu8_bytes-text r rs (e ++ ind_bytes n) all,
      )
      (omega (
        arith,
        length-append e (ind_bytes n),
        length-append (e ++ ind_bytes n) (text Cesu8.encode_rune rs),
      ))

pub cesu8_field-Matches :
    (r : Runtime) (v : Value) (e : Encoder)
    → NotNil v
    → IsText v
    → Utf8Fits v
    → Matches 0 (cesu8_field_size v) e (Fields.cesu8_field r v e)
unfolding Fields.cesu8_field cesu8_field_size
cesu8_field-Matches r (string p) e k t (rs, is_text, all, h) =
    rw (is_text, (size-text rs all).1) (after-Matches r rs e all h)
cesu8_field-Matches r (bytes p) e k t (rs, is_text, all, h) =
    rw (is_text, (size-text rs all).0) (after-Matches r rs e all h)
cesu8_field-Matches r nil e k t h = absurd k
cesu8_field-Matches r _ e k t h = absurd t
