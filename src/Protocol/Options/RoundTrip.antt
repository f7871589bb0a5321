-- ===== src/Protocol/Options/RoundTrip.antt =====
-- optionsparts.go: what is read of the options that were written.
use go_hdb.Prelude.{
  ℕ, ◌+◌, ◌-◌, ◌*◌, ◌^◌, ◌<◌, ◌≤◌, ◌≡◌, refl, ap, ◌∙◌, false, none, [], ◌∷◌, ◌++◌, arith, length,
  length-append, Bytes, All, ok, panic,
}
use go_hdb.Prelude.Int.{
  ℤ, pos, negsuc, wrap, convert, convert-pos, wrap-pos, signed, mod_small, eq_ℤ, IsInt8,
}
use go_hdb.Encoding.Encoder
use go_hdb.Encoding.Decoder.{Decoder}
use go_hdb.Encoding.Decoder.Ready.{ready, byte-ready, int8-ready, int16-ready}
use go_hdb.Protocol.Options.{
  OptValue, string, Options, OptType, type_code, opt_type_via_type, opt_type_via_type_code,
  size_value, set, sum_values, size, num_arg,
}
use go_hdb.Protocol.Options.Encode.{encode_value, encode_options}
use go_hdb.Protocol.Options.Decode.{
  decode_bytes, decode_value, decode_option, decode_loop, decode_options,
}
use mathlib.Core.List.{append_assoc, append-nil}
use go_hdb.Protocol.Options.Values.{
  InRange, text_bytes, value_bytes, encode_value-append, length-value_bytes, decode_value-ready,
}

options_bytes : Options → Bytes → Bytes
options_bytes [] rest = rest
options_bytes ((k, v) ∷ ops) rest =
    wrap (2 ^ 8) k ∷ type_code (opt_type_via_type v) ∷ value_bytes v (options_bytes ops rest)

type_code-lt : (t : OptType) → type_code t < 2 ^ 7
unfolding type_code
type_code-lt OptType.boolean_type = omega arith
type_code-lt t = omega arith

type_code-convert : (t : OptType) → wrap (2 ^ 8) (convert (2 ^ 7) (pos (type_code t))) ≡ type_code t
type_code-convert t =
    rw (convert-pos (2 ^ 7) (type_code t) (type_code-lt t))
      (wrap-pos (2 ^ 8) (type_code t) (omega (arith, type_code-lt t)))

encode_options-append :
    (ops : Options) (e rest : Bytes) → encode_options ops e ++ rest ≡ e ++ options_bytes ops rest
unfolding encode_options options_bytes Encoder.int8 Encoder.byte Encoder.bytes
encode_options-append [] e rest = refl
encode_options-append ((k, v) ∷ ops) e rest =
    encode_options-append ops _ rest
    ∙ encode_value-append v _ (options_bytes ops rest)
    ∙ rw (type_code-convert (opt_type_via_type v)) (simp append_assoc)

length-options_bytes :
    (ops : Options) (rest : Bytes) → length (options_bytes ops rest) ≡ size ops + length rest
unfolding size options_bytes sum_values
length-options_bytes [] rest = omega arith
length-options_bytes ((k, v) ∷ ops) rest =
    omega (arith, length-value_bytes v (options_bytes ops rest), length-options_bytes ops rest)

-- The options part writes as many bytes as its size says.
pub length-encode_options :
    (ops : Options) (e : Bytes) → length (encode_options ops e) ≡ length e + size ops
length-encode_options ops e = omega (
  arith,
  length-append {0} (encode_options ops e) [],
  ap length (encode_options-append ops e []),
  length-append {0} e (options_bytes ops []),
  length-options_bytes ops [],
)

-- No option has the key.
abbrev Fresh : ℤ → Options → Type 0
Fresh k ops = All (λ (o : ℤ × OptValue). eq_ℤ o.0 k ≡ false) ops

-- Each key once, and none of those before.
abbrev pub Distinct : Options → Options → Type 0
Distinct before [] = Unit {0}
Distinct before ((k, v) ∷ ops) = Fresh k before × Distinct (before ++ (k, v) ∷ []) ops

abbrev pub AllInRange : Options → Type 0
AllInRange ops = All (λ (o : ℤ × OptValue). IsInt8 o.0 × InRange o.1) ops

set-Fresh : (k : ℤ) (v : OptValue) (ops : Options) → Fresh k ops → set k v ops ≡ ops ++ (k, v) ∷ []
unfolding set
set-Fresh k v [] h = refl
set-Fresh k v ((k', v') ∷ ops) (h, hs) = rw (h, set-Fresh k v ops hs) refl

via_type_code : (t : OptType) → opt_type_via_type_code (type_code t) ≡ ok t
unfolding opt_type_via_type_code type_code
via_type_code OptType.boolean_type = refl
via_type_code t = refl

decode_option-ready :
    (d : Decoder) (k : ℤ) (v : OptValue) (rest : Bytes) (cnt : ℕ)
    → IsInt8 k
    → InRange v
    → decode_option
        (ready d (wrap (2 ^ 8) k ∷ type_code (opt_type_via_type v) ∷ value_bytes v rest) cnt)
      ≡ (ok (k, v), ready d rest (cnt + (2 + size_value v)))
unfolding decode_option
decode_option-ready d k v rest cnt hk hv =
    rw
      (
        int8-ready d (type_code (opt_type_via_type v) ∷ value_bytes v rest) cnt k hk,
        byte-ready d (value_bytes v rest) (cnt + 1) (type_code (opt_type_via_type v)),
        via_type_code (opt_type_via_type v),
        decode_value-ready d v rest (cnt + 1 + 1) hv,
      )
      (ap (λ (n : ℕ). (ok (k, v), ready d rest n)) {x = cnt + 1 + 1 + size_value v}
        {y = cnt + (2 + size_value v)} (omega arith))

decode_loop-ready :
    (d : Decoder) (ops before : Options) (rest : Bytes) (cnt : ℕ)
    → AllInRange ops
    → Distinct before ops
    → decode_loop (length ops) before (ready d (options_bytes ops rest) cnt)
      ≡ (ok (before ++ ops), ready d rest (cnt + size ops))
unfolding decode_loop options_bytes size sum_values
decode_loop-ready d [] before rest cnt h hd =
    rw (append-nil before)
      (ap (λ (n : ℕ). (ok before, ready d rest n)) {x = cnt} {y = cnt + 0} (omega arith))
decode_loop-ready d ((k, v) ∷ ops) before rest cnt ((hk, hv), hs) (fresh, hd) =
    rw
      (
        decode_option-ready d k v (options_bytes ops rest) cnt hk hv,
        set-Fresh k v before fresh,
        decode_loop-ready d ops (before ++ (k, v) ∷ []) rest (cnt + (2 + size_value v)) hs hd,
        append_assoc before ((k, v) ∷ []) ops,
      )
      (ap (λ (n : ℕ). (ok (before ++ (k, v) ∷ ops), ready d rest n))
        {x = cnt + (2 + size_value v) + (2 * length ops + sum_values ops)}
        {y = cnt + (2 * length ((k, v) ∷ ops) + (size_value v + sum_values ops))} (omega arith))

-- Options are read as they were written: each key once, every value in the range of its type, and a text
-- of less than 2^15 bytes.
pub decode_options-encode :
    (d : Decoder) (ops : Options) (rest : Bytes) (cnt : ℕ)
    → AllInRange ops
    → Distinct [] ops
    → decode_options (pos (num_arg ops)) (ready d (encode_options ops [] ++ rest) cnt)
      ≡ (ok (ops, none), ready d rest (cnt + size ops))
unfolding decode_options ready
decode_options-encode d ops rest cnt h hd =
    rw (encode_options-append ops [] rest, decode_loop-ready d ops [] rest cnt h hd) refl

convert-overlong :
    (n : ℕ) → 2 ^ 15 ≤ n → n < 2 ^ 16 → convert (2 ^ 15) (pos n) ≡ negsuc (2 ^ 16 - 1 - n)
unfolding signed wrap
convert-overlong n h k = ground (arith, mod_small n (2 ^ 16))

-- A text that is too long for the int16 of its length: what is written of it makes the decoder panic.
pub decode_value-overlong :
    (d : Decoder) (text rest : Bytes) (cnt : ℕ)
    → 2 ^ 15 ≤ length text
    → length text < 2 ^ 16
    → (decode_value
        (opt_type_via_type (string text))
        (ready d (encode_value (string text) [] ++ rest) cnt)).0
      ≡ panic
unfolding decode_value opt_type_via_type value_bytes text_bytes decode_bytes
decode_value-overlong d text rest cnt h k =
    rw
      (
        encode_value-append (string text) [] rest,
        convert-overlong (length text) h k,
        int16-ready d (text ++ rest) cnt (negsuc (2 ^ 16 - 1 - length text)) (omega arith),
      )
      refl
