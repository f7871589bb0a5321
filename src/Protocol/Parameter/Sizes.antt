-- ===== src/Protocol/Parameter/Sizes.antt =====
-- parameter.go: `InputParameters.size` foretells how many bytes `encode` writes.
use go_hdb.Prelude.{
  ℕ, ◌+◌, ◌^◌, ◌≡◌, refl, ap, ◌∙◌, Outcome, ok, panic, [], ◌∷◌, arith, length, length-append, Bytes,
}
use go_hdb.Prelude.Int.{ℤ, pos, negsuc, wrap}
use go_hdb.Prelude.Words.{le_bytes, length-le_bytes}
use go_hdb.Encoding.Encoder
use go_hdb.Encoding.Encoder.{Encoder}
use go_hdb.Encoding.Fields.{Time}
use go_hdb.Encoding.Fields.Encode.{encode_date, encode_time}
use go_hdb.Protocol.Parameter.Fields.{Written, done, failed, panicked, stuck, decimal_out_of_range}

-- n bytes are written, or the decimal is out of range.
abbrev pub Encodes : ℕ → Encoder → Written → Type 0
Encodes n e (done e') = length e' ≡ length e + n
Encodes n e (failed decimal_out_of_range e') = Unit
Encodes n e (failed _ e') = ⊥
Encodes n e panicked = ⊥
Encodes n e stuck = ⊥

-- The size is a number, and so many bytes are written, and k before them.
abbrev pub Matches : ℕ → Outcome ℤ → Encoder → Written → Type 0
Matches k (ok (pos n)) e r = Encodes (k + n) e r
Matches k (ok (negsuc n)) e r = ⊥
Matches k panic e r = ⊥

-- k bytes before n.
pub Encodes-shift :
    (k n : ℕ) (e e' : Encoder) (w : Written)
    → length e' ≡ length e + k
    → Encodes n e' w
    → Encodes (k + n) e w
Encodes-shift k n e e' (done x) h g = omega arith
Encodes-shift k n e e' (failed decimal_out_of_range x) h g = tt
Encodes-shift k n e e' (failed _ x) h g = absurd g
Encodes-shift k n e e' panicked h g = absurd g
Encodes-shift k n e e' stuck h g = absurd g

module _ (e : Encoder) where
  pub length-bytes : (p : Bytes) (n : ℕ) → length p ≡ n → length (Encoder.bytes p e) ≡ length e + n
  unfolding Encoder.bytes
  length-bytes p n h = length-append e p ∙ ap (λ (k : ℕ). length e + k) h

  pub length-byte : (b : ℕ) → length (Encoder.byte b e) ≡ length e + 1
  unfolding Encoder.byte
  length-byte b = length-bytes (b ∷ []) 1 refl

  pub length-int8 : (z : ℤ) → length (Encoder.int8 z e) ≡ length e + 1
  unfolding Encoder.int8
  length-int8 z = length-byte (wrap (2 ^ 8) z)

  pub length-le : (n v : ℕ) → length (Encoder.bytes (le_bytes n v) e) ≡ length e + n
  length-le n v = length-bytes (le_bytes n v) n (length-le_bytes n v)

  pub length-uint16 : (v : ℕ) → length (Encoder.uint16 v e) ≡ length e + 2
  unfolding Encoder.uint16
  length-uint16 v = length-le 2 v

  pub length-int16 : (z : ℤ) → length (Encoder.int16 z e) ≡ length e + 2
  unfolding Encoder.int16
  length-int16 z = length-le 2 (wrap (2 ^ 16) z)

  pub length-int32 : (z : ℤ) → length (Encoder.int32 z e) ≡ length e + 4
  unfolding Encoder.int32
  length-int32 z = length-le 4 (wrap (2 ^ 32) z)

  pub length-uint32 : (v : ℕ) → length (Encoder.uint32 v e) ≡ length e + 4
  unfolding Encoder.uint32
  length-uint32 v = length-le 4 v

  pub length-int64 : (z : ℤ) → length (Encoder.int64 z e) ≡ length e + 8
  unfolding Encoder.int64
  length-int64 z = length-le 8 (wrap (2 ^ 64) z)

  pub length-float64 : (v : ℕ) → length (Encoder.float64 v e) ≡ length e + 8
  unfolding Encoder.float64
  length-float64 v = length-le 8 v

pub length-encode_date : (t : Time) (e : Encoder) → length (encode_date t e) ≡ length e + 4
unfolding encode_date
length-encode_date t e = rw (length-int8, length-int8, length-uint16) (omega arith)

pub length-encode_time : (t : Time) (e : Encoder) → length (encode_time t e) ≡ length e + 4
unfolding encode_time
length-encode_time t e = rw (length-uint16, length-int8, length-byte) (omega arith)
