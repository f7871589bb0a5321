-- ===== src/Protocol/Parameter/ColumnSizes.antt =====
-- parameter.go: the columns of a row, in `size` and in `encode`.
use go_hdb.Prelude.{
  ℕ, zero, suc, ◌+◌, ◌≡◌, refl, sym, ap, ◌∙◌, Outcome, ok, panic, List, [], ◌∷◌, arith, length,
  take, drop,
}
use mathlib.Core.Path.{subst}
use go_hdb.Prelude.Int.{ℤ, pos, negsuc, pos_part, ◌+ℤ◌, +ℤ-pos}
use go_hdb.Encoding.Encoder.{Encoder}
use go_hdb.Protocol.Convert.Values.{Value, lob}
use go_hdb.Protocol.Parameter.Metadata.{ParameterField}
use go_hdb.Protocol.Parameter.Fields.{
  Written, done, failed, panicked, stuck, Runtime, decimal_out_of_range,
}
use go_hdb.Protocol.Parameter.Encode.{prm_size, encode_prm}
use go_hdb.Protocol.Parameter.Sizes.{Encodes, Encodes-shift, Matches}
use go_hdb.Protocol.Parameter.PrmSizes.{Fits, encode_prm-Matches}
use go_hdb.Protocol.Parameter.Input.{size_columns, then_write, encode_columns, and_then}

-- A row with a value that fits for each field.
abbrev pub FitsRow : Runtime → List ParameterField → List Value → Type 0
FitsRow r [] [] = Unit
FitsRow r [] (v ∷ vs) = ⊥
FitsRow r (f ∷ fs) [] = ⊥
FitsRow r (f ∷ fs) (v ∷ vs) = Fits r f v × FitsRow r fs vs

-- Rows of the flat list of values.
abbrev pub FitsRows : Runtime → ℕ → List ParameterField → List Value → Type 0
FitsRows r zero fs vs = Unit
FitsRows r (suc rows) fs vs =
    FitsRow r fs (take (length fs) vs) × FitsRows r rows fs (drop (length fs) vs)

abbrev pub bytes_of : Outcome ℤ → ℕ
bytes_of (ok z) = pos_part z
bytes_of panic = 0

unfoldable pub columns_bytes : List ParameterField → List Value → ℕ
columns_bytes (f ∷ fs) (v ∷ vs) = bytes_of (prm_size f v) + columns_bytes fs vs
columns_bytes fs vs = 0

unfoldable pub lobs_bytes : List Value → ℕ
lobs_bytes [] = 0
lobs_bytes (lob d ∷ vs) = length d.buf + lobs_bytes vs
lobs_bytes (v ∷ vs) = lobs_bytes vs

Matches-size :
    (k : ℕ) (c : Outcome ℤ) (e : Encoder) (w : Written)
    → Matches k c e w
    → c ≡ ok (pos (bytes_of c))
Matches-size k (ok (pos n)) e w h = refl
Matches-size k (ok (negsuc n)) e w h = absurd h
Matches-size k panic e w h = absurd h

Matches-Encodes :
    (k : ℕ) (c : Outcome ℤ) (e : Encoder) (w : Written)
    → Matches k c e w
    → Encodes (k + bytes_of c) e w
Matches-Encodes k (ok (pos n)) e w h = h
Matches-Encodes k (ok (negsuc n)) e w h = absurd h
Matches-Encodes k panic e w h = absurd h

pub Encodes-then :
    (a b : ℕ) (e : Encoder) (w : Written) (f : Encoder → Written)
    → Encodes a e w
    → ((e' : Encoder) → Encodes b e' (f e'))
    → Encodes (a + b) e (then_write w f)
Encodes-then a b e (done e') f h g = Encodes-shift a b e e' (f e') h (g e')
Encodes-then a b e (failed decimal_out_of_range x) f h g = tt
Encodes-then a b e (failed _ x) f h g = absurd h
Encodes-then a b e panicked f h g = absurd h
Encodes-then a b e stuck f h g = absurd h

module _ (r : Runtime) where
  pub size_columns-fits :
      (fs : List ParameterField) (vs : List Value) (s : ℕ)
      → FitsRow r fs vs
      → size_columns fs vs (pos s) ≡ ok (pos (s + columns_bytes fs vs))
  unfolding size_columns columns_bytes
  size_columns-fits [] [] s h = ap (λ (k : ℕ). ok (pos k)) (omega arith)
  size_columns-fits [] (v ∷ vs) s h = absurd h
  size_columns-fits (f ∷ fs) [] s h = absurd h
  size_columns-fits (f ∷ fs) (v ∷ vs) s (h, hs) =
      let e : prm_size f v ≡ ok (pos (bytes_of (prm_size f v))) =
        Matches-size 1 (prm_size f v) [] (encode_prm r f v []) (encode_prm-Matches r f v [] h) in
      subst
        (λ (c : Outcome ℤ).
          and_then c (λ n. size_columns fs vs (pos s +ℤ n))
          ≡ ok (pos (s + (bytes_of (prm_size f v) + columns_bytes fs vs))))
        (sym e)
        (rw (+ℤ-pos s (bytes_of (prm_size f v))) (
          size_columns-fits fs vs (s + bytes_of (prm_size f v)) hs
          ∙ ap (λ (k : ℕ). ok (pos k)) (omega arith)))

  pub encode_columns-Encodes :
      (fs : List ParameterField) (vs : List Value) (e : Encoder)
      → FitsRow r fs vs
      → Encodes (length fs + columns_bytes fs vs) e (encode_columns r fs vs e)
  unfolding encode_columns columns_bytes
  encode_columns-Encodes [] [] e h = omega arith
  encode_columns-Encodes [] (v ∷ vs) e h = absurd h
  encode_columns-Encodes (f ∷ fs) [] e h = absurd h
  encode_columns-Encodes (f ∷ fs) (v ∷ vs) e (h, hs) =
      subst (λ (k : ℕ). Encodes k e (encode_columns r (f ∷ fs) (v ∷ vs) e)) (omega arith)
        (Encodes-then (1 + bytes_of (prm_size f v)) (length fs + columns_bytes fs vs) e
          (encode_prm r f v e) (λ e. encode_columns r fs vs e)
          (Matches-Encodes 1 (prm_size f v) e (encode_prm r f v e) (encode_prm-Matches r f v e h))
          λ e'. encode_columns-Encodes fs vs e' hs)
