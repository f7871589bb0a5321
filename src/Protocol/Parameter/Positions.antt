-- ===== src/Protocol/Parameter/Positions.antt =====
-- parameter.go: large objects of a row, whose positions `size` sets and which `encode` writes behind it.
use go_hdb.Prelude.{ℕ, suc, ◌+◌, ◌≡◌, refl, ap, ap₂, ◌∙◌, List, [], ◌∷◌, arith, length}
use go_hdb.Prelude.Int.{ℤ, pos, ◌+ℤ◌, +ℤ-pos}
use go_hdb.Encoding.Encoder
use go_hdb.Encoding.Encoder.{Encoder}
use go_hdb.Protocol.Lob.{LobInDescr}
use go_hdb.Protocol.TypeCode.{TypeCode}
use go_hdb.Protocol.Convert.Values.{Value, lob}
use go_hdb.Protocol.Parameter.Metadata.{ParameterField}
use go_hdb.Protocol.Parameter.Types.{HasType}
use go_hdb.Protocol.Parameter.Fields.{Runtime, var_field_size, cesu8_field_size, hex_field_size}
use go_hdb.Protocol.Parameter.Encode.{prm_size, type_size}
use go_hdb.Protocol.Parameter.Sizes.{length-bytes}
use go_hdb.Protocol.Parameter.PrmSizes.{FitsCode}
use go_hdb.Protocol.Parameter.Input.{set_positions, write_lobs}
use go_hdb.Protocol.Parameter.ColumnSizes.{FitsRow, bytes_of, columns_bytes, lobs_bytes}

-- Positions of large objects neither change what fits nor what is written.
HasType-lob : (tc : TypeCode) (d d' : LobInDescr) → HasType tc (lob d) → HasType tc (lob d')
HasType-lob TypeCode.blob d d' h = h
HasType-lob _ d d' h = h

FitsCode-lob :
    (r : Runtime) (tc : TypeCode) (prec scale : ℤ) (d d' : LobInDescr)
    → FitsCode r tc prec scale (lob d)
    → FitsCode r tc prec scale (lob d')
FitsCode-lob r TypeCode.blob prec scale d d' h = h
FitsCode-lob r _ prec scale d d' h = h

type_size-lob : (tc : TypeCode) (d d' : LobInDescr) → type_size tc (lob d) ≡ type_size tc (lob d')
unfolding type_size var_field_size cesu8_field_size hex_field_size
type_size-lob TypeCode.blob d d' = refl
type_size-lob _ d d' = refl

pub set_positions-size :
    (vs : List Value) (s : ℕ) → (set_positions vs (pos s)).0 ≡ pos (s + lobs_bytes vs)
unfolding set_positions lobs_bytes
set_positions-size [] s = ap pos (omega arith)
set_positions-size (lob d ∷ vs) s =
    rw (+ℤ-pos s (length d.buf)) (set_positions-size vs (s + length d.buf) ∙ ap pos (omega arith))
set_positions-size (v ∷ vs) s = set_positions-size vs s

pub length-set_positions : (vs : List Value) (s : ℤ) → length (set_positions vs s).1 ≡ length vs
unfolding set_positions
length-set_positions [] s = refl
length-set_positions (lob d ∷ vs) s = ap suc (length-set_positions vs (s +ℤ pos (length d.buf)))
length-set_positions (v ∷ vs) s = ap suc (length-set_positions vs s)

pub lobs_bytes-set_positions :
    (vs : List Value) (s : ℤ) → lobs_bytes (set_positions vs s).1 ≡ lobs_bytes vs
unfolding set_positions lobs_bytes
lobs_bytes-set_positions [] s = refl
lobs_bytes-set_positions (lob d ∷ vs) s =
    ap (λ (k : ℕ). length d.buf + k) (lobs_bytes-set_positions vs (s +ℤ pos (length d.buf)))
lobs_bytes-set_positions (v ∷ vs) s = lobs_bytes-set_positions vs s

prm_size-lob : (f : ParameterField) (d d' : LobInDescr) → prm_size f (lob d) ≡ prm_size f (lob d')
unfolding prm_size
prm_size-lob f d d' = type_size-lob f.tc d d'

pub columns_bytes-set_positions :
    (fs : List ParameterField) (vs : List Value) (s : ℤ)
    → columns_bytes fs (set_positions vs s).1 ≡ columns_bytes fs vs
unfolding set_positions columns_bytes
columns_bytes-set_positions [] vs s = refl
columns_bytes-set_positions (f ∷ fs) [] s = refl
columns_bytes-set_positions (f ∷ fs) (lob d ∷ vs) s =
    ap₂ ◌+◌ (ap bytes_of (prm_size-lob f _ d))
      (columns_bytes-set_positions fs vs (s +ℤ pos (length d.buf)))
columns_bytes-set_positions (f ∷ fs) (v ∷ vs) s =
    ap (λ (k : ℕ). bytes_of (prm_size f v) + k) (columns_bytes-set_positions fs vs s)

pub FitsRow-set_positions :
    (r : Runtime) (fs : List ParameterField) (vs : List Value) (s : ℤ)
    → FitsRow r fs vs
    → FitsRow r fs (set_positions vs s).1
unfolding set_positions
FitsRow-set_positions r [] [] s h = tt
FitsRow-set_positions r [] (v ∷ vs) s h = absurd h
FitsRow-set_positions r (f ∷ fs) [] s h = absurd h
FitsRow-set_positions r (f ∷ fs) (lob d ∷ vs) s ((t, h), hs) = (
  (HasType-lob f.tc d _ t, FitsCode-lob r f.tc f.prec f.scale d _ h),
  FitsRow-set_positions r fs vs (s +ℤ pos (length d.buf)) hs,
)
FitsRow-set_positions r (f ∷ fs) (v ∷ vs) s (h, hs) = (h, FitsRow-set_positions r fs vs s hs)

pub length-write_lobs :
    (vs : List Value) (e : Encoder) → length (write_lobs vs e) ≡ length e + lobs_bytes vs
unfolding write_lobs lobs_bytes
length-write_lobs [] e = omega arith
length-write_lobs (lob d ∷ vs) e =
    length-write_lobs vs (Encoder.bytes d.buf e)
    ∙ omega (arith, length-bytes e d.buf (length d.buf) refl)
length-write_lobs (v ∷ vs) e = length-write_lobs vs e

pub FitsRow-length :
    (r : Runtime) (fs : List ParameterField) (vs : List Value)
    → FitsRow r fs vs
    → length vs ≡ length fs
FitsRow-length r [] [] h = refl
FitsRow-length r [] (v ∷ vs) h = absurd h
FitsRow-length r (f ∷ fs) [] h = absurd h
FitsRow-length r (f ∷ fs) (v ∷ vs) (h, hs) = ap suc (FitsRow-length r fs vs hs)
