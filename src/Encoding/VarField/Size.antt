-- ===== src/Encoding/VarField/Size.antt =====
-- What `LIBytes` of the encoder writes: its size and its errors.
use go_hdb.Prelude.{
  ℕ, ◌+◌, ◌-◌, ◌*◌, ◌^◌, ◌≤◌, ◌<◌, ◌≡◌, refl, true, none, some, [], ◌∷◌, ◌++◌, arith, leb,
  if◌then◌else◌, length, Bytes, length-append, ap, ◌∙◌, inl, inr, Bool-cases,
}
use go_hdb.Prelude.Int.{pos, convert, wrap, wrap-convert, mod_small}
use go_hdb.Prelude.Words.{le_bytes, length-le_bytes}
use go_hdb.Encoding.Encoder
use mathlib.Core.List.{append_assoc}
use go_hdb.Encoding.VarField.{
  max_length_exceeded, var_size, put_var_field_ind, put_li_bytes, max_int16, max_int32,
  bytes_len_ind_small, bytes_len_ind_medium, bytes_len_ind_big,
}

leb_of_le : (a b : ℕ) → a ≤ b → leb a b ≡ true
leb_of_le a b h = ground arith

-- The indicator of a size.
unfoldable pub ind_bytes : ℕ → Bytes
ind_bytes size =
    if leb size bytes_len_ind_small
    then size ∷ []
    else if leb size max_int16
    then bytes_len_ind_medium ∷ le_bytes 2 size
    else bytes_len_ind_big ∷ le_bytes 4 size

wrap-convert_small :
    (half size : ℕ) → 0 < half → size < 2 * half → wrap (2 * half) (convert half (pos size)) ≡ size
wrap-convert_small half size h k =
    wrap-convert half (pos size) h ∙ unfold wrap in mod_small size (2 * half) k

pub ind_small : (size : ℕ) → size ≤ bytes_len_ind_small → ind_bytes size ≡ size ∷ []
unfolding ind_bytes
ind_small size h = ground arith

pub ind_medium :
    (size : ℕ)
    → bytes_len_ind_small < size
    → size ≤ max_int16
    → ind_bytes size ≡ bytes_len_ind_medium ∷ le_bytes 2 size
unfolding ind_bytes
ind_medium size h k = ground arith

pub ind_big : (size : ℕ) → max_int16 < size → ind_bytes size ≡ bytes_len_ind_big ∷ le_bytes 4 size
unfolding ind_bytes
ind_big size h = ground arith

-- Up to MaxInt32 the indicator is written.
pub put_var_field_ind-ok :
    (size : ℕ) (e : Bytes)
    → size ≤ max_int32
    → put_var_field_ind size e ≡ (none, e ++ ind_bytes size)
unfolding put_var_field_ind ind_bytes Encoder.byte Encoder.int16 Encoder.int32
put_var_field_ind-ok size e h = elim (Bool-cases (leb size bytes_len_ind_small)) [
  | inl a ↦ rw a
  | inr a ↦ elim (Bool-cases (leb size max_int16)) [
    | inl b ↦
        rw (a, b)
          (rw (wrap-convert_small (2 ^ 15) size (omega arith) (ground arith))
            (rw (append_assoc e (bytes_len_ind_medium ∷ []) (le_bytes 2 size))))
    | inr b ↦
        rw (a, b)
          (rw (leb_of_le size max_int32 h) (
            rw (wrap-convert_small (2 ^ 31) size (omega arith) (ground arith))
              (rw (append_assoc e (bytes_len_ind_big ∷ []) (le_bytes 4 size)))))
  ]
]

pub put_li_bytes-ok :
    (p e : Bytes)
    → length p ≤ max_int32
    → put_li_bytes p e ≡ (none, e ++ (ind_bytes (length p) ++ p))
unfolding put_li_bytes Encoder.bytes
put_li_bytes-ok p e h =
    rw (put_var_field_ind-ok (length p) e h) (rw (append_assoc e (ind_bytes (length p)) p))

-- Beyond MaxInt32 an error is returned and nothing is written.
pub put_li_bytes_too_long :
    (p e : Bytes)
    → max_int32 < length p
    → put_li_bytes p e ≡ (some (max_length_exceeded (length p)), e)
unfolding put_li_bytes put_var_field_ind
put_li_bytes_too_long p e h = ground arith

pub var_size-ind_bytes :
    (size : ℕ) → size ≤ max_int32 → var_size size ≡ pos (length (ind_bytes size) + size)
unfolding var_size ind_bytes
var_size-ind_bytes size h = ground (arith, length-le_bytes 2 size, length-le_bytes 4 size)

-- `VarFieldSize` foretells how many bytes `LIBytes` writes.
pub length-put_li_bytes :
    (p e : Bytes)
    → length p ≤ max_int32
    → ((put_li_bytes p e).0 ≡ none)
      × (var_size (length p) ≡ pos (length (put_li_bytes p e).1 - length e))
length-put_li_bytes p e h = rw (put_li_bytes-ok p e h) (
  refl,
  var_size-ind_bytes (length p) h
      ∙ ap pos (
          omega (
            arith,
            length-append e (ind_bytes (length p) ++ p),
            length-append (ind_bytes (length p)) p,
          )),
)
