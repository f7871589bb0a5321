-- ===== src/Encoding/VarField/RoundTrip.antt =====
-- `LIBytes` of the decoder reads what `LIBytes` of the encoder wrote.
use go_hdb.Prelude.{
  ok, ℕ, ◌+◌, ◌≤◌, ◌≡◌, sym, false, some, [], ◌∷◌, ◌++◌, arith, leb, length, Bytes, length-append,
  inl, inr, Bool-cases, length-replicate, replicate,
}
use go_hdb.Prelude.Int.{pos}
use go_hdb.Prelude.Words.{le_bytes, length-le_bytes}
use go_hdb.Encoding.Decoder.{Decoder}
use go_hdb.Encoding.Decoder.Ready.{ready, byte-ready, int16-ready_pos, int32-ready_pos, bytes-ready}
use go_hdb.Encoding.VarField.{
  var_field_ind, li_bytes, make_bytes, put_li_bytes, max_int16, max_int32, VarInd,
  bytes_len_ind_small, bytes_len_ind_medium, bytes_len_ind_big,
}
use go_hdb.Encoding.VarField.Size.{ind_bytes, put_li_bytes-ok, ind_small, ind_medium, ind_big}
use native.Mathlib.Nat.{add_assoc}
use mathlib.Core.List.{append_assoc}

abbrev found : ℕ → ℕ → VarInd
found n size = record { n = n; size = pos size; null = false }

module _ (d : Decoder) (rest : Bytes) (cnt size : ℕ) where
  small :
      size ≤ bytes_len_ind_small
      → var_field_ind (ready d (size ∷ rest) cnt) ≡ (found 1 size, ready d rest (cnt + 1))
  unfolding var_field_ind
  small h = rw (byte-ready d rest cnt size) (ground arith)

  medium :
      size ≤ max_int16
      → var_field_ind (ready d (bytes_len_ind_medium ∷ (le_bytes 2 size ++ rest)) cnt)
        ≡ (found 3 size, ready d rest (cnt + 3))
  unfolding var_field_ind
  medium h =
      rw (byte-ready d (le_bytes 2 size ++ rest) cnt bytes_len_ind_medium)
        (rw (int16-ready_pos d rest (cnt + 1) size (omega arith)) (simp add_assoc))

  big :
      size ≤ max_int32
      → var_field_ind (ready d (bytes_len_ind_big ∷ (le_bytes 4 size ++ rest)) cnt)
        ≡ (found 5 size, ready d rest (cnt + 5))
  unfolding var_field_ind
  big h =
      rw (byte-ready d (le_bytes 4 size ++ rest) cnt bytes_len_ind_big)
        (rw (int32-ready_pos d rest (cnt + 1) size (omega arith)) (simp add_assoc))

  var_field_ind-ind_bytes :
      size ≤ max_int32
      → var_field_ind (ready d (ind_bytes size ++ rest) cnt)
        ≡ (found (length (ind_bytes size)) size, ready d rest (cnt + length (ind_bytes size)))
  var_field_ind-ind_bytes h = elim (Bool-cases (leb size bytes_len_ind_small)) [
    | inl a ↦ rw (ind_small size (ground arith)) (small (ground arith))
    | inr a ↦ elim (Bool-cases (leb size max_int16)) [
      | inl b ↦
          rw (ind_medium size (ground arith) (ground arith), length-le_bytes 2 size)
            (medium (ground arith))
      | inr b ↦ rw (ind_big size (ground arith), length-le_bytes 4 size) (big h)
    ]
  ]

-- Whatever `LIBytes` of the encoder appends to `e` for p, with any bytes after it, the decoder gives p
-- back, consumes exactly what was written, and its n is that count of bytes, which is also `varSize`.
pub li_bytes-put_li_bytes :
    (d : Decoder) (p rest : Bytes) (cnt : ℕ)
    → length p ≤ max_int32
    → let written = (put_li_bytes p []).1 in
      li_bytes (ready d (written ++ rest) cnt)
      ≡ (ok (pos (length written), some p), ready d rest (cnt + length written))
unfolding li_bytes make_bytes
li_bytes-put_li_bytes d p rest cnt h = rw (put_li_bytes-ok p [] h) (
    rw (append_assoc (ind_bytes (length p)) p rest) (
      rw (var_field_ind-ind_bytes d (p ++ rest) cnt (length p) h) (
        rw
          (bytes-ready d p rest (cnt + length (ind_bytes (length p))) (replicate (length p) 0)
            (sym (length-replicate (length p) 0)))
          (rw (length-append (ind_bytes (length p)) p, add_assoc)))))
