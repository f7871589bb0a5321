-- ===== src/Protocol/Lob/Chunks.antt =====
-- The chunks that `FetchNext` makes of a source.
use go_hdb.Prelude.{
  ℕ, zero, suc, ◌+◌, ◌*◌, ◌≤◌, ◌<◌, ◌≡◌, refl, sym, ap, ◌∙◌, Bool, true, false, not,
  take-append-drop, none, List, [], ◌∷◌, ◌++◌, arith, leb, length, length-drop, replicate, map, ap₂,
  drop, Bytes, inl, inr, Bool-cases, if◌then◌else◌,
}
use go_hdb.Protocol.Lob.{WriteLobDescr, copy_n, fetched, fetch_next, took, next_chunk, is_last_data}
use mathlib.Core.List.{append-nil}
use native.Mathlib.Nat.{mul-suc}

-- From a source that only ends, one fetch gives no error, its chunk and what is left are the source,
-- and it says that it is the last when the source had fewer than n bytes.
pub next_chunk-rest :
    (n : ℕ) (w : WriteLobDescr)
    → w.lob_in_descr.rd.fault ≡ none
    → let w' = (next_chunk n w).1 in
      ((next_chunk n w).0 ≡ none)
      × (w'.b ++ w'.lob_in_descr.rd.bytes ≡ w.lob_in_descr.rd.bytes)
      × (w'.lob_in_descr.rd.fault ≡ none)
      × (is_last_data w'.opt ≡ not (leb n (length w.lob_in_descr.rd.bytes)))
unfolding next_chunk took fetch_next fetched copy_n is_last_data
next_chunk-rest n w h = elim (Bool-cases (leb n (length w.lob_in_descr.rd.bytes))) [
  | inl full ↦ rw full (refl, take-append-drop n w.lob_in_descr.rd.bytes, h, refl)
  | inr short ↦ rw (short, h) (refl, append-nil w.lob_in_descr.rd.bytes, refl, refl)
]

-- The chunks up to the one that says it is the last, in at most `fuel` fetches.
unfoldable pub chunks : ℕ → ℕ → WriteLobDescr → List WriteLobDescr
chunks zero n w = []
chunks (suc fuel) n w =
    let w' = (next_chunk n w).1 in
    let rest = chunks fuel n w' in w' ∷ (if is_last_data w'.opt then [] else rest)

-- The bytes of all of them.
unfoldable pub joined : List WriteLobDescr → Bytes
joined [] = []
joined (w ∷ ws) = w.b ++ joined ws

chunks-last :
    (fuel n : ℕ) (w : WriteLobDescr)
    → is_last_data (next_chunk n w).1.opt ≡ true
    → chunks (suc fuel) n w ≡ (next_chunk n w).1 ∷ []
unfolding chunks
chunks-last fuel n w h = rw (chunks, h)

chunks-next :
    (fuel n : ℕ) (w : WriteLobDescr)
    → is_last_data (next_chunk n w).1.opt ≡ false
    → chunks (suc fuel) n w ≡ (next_chunk n w).1 ∷ chunks fuel n (next_chunk n w).1
unfolding chunks
chunks-next fuel n w h = rw (chunks, h)

pub next_chunk-bytes :
    (n : ℕ) (w : WriteLobDescr)
    → leb n (length w.lob_in_descr.rd.bytes) ≡ true
    → (next_chunk n w).1.lob_in_descr.rd.bytes ≡ drop n w.lob_in_descr.rd.bytes
unfolding next_chunk took fetch_next fetched copy_n
next_chunk-bytes n w h = rw h

next_chunk-end :
    (n : ℕ) (w : WriteLobDescr)
    → w.lob_in_descr.rd.fault ≡ none
    → leb n (length w.lob_in_descr.rd.bytes) ≡ false
    → (next_chunk n w).1.lob_in_descr.rd.bytes ≡ []
unfolding next_chunk took fetch_next fetched copy_n
next_chunk-end n w e h = rw (h, e)

leb_of_le : (a b : ℕ) → a ≤ b → leb a b ≡ true
leb_of_le a b h = ground arith

leb_of_lt : (a b : ℕ) → b < a → leb a b ≡ false
leb_of_lt a b h = ground arith

-- A source without a fault, of q full chunks and r bytes more, less than a chunk, is fetched in q + 1
-- chunks, of which the last alone says that it is the last; together they are the source.
pub chunks-joined :
    (q r n : ℕ) (w : WriteLobDescr)
    → w.lob_in_descr.rd.fault ≡ none
    → r < n
    → length w.lob_in_descr.rd.bytes ≡ n * q + r
    → (map (λ (w : WriteLobDescr). is_last_data w.opt) (chunks (suc q) n w)
        ≡ replicate q false ++ true ∷ [])
      × (joined (chunks (suc q) n w) ≡ w.lob_in_descr.rd.bytes)
unfolding joined
chunks-joined zero r n w h k e =
    let (_, whole, _, last) = next_chunk-rest n w h in
    let short : leb n (length w.lob_in_descr.rd.bytes) ≡ false =
      leb_of_lt n (length w.lob_in_descr.rd.bytes) (omega (arith, e, k)) in
    let is_last : is_last_data (next_chunk n w).1.opt ≡ true = last ∙ ap not short in
    rw (chunks-last zero n w is_last) (
      ap (λ (b : Bool). b ∷ []) is_last,
      ap (λ (p : Bytes). (next_chunk n w).1.b ++ p) (sym (next_chunk-end n w h short)) ∙ whole,
    )
chunks-joined (suc q) r n w h k e =
    let w' = (next_chunk n w).1 in
    let (_, whole, faultless, last) = next_chunk-rest n w h in
    let full : leb n (length w.lob_in_descr.rd.bytes) ≡ true =
      leb_of_le n (length w.lob_in_descr.rd.bytes) (omega (arith, e, mul-suc n q)) in
    let not_last : is_last_data w'.opt ≡ false = last ∙ ap not full in
    let left : length w'.lob_in_descr.rd.bytes ≡ n * q + r =
      ap length (next_chunk-bytes n w full)
      ∙ omega (arith, e, mul-suc n q, length-drop n w.lob_in_descr.rd.bytes) in
    let (flags, rest) = chunks-joined q r n w' faultless k left in
    rw (chunks-next (suc q) n w not_last) (
      ap₂ (λ (b : Bool) (bs : List Bool). b ∷ bs) not_last flags,
      ap (λ (p : Bytes). w'.b ++ p) rest ∙ whole,
    )
