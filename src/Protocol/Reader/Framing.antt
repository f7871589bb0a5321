-- ===== src/Protocol/Reader/Framing.antt =====
-- `IterateParts` follows the frames of `_write` to the end of the message.
use go_hdb.Prelude.{
  ℕ, suc, ◌+◌, ◌-◌, ◌≡◌, refl, sym, ap, ap₂, ◌∙◌, List, [], ◌∷◌, ◌++◌, arith, length, Bytes, All,
  replicate,
}
use go_hdb.Prelude.Int.{ℤ, pos, IsInt8}
use go_hdb.Encoding.Decoder.{Decoder}
use go_hdb.Encoding.Decoder.Ready.{ready}
use go_hdb.Protocol.Headers.{PartHeader, part_header_size}
use go_hdb.Protocol.Headers.Encode.{encode_part}
use go_hdb.Protocol.Padding.{pad_bytes}
use go_hdb.Protocol.Writer.{PartEncoder}
use go_hdb.Protocol.Writer.Frame.{body, header, frames, frames_size, size_behind}
use go_hdb.Protocol.Reader.{Reader, Result, returns, bind}
use go_hdb.Protocol.Reader.Iterate.{PartFn, Progress, pad_between, read_parts}
use go_hdb.Protocol.Reader.Skip.{
  IsRequestPart, Skips, header-part_kind, header-part_attributes, header-buffer_length,
  header-InRange, decode_part_header-ready, skip_padding-ready, read_kind-ready,
}
use mathlib.Core.List.{append_assoc}

module _ {ℓ} {S : Type ℓ} (fn : PartFn S) (note : ℤ → ℤ → S → S) (skips : Skips fn note) where
  -- The reader behind part p, and before its padding.
  abbrev behind_part : ℤ → Decoder → Reader S → PartHeader → PartEncoder → Bytes → ℕ → ℤ → Reader S
  behind_part a d r ph p rest cnt buffer_size = record r {
    dec = ready d rest (cnt + part_header_size + length (body p));
    ph = header ph buffer_size p;
    caller = note p.kind a r.caller;
  }

  -- One round of the loop over the parts.
  round :
      (d : Decoder) (r : Reader S) (ph : PartHeader) (buffer_size : ℤ) (p : PartEncoder)
      (rest : Bytes) (cnt left : ℕ) (q : Progress) (a : ℤ)
      → ph.part_attributes ≡ a
      → IsInt8 a
      → IsRequestPart p
      → read_parts fn (suc left) q (record r {
        dec = ready d (encode_part (header ph buffer_size p) [] ++ (body p ++ rest)) cnt;
      })
        ≡ bind
            (pad_between left
              (record q { num_read_byte = q.num_read_byte + part_header_size + length (body p) })
              (behind_part a d r ph p rest cnt buffer_size))
            (read_parts fn left)
  unfolding read_parts ready
  round d r ph buffer_size p rest cnt left q a ea h hp =
      let h' = header ph buffer_size p in
      rw
        (decode_part_header-ready d r (body p ++ rest) cnt h'
          (header-InRange ph buffer_size p (rw ea h) hp.is_part))
        (rw
          (read_kind-ready fn note skips d (record r { ph = h' }) (body p) rest
            (cnt + part_header_size)
            (record q { num_read_byte = q.num_read_byte + part_header_size })
            (header-buffer_length ph buffer_size p hp.size_in ∙ ap pos (sym hp.is_part.sized))
            (rw (header-part_kind ph buffer_size p) hp.ne_error)
            (rw (header-part_kind ph buffer_size p) hp.ne_rows_affected))
          (ap₂
            (λ (n : ℕ) (s : S).
              bind
                (pad_between left (record q { num_read_byte = n })
                  (record (behind_part a d r ph p rest cnt buffer_size) { caller = s }))
                (read_parts fn left))
            {x = q.num_read_byte
              + part_header_size
              + (cnt + part_header_size + length (body p) - (cnt + part_header_size))}
            {y = q.num_read_byte + part_header_size + length (body p)} (omega arith)
            (ap₂ (λ (k a : ℤ). note k a r.caller) (header-part_kind ph buffer_size p)
              (header-part_attributes ph buffer_size p ∙ ea))))

-- The padding behind the last part, which the loop leaves.
unfoldable pub last_pad : List PartEncoder → ℕ
last_pad [] = 0
last_pad (p ∷ []) = pad_bytes (pos p.size)
last_pad (p ∷ q ∷ ps) = last_pad (q ∷ ps)

-- What a caller noted of all parts, in their order.
abbrev pub noted {ℓ} : {S : Type ℓ} → (ℤ → ℤ → S → S) → ℤ → List PartEncoder → S → S
noted note attributes [] s = s
noted note attributes (p ∷ ps) s = noted note attributes ps (note p.kind attributes s)

-- The bytes of a part, its padding and what follows, regrouped.
regroup : (e b z f rest : Bytes) → (e ++ (b ++ (z ++ f))) ++ rest ≡ e ++ (b ++ (z ++ (f ++ rest)))
regroup e b z f rest = simp append_assoc

module _ {ℓ} {S : Type ℓ} (fn : PartFn S) (note : ℤ → ℤ → S → S) (skips : Skips fn note) where
  -- The loop ends before the last padding, having counted all else.
  abbrev pub Walked :
      Decoder → Reader S → ℤ → Bytes → ℕ → List PartEncoder → Progress → Result S Progress → Type ℓ
  Walked d r a rest cnt ps q result =
      (n' cnt' : ℕ) × (ph' : PartHeader) × (result
        ≡ returns (record q { num_read_byte = n' })
            (record r {
              dec = ready d (replicate (last_pad ps) 0 ++ rest) cnt';
              ph = ph';
              caller = noted note a ps r.caller;
            }))
      × (n' + last_pad ps ≡ q.num_read_byte + frames_size ps)
      × (cnt' + last_pad ps ≡ cnt + frames_size ps)

  -- A round with the padding behind it, when more parts follow.
  round_padded :
      (d : Decoder) (r : Reader S) (ph : PartHeader) (buffer_size : ℤ) (p : PartEncoder)
      (rest : Bytes) (cnt left : ℕ) (q : Progress) (a : ℤ)
      → ph.part_attributes ≡ a
      → IsInt8 a
      → IsRequestPart p
      → read_parts fn (suc (suc left)) q (record r {
        dec =
            ready d
              (encode_part (header ph buffer_size p) []
                ++ (body p ++ (replicate (pad_bytes (pos p.size)) 0 ++ rest)))
              cnt;
      })
        ≡ read_parts fn
            (suc left)
            (record q {
              num_read_byte =
                  q.num_read_byte + part_header_size + length (body p) + pad_bytes (pos p.size);
            })
            (record r {
              dec =
                  ready d rest (cnt + part_header_size + length (body p) + pad_bytes (pos p.size));
              ph = header ph buffer_size p;
              caller = note p.kind a r.caller;
            })
  unfolding pad_between
  round_padded d r ph buffer_size p rest cnt left q a ea h hp =
      let h' = header ph buffer_size p in
      let n = pad_bytes (pos p.size) in
      round fn note skips d r ph buffer_size p (replicate n 0 ++ rest) cnt (suc left) q a ea h hp
      ∙ rw (
          skip_padding-ready d (record r { ph = h'; caller = note p.kind a r.caller }) rest
            (cnt + part_header_size + length (body p)) n
            (ap pad_bytes (header-buffer_length ph buffer_size p hp.size_in)))

  pub read_parts-frames :
      (ps : List PartEncoder) (d : Decoder) (r : Reader S) (ph : PartHeader) (buffer_size : ℤ)
      (rest : Bytes) (cnt : ℕ) (q : Progress) (a : ℤ)
      → ph.part_attributes ≡ a
      → IsInt8 a
      → All IsRequestPart ps
      → Walked d r a rest cnt ps q (
          read_parts fn
            (length ps)
            q
            (record r { dec = ready d (frames ph buffer_size ps ++ rest) cnt }))
  unfolding frames frames_size last_pad read_parts pad_between
  read_parts-frames [] d r ph buffer_size rest cnt q a ea h hs =
      (q.num_read_byte, cnt, r.ph, refl, refl, refl)
  read_parts-frames (p ∷ []) d r ph buffer_size rest cnt q a ea h (hp, hs) =
      let z : Bytes = replicate (pad_bytes (pos p.size)) 0 in
      let h' = header ph buffer_size p in
      (
        q.num_read_byte + part_header_size + length (body p),
        cnt + part_header_size + length (body p),
        h',
        rw (regroup (encode_part h' []) (body p) z [] rest)
            (round fn note skips d r ph buffer_size p (z ++ rest) cnt 0 q a ea h hp),
        omega (arith, hp.is_part.sized),
        omega (arith, hp.is_part.sized),
      )
  read_parts-frames (p ∷ p2 ∷ ps) d r ph buffer_size rest cnt q a ea h (hp, hs) =
      let z : Bytes = replicate (pad_bytes (pos p.size)) 0 in
      let h' = header ph buffer_size p in
      let fs = frames h' (size_behind buffer_size p) (p2 ∷ ps) in
      let (n', cnt', ph', e, counted, read) =
        read_parts-frames (p2 ∷ ps) d (record r { ph = h'; caller = note p.kind a r.caller }) h'
          (size_behind buffer_size p) rest
          (cnt + part_header_size + length (body p) + pad_bytes (pos p.size))
          (record q {
            num_read_byte =
                q.num_read_byte + part_header_size + length (body p) + pad_bytes (pos p.size);
          })
          a (header-part_attributes ph buffer_size p ∙ ea) h hs in
      (
        n',
        cnt',
        ph',
        rw (regroup (encode_part h' []) (body p) z fs rest)
            (round_padded d r ph buffer_size p (fs ++ rest) cnt (length ps) q a ea h hp ∙ e),
        omega (arith, counted, hp.is_part.sized),
        omega (arith, read, hp.is_part.sized),
      )
