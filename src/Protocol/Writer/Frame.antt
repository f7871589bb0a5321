-- ===== src/Protocol/Writer/Frame.antt =====
-- What the loop of `_write` puts on the wire for its parts, one frame after the other.
use go_hdb.Prelude.{
  ℕ, ◌+◌, ◌*◌, ◌≤◌, ◌^◌, ◌≡◌, refl, ap, ◌∙◌, none, List, [], ◌∷◌, ◌++◌, arith, length,
  length-append, replicate, Bytes, All,
}
use go_hdb.Prelude.Int.{ℤ, pos, ◌-ℤ◌, convert, IsInt8}
use go_hdb.Encoding.Encoder.{Encoder}
use go_hdb.Encoding.Encoder.Zeroes.{zeroes-replicate, length_zeroes}
use go_hdb.Protocol.Headers.{PartHeader, part_header_size, segment_header_size}
use go_hdb.Protocol.Headers.Encode.{encode_part}
use go_hdb.Protocol.Headers.RoundTrip.{encode_part-out, length-encode_part}
use go_hdb.Protocol.Headers.NumArg.{set_num_arg, max_num_arg, num_arg-set_num_arg}
use go_hdb.Protocol.Padding.{pad_bytes}
use go_hdb.Protocol.Writer.{
  PartEncoder, Writer, padded_size, sum_sizes, message_size, write_counted, write_part, write_parts,
}
use mathlib.Core.List.{append_assoc, append-nil}

-- The bytes of a part.
abbrev pub body : PartEncoder → Bytes
body p = (p.encode []).1

-- The contract of `PartEncoder`: encoding appends as many bytes as `size` foretells, without an error,
-- and the kind and the argument count fit the header.
pub record IsPart (p : PartEncoder) : Type 0 where
  pub encodes : (e : Encoder) → p.encode e ≡ (none, e ++ body p)
  pub sized : length (body p) ≡ p.size
  pub kind_in : IsInt8 p.kind
  pub num_arg_in : p.num_arg ≤ max_num_arg

-- The header of part p, written behind a part whose header was `ph`.
unfoldable pub header : PartHeader → ℤ → PartEncoder → PartHeader
header ph buffer_size p = record (set_num_arg p.num_arg (record ph { part_kind = p.kind })).1 {
  buffer_length = convert (2 ^ 31) (pos p.size);
  buffer_size = convert (2 ^ 31) buffer_size;
}

-- `bufferSize` for the next part.
abbrev pub size_behind : ℤ → PartEncoder → ℤ
size_behind buffer_size p = buffer_size -ℤ pos (part_header_size + padded_size p)

unfoldable pub frames : PartHeader → ℤ → List PartEncoder → Bytes
frames ph buffer_size [] = []
frames ph buffer_size (p ∷ ps) =
    encode_part (header ph buffer_size p) []
    ++ (body p
        ++ (replicate (pad_bytes (pos p.size)) 0
            ++ frames (header ph buffer_size p) (size_behind buffer_size p) ps))

unfoldable pub last_header : PartHeader → ℤ → List PartEncoder → PartHeader
last_header ph buffer_size [] = ph
last_header ph buffer_size (p ∷ ps) =
    last_header (header ph buffer_size p) (size_behind buffer_size p) ps

-- A writer behind the parts ps.
unfoldable pub behind : Writer → ℤ → List PartEncoder → Writer
behind w buffer_size ps = record w {
  ph = last_header w.ph buffer_size ps;
  enc = w.enc ++ frames w.ph buffer_size ps;
}

set_num_arg-ok :
    (n : ℕ) (h : PartHeader) → n ≤ max_num_arg → set_num_arg n h ≡ (none, (set_num_arg n h).1)
set_num_arg-ok n h k = λ i. ((num_arg-set_num_arg n h k).0 i, (set_num_arg n h).1)

write_counted-ok :
    (p : PartEncoder) (buffer_size : ℤ) (w : Writer)
    → IsPart p
    → write_counted p buffer_size w
        (none, (set_num_arg p.num_arg (record w.ph { part_kind = p.kind })).1)
      ≡ (
        none,
        record w {
          ph = header w.ph buffer_size p;
          enc =
              w.enc
              ++ (encode_part (header w.ph buffer_size p) []
                  ++ (body p ++ replicate (pad_bytes (pos p.size)) 0));
        },
      )
unfolding write_counted header
write_counted-ok p buffer_size w h =
    let ph = header w.ph buffer_size p in
    rw (h.encodes (encode_part ph w.enc)) (
      rw (zeroes-replicate (pad_bytes (pos p.size)) (encode_part ph w.enc ++ body p))
        (rw (encode_part-out ph w.enc) (simp append_assoc)))

write_part-ok :
    (p : PartEncoder) (buffer_size : ℤ) (w : Writer)
    → IsPart p
    → write_part p buffer_size w ≡ (
      none,
      record w {
        ph = header w.ph buffer_size p;
        enc =
            w.enc
            ++ (encode_part (header w.ph buffer_size p) []
                ++ (body p ++ replicate (pad_bytes (pos p.size)) 0));
      },
    )
unfolding write_part
write_part-ok p buffer_size w h =
    ap (write_counted p buffer_size w)
      (set_num_arg-ok p.num_arg (record w.ph { part_kind = p.kind }) h.num_arg_in)
    ∙ write_counted-ok p buffer_size w h

-- The loop writes the frames and ends with no error.
pub write_parts-ok :
    (ps : List PartEncoder) (buffer_size : ℤ) (w : Writer)
    → All IsPart ps
    → write_parts ps buffer_size w ≡ (none, behind w buffer_size ps)
unfolding write_parts behind frames last_header
write_parts-ok [] buffer_size w h = rw (append-nil w.enc)
write_parts-ok (p ∷ ps) buffer_size w (hp, hps) =
    rw (write_part-ok p buffer_size w hp)
      (write_parts-ok ps (size_behind buffer_size p) _ hps ∙ simp append_assoc)

-- The sum of the padded sizes, and one header each.
unfoldable pub frames_size : List PartEncoder → ℕ
frames_size [] = 0
frames_size (p ∷ ps) = part_header_size + padded_size p + frames_size ps

pub length-frames :
    (ps : List PartEncoder) (ph : PartHeader) (buffer_size : ℤ)
    → All IsPart ps
    → length (frames ph buffer_size ps) ≡ frames_size ps
unfolding frames frames_size
length-frames [] ph buffer_size h = refl
length-frames (p ∷ ps) ph buffer_size (hp, hps) =
    let ph' = header ph buffer_size p in
    let pad : Bytes = replicate (pad_bytes (pos p.size)) 0 in
    let rest = frames ph' (size_behind buffer_size p) ps in
    omega (
      arith,
      length-append (encode_part ph' []) (body p ++ (pad ++ rest)),
      length-append (body p) (pad ++ rest),
      length-append pad rest,
      length_zeroes (pad_bytes (pos p.size)),
      length-encode_part ph',
      hp.sized,
      length-frames ps ph' (size_behind buffer_size p) hps,
    )

sum_sizes-frames_size :
    (ps : List PartEncoder) (size : ℕ)
    → sum_sizes (size + length ps * part_header_size) ps ≡ size + frames_size ps
unfolding sum_sizes frames_size
sum_sizes-frames_size [] size = omega arith
sum_sizes-frames_size (p ∷ ps) size =
    ap (λ (n : ℕ). sum_sizes n ps) {x = size + length (p ∷ ps) * part_header_size + padded_size p}
      {y = size + part_header_size + padded_size p + length ps * part_header_size} (omega arith)
    ∙ sum_sizes-frames_size ps (size + part_header_size + padded_size p)
    ∙ omega arith

-- `size` of `_write` is the segment header and the frames.
pub message_size-frames_size :
    (ps : List PartEncoder) → message_size ps ≡ segment_header_size + frames_size ps
unfolding message_size
message_size-frames_size ps = sum_sizes-frames_size ps segment_header_size
