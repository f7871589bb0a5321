-- ===== src/Protocol/Writer.antt =====
-- driver/internal/protocol/protocol.go: `Writer`, which frames the parts of a request.
-- `protTrace` is off: it only logs. Flushing the buffered writer is a parameter.
pub mod Frame
pub mod Write
use Prim.Native.String.{String}
use go_hdb.Prelude.{
  ℕ, ◌+◌, ◌-◌, ◌*◌, ◌^◌, Bool, true, false, not, ◌&&◌, ◌||◌, Option, none, some, List, [], ◌∷◌, ltb,
  if◌then◌else◌, length,
}
use go_hdb.Prelude.Int.{ℤ, pos, ◌-ℤ◌, convert, eq_ℤ}
use go_hdb.Encoding.Encoder.{Encoder, zeroes}
use go_hdb.Protocol.Headers.{
  MessageHeader, SegmentHeader, PartHeader, segment_header_size, part_header_size, sk_request,
}
use go_hdb.Protocol.Headers.Encode.{encode_message, encode_segment, encode_part}
use go_hdb.Protocol.Headers.NumArg.{NumArgError, set_num_arg}
use go_hdb.Protocol.Padding.{pad_bytes}

-- The interface `PartEncoder`: what its methods return for a part. An error is its text.
pub record PartEncoder : Type 0 where
  pub kind : ℤ
  pub num_arg : ℕ
  pub size : ℕ
  pub encode : Encoder → Option String × Encoder

pub data WriteError : Type 0 where
  message_size_exceeded : ℕ → WriteError
  part_header_size_exceeded : ℕ → WriteError
  num_arg_error : NumArgError → WriteError
  encode_error : String → WriteError
  flush_error : String → WriteError

-- `enc` is what was handed to the buffered writer; `sv` is the clientInfo part of the session
-- variables, nil as `none`.
pub record Writer : Type 0 where
  pub enc : Encoder
  pub sv : Option PartEncoder
  pub sv_sent : Bool
  pub session_id : ℤ
  pub mh : MessageHeader
  pub sh : SegmentHeader
  pub ph : PartHeader
  pub has_error : Bool

-- `ClientInfoSupported`: MtPrepare, MtExecuteDirect and MtExecute.
unfoldable pub client_info_supported : ℤ → Bool
client_info_supported mt = eq_ℤ mt (pos 3) || eq_ℤ mt (pos 2) || eq_ℤ mt (pos 13)

-- The parts with the session variables in front where they are due, and `svSent`.
unfoldable pub add_client_info : Writer → ℤ → List PartEncoder → Writer × List PartEncoder
add_client_info w message_type parts = elim w.sv [
  | none ↦ (w, parts)
  | some info ↦
      if not w.sv_sent && client_info_supported message_type
      then (record w { sv_sent = true }, info ∷ parts)
      else (w, parts)
]

-- A part's bytes and its padding.
abbrev pub padded_size : PartEncoder → ℕ
padded_size p = p.size + pad_bytes (pos p.size)

unfoldable pub sum_sizes : ℕ → List PartEncoder → ℕ
sum_sizes size [] = size
sum_sizes size (p ∷ ps) = sum_sizes (size + padded_size p) ps

unfoldable pub message_size : List PartEncoder → ℕ
message_size parts = sum_sizes (segment_header_size + length parts * part_header_size) parts

abbrev pub max_uint32 : ℕ
max_uint32 = 2 ^ 32 - 1

abbrev pub max_int32 : ℕ
max_int32 = 2 ^ 31 - 1

-- Behind the part's header: its bytes, then `Zeroes(pad)`.
abbrev pub then_padding : ℕ → Option String × Encoder → Option WriteError × Encoder
then_padding pad (none, e) = (none, zeroes pad e)
then_padding pad (some x, e) = (some (encode_error x), e)

-- One round of the loop behind `setNumArg`, with `bufferSize`.
unfoldable pub write_counted :
    PartEncoder → ℤ → Writer → Option NumArgError × PartHeader → Option WriteError × Writer
write_counted p buffer_size w (some x, counted) =
    (some (num_arg_error x), record w { ph = counted })
write_counted p buffer_size w (none, counted) =
    let ph = record counted {
      buffer_length = convert (2 ^ 31) (pos p.size);
      buffer_size = convert (2 ^ 31) buffer_size;
    } in
    let (x, out) = then_padding (pad_bytes (pos p.size)) (p.encode (encode_part ph w.enc)) in
    (x, record w { ph = ph; enc = out })

unfoldable pub write_part : PartEncoder → ℤ → Writer → Option WriteError × Writer
write_part p buffer_size w =
    write_counted p buffer_size w (set_num_arg p.num_arg (record w.ph { part_kind = p.kind }))

-- `if err != nil { return err }` and what follows.
abbrev pub and_then :
    Option WriteError × Writer → (Writer → Option WriteError × Writer) → Option WriteError × Writer
and_then (some x, w) k = (some x, w)
and_then (none, w) k = k w

unfoldable pub write_parts : List PartEncoder → ℤ → Writer → Option WriteError × Writer
write_parts [] buffer_size w = (none, w)
write_parts (p ∷ ps) buffer_size w =
    and_then (write_part p buffer_size w)
      (λ w'. write_parts ps (buffer_size -ℤ pos (part_header_size + padded_size p)) w')

-- The headers of the message and of its one segment.
unfoldable pub set_message : ℕ → Writer → Writer
set_message size w = record w {
  mh = record w.mh {
    session_id = w.session_id;
    var_part_length = size;
    var_part_size = size;
    no_of_segm = pos 1;
  };
}

unfoldable pub set_segment : ℤ → Bool → ℕ → ℕ → Writer → Writer
set_segment message_type commit size num_part w = record w {
  sh = record w.sh {
    message_type = message_type;
    commit = commit;
    segment_kind = sk_request;
    segment_length = convert (2 ^ 31) (pos size);
    segment_ofs = pos 0;
    no_of_parts = convert (2 ^ 15) (pos num_part);
    segment_no = pos 1;
  };
}

abbrev pub put_message : Writer → Writer
put_message w = record w { enc = encode_message w.mh w.enc }

abbrev pub put_segment : Writer → Writer
put_segment w = record w { enc = encode_segment w.sh w.enc }

-- `wr.Flush()`, which may fail on what was written.
module _ (flush : Encoder → Option String) where
  abbrev pub flushed : Writer → Option WriteError × Writer
  flushed w = (elim (flush w.enc) [ none ↦ none | some x ↦ some (flush_error x) ], w)

  -- `_write` behind the parts that it sends.
  unfoldable pub write_message : ℤ → Bool → List PartEncoder → Writer → Option WriteError × Writer
  write_message message_type commit parts w =
      let size = message_size parts in
      if ltb max_uint32 size
      then (some (message_size_exceeded size), w)
      else (let w1 = put_message (set_message size w) in
          if ltb max_int32 size
          then (some (part_header_size_exceeded size), w1)
          else and_then
              (write_parts parts (pos size -ℤ pos segment_header_size)
                (put_segment (set_segment message_type commit size (length parts) w1)))
              flushed)

  -- `Write`: `_write`, and an error is remembered.
  unfoldable pub write : ℤ → Bool → List PartEncoder → Writer → Option WriteError × Writer
  write message_type commit parts w =
      let (w0, sent) = add_client_info w message_type parts in
      let (e, w1) = write_message message_type commit sent w0 in
      (e, elim e [ none ↦ w1 | some x ↦ record w1 { has_error = true } ])
