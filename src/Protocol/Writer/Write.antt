-- ===== src/Protocol/Writer/Write.antt =====
-- `Write` as a whole: the message of a request, and its errors.
use Prim.Native.String.{String}
use go_hdb.Prelude.{
  ℕ, ◌+◌, ◌≤◌, ◌≡◌, refl, ◌∙◌, Bool, false, Option, none, List, [], ◌++◌, arith, length,
  length-append, Bytes, All, ltb,
}
use go_hdb.Prelude.Int.{ℤ, pos, ◌-ℤ◌}
use go_hdb.Encoding.Encoder.{Encoder}
use go_hdb.Protocol.Headers.{MessageHeader, SegmentHeader, segment_header_size}
use go_hdb.Protocol.Headers.Encode.{encode_message, encode_segment}
use go_hdb.Protocol.Headers.RoundTrip.{encode_message-out, length-encode_message}
use go_hdb.Protocol.Headers.Segment.{encode_segment-out, length-encode_segment}
use go_hdb.Protocol.Writer.{
  PartEncoder, Writer, max_int32, max_uint32, message_size, set_message, set_segment, write_message,
  flushed, put_message, put_segment,
}
use go_hdb.Protocol.Writer.Frame.{
  IsPart, frames, behind, write_parts-ok, length-frames, message_size-frames_size,
}
use mathlib.Core.List.{append_assoc}

-- The headers that `_write` sends for these parts.
abbrev pub message_header : Writer → List PartEncoder → MessageHeader
message_header w parts = (set_message (message_size parts) w).mh

abbrev pub segment_header : Writer → ℤ → Bool → List PartEncoder → SegmentHeader
segment_header w message_type commit parts =
    (set_segment message_type commit (message_size parts) (length parts) w).sh

-- The bytes of the request.
unfoldable pub message : Writer → ℤ → Bool → List PartEncoder → Bytes
message w message_type commit parts =
    encode_message (message_header w parts) []
    ++ (encode_segment (segment_header w message_type commit parts) []
        ++ frames w.ph (pos (message_size parts) -ℤ pos segment_header_size) parts)

ltb_of_le : (a b : ℕ) → b ≤ a → ltb a b ≡ false
ltb_of_le a b h = ground arith

-- The writer when the last part is written.
unfoldable pub sent : ℤ → Bool → List PartEncoder → Writer → Writer
sent message_type commit parts w =
    let size = message_size parts in
    let w1 = put_message (set_message size w) in
    let w2 = put_segment (set_segment message_type commit size (length parts) w1) in
    behind w2 (pos size -ℤ pos segment_header_size) parts

sent-enc :
    (message_type : ℤ) (commit : Bool) (parts : List PartEncoder) (w : Writer)
    → (sent message_type commit parts w).enc ≡ w.enc ++ message w message_type commit parts
unfolding sent set_message set_segment behind message
sent-enc message_type commit parts w =
    rw (encode_segment-out (segment_header w message_type commit parts))
      (rw (encode_message-out (message_header w parts) w.enc) (simp append_assoc))

flushed-ok :
    (flush : Encoder → Option String) (w : Writer)
    → flush w.enc ≡ none
    → flushed flush w ≡ (none, w)
flushed-ok flush w h = rw h

module _ (flush : Encoder → Option String) (message_type : ℤ) (commit : Bool)
    (parts : List PartEncoder) (w : Writer) where
  write_message-flushed :
      All IsPart parts
      → message_size parts ≤ max_int32
      → write_message flush message_type commit parts w
        ≡ flushed flush (sent message_type commit parts w)
  unfolding write_message sent
  write_message-flushed h small =
      rw
        (
          ltb_of_le max_uint32 (message_size parts) (omega arith),
          ltb_of_le max_int32 (message_size parts) small,
        )
        (rw (write_parts-ok parts (pos (message_size parts) -ℤ pos segment_header_size) _ h))

  -- Parts that keep their contract and a message that fits: `_write` returns nil if Flush does, and
  -- what it handed to the writer is the message header, the segment header and the frames.
  pub write_message-message :
      All IsPart parts
      → message_size parts ≤ max_int32
      → flush (w.enc ++ message w message_type commit parts) ≡ none
      → ((write_message flush message_type commit parts w).0 ≡ none)
        × ((write_message flush message_type commit parts w).1.enc
            ≡ w.enc ++ message w message_type commit parts)
  write_message-message h small ok =
      let e : write_message flush message_type commit parts w
          ≡ (none, sent message_type commit parts w) =
        write_message-flushed h small
        ∙ flushed-ok flush (sent message_type commit parts w)
            (rw (sent-enc message_type commit parts w) ok) in
      rw e (refl, sent-enc message_type commit parts w)

-- The message is 32 bytes of header and as many bytes as that header says, which are the segment's.
pub length-message :
    (w : Writer) (message_type : ℤ) (commit : Bool) (parts : List PartEncoder)
    → All IsPart parts
    → length (message w message_type commit parts) ≡ 32 + (message_header w parts).var_part_length
unfolding message set_message
length-message w message_type commit parts h =
    let mh = message_header w parts in
    let sh = segment_header w message_type commit parts in
    let fs = frames w.ph (pos (message_size parts) -ℤ pos segment_header_size) parts in
    omega (
      arith,
      length-append (encode_message mh []) (encode_segment sh [] ++ fs),
      length-append (encode_segment sh []) fs,
      length-encode_message mh,
      length-encode_segment sh,
      length-frames parts w.ph (pos (message_size parts) -ℤ pos segment_header_size) h,
      message_size-frames_size parts,
    )
