-- ===== src/Protocol/Headers/Decode.antt =====
-- The `decode` methods of headers.go. A header is decoded in place: what is not read keeps its value.
use go_hdb.Prelude.{Option, if◌then◌else◌}
use go_hdb.Prelude.Int.{eq_ℤ}
use go_hdb.Encoding.Decoder.{
  IoError, Decoding, ◌>>=◌, ◌>>◌, pure, int8, int16, int32, int64, uint32, bool, skip,
}
use go_hdb.Protocol.Headers.{MessageHeader, SegmentHeader, PartHeader, sk_request, sk_reply}

-- The header as it is left, and `return dec.Error()`.
abbrev pub with_error {ℓ} : {A : Type ℓ} → A → Decoding (A × Option IoError)
with_error a d = ((a, d.err), d)

unfoldable pub decode_message : MessageHeader → Decoding (MessageHeader × Option IoError)
decode_message h = do
  session_id ← int64
  packet_count ← int32
  var_part_length ← uint32
  var_part_size ← uint32
  no_of_segm ← int16
  skip 10
  with_error (record {
    session_id = session_id;
    packet_count = packet_count;
    var_part_length = var_part_length;
    var_part_size = var_part_size;
    no_of_segm = no_of_segm;
  })

-- The switch on the segment kind that was read.
unfoldable pub decode_segment_kind : SegmentHeader → Decoding SegmentHeader
decode_segment_kind h =
    if eq_ℤ h.segment_kind sk_request
    then (do
      message_type ← int8
      commit ← bool
      command_options ← int8
      skip 8
      pure (record h {
        message_type = message_type;
        commit = commit;
        command_options = command_options;
      }))
    else if eq_ℤ h.segment_kind sk_reply
    then (do
      skip 1
      function_code ← int16
      skip 8
      pure (record h { function_code = function_code }))
    else (do skip 11; pure h)

unfoldable pub decode_segment : SegmentHeader → Decoding (SegmentHeader × Option IoError)
decode_segment h = do
  segment_length ← int32
  segment_ofs ← int32
  no_of_parts ← int16
  segment_no ← int16
  segment_kind ← int8
  h' ← decode_segment_kind (record h {
    segment_length = segment_length;
    segment_ofs = segment_ofs;
    no_of_parts = no_of_parts;
    segment_no = segment_no;
    segment_kind = segment_kind;
  })
  with_error h'

unfoldable pub decode_part : PartHeader → Decoding (PartHeader × Option IoError)
decode_part h = do
  part_kind ← int8
  part_attributes ← int8
  argument_count ← int16
  big_argument_count ← int32
  buffer_length ← int32
  buffer_size ← int32
  with_error (record {
    part_kind = part_kind;
    part_attributes = part_attributes;
    argument_count = argument_count;
    big_argument_count = big_argument_count;
    buffer_length = buffer_length;
    buffer_size = buffer_size;
  })
