-- ===== src/Protocol/Headers/Encode.antt =====
-- The `encode` methods of headers.go; the error that they return is always nil.
use go_hdb.Prelude.{if◌then◌else◌}
use go_hdb.Prelude.Int.{eq_ℤ}
use go_hdb.Encoding.Encoder.{Encoder, ◌>>◌, int8, int16, int32, int64, uint32, bool, zeroes}
use go_hdb.Protocol.Headers.{MessageHeader, SegmentHeader, PartHeader, sk_request, sk_reply}

unfoldable pub encode_message : MessageHeader → Encoder → Encoder
encode_message h = do
  int64 h.session_id
  int32 h.packet_count
  uint32 h.var_part_length
  uint32 h.var_part_size
  int16 h.no_of_segm
  zeroes 10

-- The switch on the segment kind.
unfoldable pub encode_segment_kind : SegmentHeader → Encoder → Encoder
encode_segment_kind h =
    if eq_ℤ h.segment_kind sk_request
    then (do int8 h.message_type; bool h.commit; int8 h.command_options; zeroes 8)
    else if eq_ℤ h.segment_kind sk_reply
    then (do zeroes 1; int16 h.function_code; zeroes 8)
    else zeroes 11

unfoldable pub encode_segment : SegmentHeader → Encoder → Encoder
encode_segment h = do
  int32 h.segment_length
  int32 h.segment_ofs
  int16 h.no_of_parts
  int16 h.segment_no
  int8 h.segment_kind
  encode_segment_kind h

unfoldable pub encode_part : PartHeader → Encoder → Encoder
encode_part h = do
  int8 h.part_kind
  int8 h.part_attributes
  int16 h.argument_count
  int32 h.big_argument_count
  int32 h.buffer_length
  int32 h.buffer_size
