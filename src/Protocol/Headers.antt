-- ===== src/Protocol/Headers.antt =====
-- driver/internal/protocol/headers.go: the headers of messages, segments and parts.
-- The named integer types are their integers.
pub mod Encode
pub mod Decode
pub mod RoundTrip
pub mod Segment
pub mod NumArg
use go_hdb.Prelude.{ℕ, Bool}
use go_hdb.Prelude.Int.{ℤ, pos, negsuc}

pub record MessageHeader : Type 0 where
  pub session_id : ℤ
  pub packet_count : ℤ
  pub var_part_length : ℕ
  pub var_part_size : ℕ
  pub no_of_segm : ℤ

abbrev pub segment_header_size : ℕ
segment_header_size = 24

-- segmentKind
abbrev pub sk_request : ℤ
sk_request = pos 1

abbrev pub sk_reply : ℤ
sk_reply = pos 2

pub record SegmentHeader : Type 0 where
  pub segment_length : ℤ
  pub segment_ofs : ℤ
  pub no_of_parts : ℤ
  pub segment_no : ℤ
  pub segment_kind : ℤ
  pub message_type : ℤ
  pub commit : Bool
  pub command_options : ℤ
  pub function_code : ℤ

abbrev pub part_header_size : ℕ
part_header_size = 16

-- bigNumArgInd is -1.
abbrev pub big_num_arg_ind : ℤ
big_num_arg_ind = negsuc 0

pub record PartHeader : Type 0 where
  pub part_kind : ℤ
  pub part_attributes : ℤ
  pub argument_count : ℤ
  pub big_argument_count : ℤ
  pub buffer_length : ℤ
  pub buffer_size : ℤ
