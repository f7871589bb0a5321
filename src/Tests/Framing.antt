-- ===== src/Tests/Framing.antt =====
-- Messages: what `Writer` sends and what `Reader` makes of it.
use go_hdb.Prelude.{◌+◌, ◌≡◌, refl, arith, false, none, some, [], ◌∷◌, ◌++◌, length, All}
use go_hdb.Prelude.Int.{pos, negsuc, IsInt16, IsInt32}
use go_hdb.Encoding.Decoder.Ready.{ready}
use go_hdb.Protocol.Headers.{SegmentHeader, PartHeader, segment_header_size}
use go_hdb.Protocol.Headers.Encode.{encode_segment}
use go_hdb.Protocol.Headers.Decode.{decode_segment}
use go_hdb.Protocol.Headers.RoundTrip.{PartInRange}
use go_hdb.Protocol.Headers.Segment.{SegmentInRange, decode_segment-encode_segment}
use go_hdb.Protocol.Headers.NumArg.{set_num_arg, num_arg, num_arg-set_num_arg}
use go_hdb.Protocol.Padding.{pad_bytes}
use go_hdb.Protocol.Parts.Contract.{fetchsize-IsRequestPart, statement_id-IsRequestPart}
use go_hdb.Protocol.Writer.{message_size, sum_sizes, write_message}
use go_hdb.Protocol.Writer.Frame.{IsPart}
use go_hdb.Protocol.Writer.Write.{message, message_header, write_message-message, length-message}
use go_hdb.Protocol.Reader.Iterate.{iterate_parts, call_fn}
use go_hdb.Protocol.Reader.Skip.{IsRequestPart}
use go_hdb.Protocol.Reader.Message.{IsSendable, Delivers, iterate_parts-message}
use go_hdb.Protocol.Parts.{statement_id, fetchsize}
use go_hdb.Protocol.Errors.{HdbError, HdbErrors}
use go_hdb.Protocol.Reader.Iterate.{link_errors}
use go_hdb.Protocol.Reader.Errors.{link_errors-errs}
use go_hdb.Tests.Values.{
  fresh_decoder, fresh_reader, fresh_writer, no_segment, no_part, note_kind, noting, two_parts,
}

two_parts-IsRequestPart : All IsRequestPart two_parts
two_parts-IsRequestPart = (statement_id-IsRequestPart 77, (fetchsize-IsRequestPart (pos 128), tt))

two_parts-IsPart : All IsPart two_parts
two_parts-IsPart =
    ((statement_id-IsRequestPart 77).is_part, ((fetchsize-IsRequestPart (pos 128)).is_part, tt))

two_parts_size : message_size two_parts ≡ 72
unfolding message_size sum_sizes statement_id fetchsize pad_bytes
two_parts_size = refl

two_parts-IsSendable : IsSendable fresh_writer (pos 71) two_parts
two_parts-IsSendable = record {
  parts_in = two_parts-IsRequestPart;
  num_part_in = omega arith;
  size_in = omega (arith, two_parts_size);
  message_type_in = omega arith;
  session_id_in = omega arith;
  packet_count_in = omega arith;
  command_options_in = omega arith;
  function_code_in = omega arith;
  part_attributes_in = omega arith;
}

iterate_parts-message_example :
    let bytes = message fresh_writer (pos 71) false two_parts in
    Delivers fresh_decoder fresh_reader (9 ∷ []) (5 + length bytes) (pos 10 ∷ pos 45 ∷ []) (
      iterate_parts 0 noting
        (record fresh_reader { dec = ready fresh_decoder (bytes ++ 9 ∷ []) 5 }))
unfolding statement_id fetchsize call_fn
iterate_parts-message_example =
    iterate_parts-message noting note_kind (λ r. refl) fresh_writer (pos 71) false two_parts
      two_parts-IsSendable fresh_decoder fresh_reader (9 ∷ []) 5 0

write_message-message_example :
    ((write_message (λ e. none) (pos 71) false two_parts fresh_writer).0 ≡ none)
    × ((write_message (λ e. none) (pos 71) false two_parts fresh_writer).1.enc
        ≡ [] ++ message fresh_writer (pos 71) false two_parts)
write_message-message_example =
    write_message-message (λ e. none) (pos 71) false two_parts fresh_writer two_parts-IsPart
      (omega (arith, two_parts_size)) refl

length-message_example :
    length (message fresh_writer (pos 71) false two_parts)
    ≡ 32 + (message_header fresh_writer two_parts).var_part_length
length-message_example = length-message fresh_writer (pos 71) false two_parts two_parts-IsPart

abbrev reply : SegmentHeader
reply = record no_segment { segment_kind = pos 2; function_code = pos 5; no_of_parts = pos 3 }

reply-InRange : SegmentInRange reply
reply-InRange = record {
  segment_length_in = omega arith;
  segment_ofs_in = omega arith;
  no_of_parts_in = omega arith;
  segment_no_in = omega arith;
  segment_kind_in = omega arith;
  message_type_in = omega arith;
  command_options_in = omega arith;
  function_code_in = omega arith;
}

decode_segment-encode_segment_example :
    (decode_segment no_segment (ready fresh_decoder (encode_segment reply [] ++ 9 ∷ []) 0)
      ≡ ((reply, none), ready fresh_decoder (9 ∷ []) (0 + segment_header_size)))
    × (length (encode_segment reply []) ≡ segment_header_size)
decode_segment-encode_segment_example =
    decode_segment-encode_segment fresh_decoder reply no_segment (9 ∷ []) 0 reply-InRange

abbrev a_part : PartHeader
a_part = record no_part {
  part_kind = pos 10;
  argument_count = negsuc 0;
  big_argument_count = pos 70000;
}

a_part-InRange : PartInRange a_part
a_part-InRange = record {
  part_kind_in = omega arith;
  part_attributes_in = omega arith;
  argument_count_in = omega arith;
  big_argument_count_in = omega arith;
  buffer_length_in = omega arith;
  buffer_size_in = omega arith;
}

num_arg-set_num_arg_example :
    ((set_num_arg 70000 no_part).0 ≡ none)
    × (num_arg (set_num_arg 70000 no_part).1 ≡ pos 70000)
    × IsInt16 (set_num_arg 70000 no_part).1.argument_count
    × IsInt32 (set_num_arg 70000 no_part).1.big_argument_count
num_arg-set_num_arg_example = num_arg-set_num_arg 70000 no_part (omega arith)

abbrev duplicate : HdbError
duplicate = record {
  error_code = pos 301;
  error_position = pos 0;
  error_text_length = pos 0;
  error_level = pos 1;
  sql_state = [];
  stmt_no = pos 0;
  error_text = [];
}

abbrev duplicates : HdbErrors
duplicates = record {
  only_warnings = false;
  errs = duplicate ∷ duplicate ∷ [];
  current = some duplicate;
}

link_errors-errs_example :
    (link_errors 100 0 0 (pos 1 ∷ negsuc 2 ∷ pos 1 ∷ []) duplicates).errs
    ≡ record duplicate { stmt_no = pos 101 } ∷ duplicate ∷ []
link_errors-errs_example = link_errors-errs 100 (pos 1 ∷ negsuc 2 ∷ pos 1 ∷ []) duplicates
