-- ===== src/Tests/Values.antt =====
-- Values that the tests share.
use go_hdb.Prelude.{false, none, List, [], ◌∷◌, ◌++◌, some}
use go_hdb.Prelude.Int.{ℤ, pos, negsuc}
use go_hdb.Encoding.Decoder.{Decoder}
use go_hdb.Protocol.Headers.{MessageHeader, SegmentHeader, PartHeader}
use go_hdb.Protocol.Parts.{fetchsize, statement_id}
use go_hdb.Protocol.Lob.{WriteLobDescr}
use go_hdb.Protocol.Writer.{PartEncoder, Writer}
use go_hdb.Protocol.Reader.{Reader, returns}
use go_hdb.Protocol.Reader.Iterate.{PartFn, skipped}

abbrev pub fresh_decoder : Decoder
fresh_decoder = record {
  rd = [];
  err = none;
  cnt = 0;
  alphanum_dfv1 = false;
  empty_date_as_null = false;
}

abbrev pub no_message : MessageHeader
no_message = record {
  session_id = pos 0;
  packet_count = pos 0;
  var_part_length = 0;
  var_part_size = 0;
  no_of_segm = pos 0;
}

abbrev pub no_segment : SegmentHeader
no_segment = record {
  segment_length = pos 0;
  segment_ofs = pos 0;
  no_of_parts = pos 0;
  segment_no = pos 0;
  segment_kind = pos 0;
  message_type = pos 0;
  commit = false;
  command_options = pos 0;
  function_code = pos 0;
}

abbrev pub no_part : PartHeader
no_part = record {
  part_kind = pos 0;
  part_attributes = pos 0;
  argument_count = pos 0;
  big_argument_count = pos 0;
  buffer_length = pos 0;
  buffer_size = pos 0;
}

abbrev pub fresh_writer : Writer
fresh_writer = record {
  enc = [];
  sv = none;
  sv_sent = false;
  session_id = negsuc 0;
  mh = no_message;
  sh = no_segment;
  ph = no_part;
  has_error = false;
}

-- A reader whose caller notes the kinds that it is told.
abbrev pub fresh_reader : Reader (List ℤ)
fresh_reader = record {
  dec = fresh_decoder;
  mh = no_message;
  sh = no_segment;
  ph = no_part;
  hdb_errors = record { only_warnings = false; errs = []; current = none };
  rows_affected = [];
  caller = [];
}

abbrev pub note_kind : ℤ → ℤ → List ℤ → List ℤ
note_kind kind attributes kinds = kinds ++ kind ∷ []

abbrev pub noting : PartFn (List ℤ)
noting = some (λ kind attributes r.
    returns skipped (record r { caller = note_kind kind attributes r.caller }))

abbrev pub two_parts : List PartEncoder
two_parts = statement_id 77 ∷ fetchsize (pos 128) ∷ []

-- A descriptor of a source of five bytes.
abbrev pub five_bytes : WriteLobDescr
five_bytes = record {
  lob_in_descr = record {
    rd = record { bytes = 1 ∷ 2 ∷ 3 ∷ 4 ∷ 5 ∷ []; fault = none };
    opt = pos 0;
    position = 0;
    buf = [];
  };
  id = 7;
  opt = pos 0;
  ofs = pos 0;
  b = [];
}

abbrev pub a_chunk : WriteLobDescr
a_chunk = record five_bytes { opt = pos 2; ofs = negsuc 0; b = 1 ∷ 2 ∷ [] }
