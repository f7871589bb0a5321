-- ===== src/Tests/Prolog.antt =====
-- The prolog.
use go_hdb.Prelude.{[], ◌∷◌, arith}
use go_hdb.Prelude.Int.{pos}
use go_hdb.Protocol.Prolog.{InitRequest}
use go_hdb.Protocol.Prolog.RoundTrip.{
  VersionsInRange, Decodes, with_options, decode_init_request-encode_init_request,
}
use go_hdb.Tests.Values.{fresh_decoder}

abbrev a_request : InitRequest
a_request = record {
  product = record { major = pos 4; minor = pos 20 };
  protocol = record { major = pos 4; minor = pos 1 };
  num_options = pos 1;
  endianess = pos 1;
}

a_request-VersionsInRange : VersionsInRange a_request
a_request-VersionsInRange = record {
  product_major_in = omega arith;
  product_minor_in = omega arith;
  protocol_major_in = omega arith;
  protocol_minor_in = omega arith;
}

decode_init_request-encode_init_request_example :
    Decodes fresh_decoder
      (9 ∷ [])
      0
      a_request
      (with_options (pos 0) a_request)
      (with_options (pos 0) a_request)
    × Decodes fresh_decoder (9 ∷ []) 0 a_request a_request a_request
decode_init_request-encode_init_request_example =
    decode_init_request-encode_init_request fresh_decoder (9 ∷ []) 0 a_request a_request
      a_request-VersionsInRange (omega arith)
