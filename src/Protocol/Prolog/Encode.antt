-- ===== src/Protocol/Prolog/Encode.antt =====
-- The request that opens a connection, and `WriteProlog`.
use Prim.Native.String.{String}
use go_hdb.Prelude.{Option, Outcome, ok, panic, if◌then◌else◌, map_ok}
use go_hdb.Prelude.Int.{pos, eq_ℤ}
use go_hdb.Encoding.Encoder.{Encoder, ◌>>◌, int8, int16, uint32, zeroes}
use go_hdb.Protocol.Prolog.{InitRequest, little_endian, init_request_filler}

-- The fields in front of the options.
unfoldable pub encode_versions : InitRequest → Encoder → Encoder
encode_versions r = do
  uint32 init_request_filler
  int8 r.product.major
  int16 r.product.minor
  int8 r.protocol.major
  int16 r.protocol.minor

-- The switch on the number of options, of which there are none or one.
unfoldable pub encode_options : InitRequest → Encoder → Outcome Encoder
encode_options r e =
    if eq_ℤ r.num_options (pos 0)
    then ok (zeroes 4 e)
    else if eq_ℤ r.num_options (pos 1)
    then ok ((do zeroes 1; int8 r.num_options; int8 little_endian; int8 r.endianess) e)
    else panic

unfoldable pub encode_init_request : InitRequest → Encoder → Outcome Encoder
encode_init_request r e = encode_options r (encode_versions r e)

-- productVersion and protocolVersion are 4.20 and 4.1.
unfoldable pub prolog_request : InitRequest
prolog_request = record {
  product = record { major = pos 4; minor = pos 20 };
  protocol = record { major = pos 4; minor = pos 1 };
  num_options = pos 1;
  endianess = little_endian;
}

-- `wr.Flush()`, which may fail on what was written.
unfoldable pub write_prolog :
    (Encoder → Option String) → Encoder → Outcome (Option String × Encoder)
write_prolog flush e = map_ok (λ e'. (flush e', e')) (encode_init_request prolog_request e)
