-- ===== src/Protocol/Prolog/Decode.antt =====
-- The request as the sniffer reads it, the reply of the database, and `ReadProlog`.
use go_hdb.Prelude.{Option, Outcome, ok, panic, if◌then◌else◌}
use go_hdb.Prelude.Int.{pos, eq_ℤ}
use go_hdb.Encoding.Decoder.{IoError, Decoding, ◌>>=◌, ◌>>◌, pure, int8, int16, skip}
use go_hdb.Protocol.Prolog.{InitRequest, InitReply, init_request_filler_size}

abbrev with_error {ℓ} : {A : Type ℓ} → A → Decoding (Outcome (A × Option IoError))
with_error a d = (ok (a, d.err), d)

-- The switch on the number of options.
unfoldable pub decode_options : InitRequest → Decoding (Outcome (InitRequest × Option IoError))
decode_options r =
    if eq_ℤ r.num_options (pos 0)
    then (do skip 2; with_error r)
    else if eq_ℤ r.num_options (pos 1)
    then (do
      cnt ← int8
      if eq_ℤ cnt (pos 1)
          then (do endianess ← int8; with_error (record r { endianess = endianess }))
          else pure panic)
    else pure panic

unfoldable pub decode_init_request : InitRequest → Decoding (Outcome (InitRequest × Option IoError))
decode_init_request r = do
  skip init_request_filler_size
  product_major ← int8
  product_minor ← int16
  protocol_major ← int8
  protocol_minor ← int16
  skip 1
  num_options ← int8
  decode_options (record r {
    product = record { major = product_major; minor = product_minor };
    protocol = record { major = protocol_major; minor = protocol_minor };
    num_options = num_options;
  })

unfoldable pub decode_init_reply : Decoding (InitReply × Option IoError)
decode_init_reply = do
  product_major ← int8
  product_minor ← int16
  protocol_major ← int8
  protocol_minor ← int16
  skip 2
  λ d. (
    (
      record {
        product = record { major = product_major; minor = product_minor };
        protocol = record { major = protocol_major; minor = protocol_minor };
      },
      d.err,
    ),
    d,
  )
