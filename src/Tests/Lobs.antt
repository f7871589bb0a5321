-- ===== src/Tests/Lobs.antt =====
-- Large objects: chunks, and the requests that carry them.
use go_hdb.Prelude.{◌+◌, ◌≡◌, refl, true, false, [], ◌∷◌, ◌++◌, arith, ok, map}
use go_hdb.Encoding.Decoder.Ready.{ready}
use go_hdb.Protocol.Writer.Frame.{body}
use go_hdb.Protocol.Lob.{WriteLobDescr, is_last_data}
use go_hdb.Protocol.Lob.Encode.{write_lob_request}
use go_hdb.Protocol.Lob.Decode.{decode_descrs}
use go_hdb.Protocol.Lob.Chunks.{chunks, joined, chunks-joined}
use go_hdb.Protocol.Lob.RoundTrip.{DescrInRange, decode_descrs-write_lob_request}
use go_hdb.Tests.Values.{fresh_decoder, five_bytes, a_chunk}

chunks-joined_example :
    (map (λ (w : WriteLobDescr). is_last_data w.opt) (chunks 3 2 five_bytes)
      ≡ false ∷ false ∷ true ∷ [])
    × (joined (chunks 3 2 five_bytes) ≡ 1 ∷ 2 ∷ 3 ∷ 4 ∷ 5 ∷ [])
chunks-joined_example = chunks-joined 2 1 2 five_bytes refl (omega arith) refl

a_chunk-DescrInRange : DescrInRange a_chunk
a_chunk-DescrInRange = record {
  id_in = omega arith;
  opt_in = omega arith;
  ofs_in = omega arith;
  size_in = omega arith;
}

decode_descrs-write_lob_request_example :
    decode_descrs five_bytes
      (write_lob_request (a_chunk ∷ [])).num_arg
      (ready fresh_decoder (body (write_lob_request (a_chunk ∷ [])) ++ 9 ∷ []) 0)
    ≡ (
      ok (a_chunk ∷ []),
      ready fresh_decoder (9 ∷ []) (0 + (write_lob_request (a_chunk ∷ [])).size),
    )
decode_descrs-write_lob_request_example =
    decode_descrs-write_lob_request fresh_decoder five_bytes (9 ∷ []) 0 (a_chunk ∷ [])
      (a_chunk-DescrInRange, tt)
