-- ===== src/Protocol/Parts/Contract.antt =====
-- The parts keep the contract of `PartEncoder`, and their decoders read what was encoded.
use go_hdb.Prelude.{
  ℕ, ◌+◌, ◌^◌, ◌<◌, ◌≡◌, refl, sym, none, ◌++◌, arith, ok, length, length-replicate, replicate,
  Bytes,
}
use go_hdb.Prelude.Int.{ℤ, pos, wrap, IsInt32}
use go_hdb.Prelude.Words.{length-le_bytes}
use go_hdb.Encoding.Encoder
use go_hdb.Encoding.Decoder.{Decoder}
use go_hdb.Encoding.Decoder.Ready.{ready, int32-ready, uint64-ready, bytes-ready}
use go_hdb.Protocol.Writer.Frame.{body}
use go_hdb.Protocol.Reader.Skip.{IsRequestPart}
use go_hdb.Protocol.Parts.{
  client_id, fetchsize, statement_id, resultset_id, decode_client_id, decode_fetchsize,
  decode_statement_id, decode_resultset_id,
}

pub client_id-IsRequestPart : (id : Bytes) → length id < 2 ^ 31 → IsRequestPart (client_id id)
unfolding client_id Encoder.bytes
client_id-IsRequestPart id h = record {
  is_part = record {
    encodes = λ e. refl;
    sized = refl;
    kind_in = omega arith;
    num_arg_in = omega arith;
  };
  size_in = h;
  ne_error = refl;
  ne_rows_affected = refl;
}

pub fetchsize-IsRequestPart : (s : ℤ) → IsRequestPart (fetchsize s)
unfolding fetchsize Encoder.int32
fetchsize-IsRequestPart s = record {
  is_part = record {
    encodes = λ e. refl;
    sized = length-le_bytes 4 (wrap (2 ^ 32) s);
    kind_in = omega arith;
    num_arg_in = omega arith;
  };
  size_in = omega arith;
  ne_error = refl;
  ne_rows_affected = refl;
}

pub statement_id-IsRequestPart : (id : ℕ) → IsRequestPart (statement_id id)
unfolding statement_id Encoder.uint64
statement_id-IsRequestPart id = record {
  is_part = record {
    encodes = λ e. refl;
    sized = length-le_bytes 8 id;
    kind_in = omega arith;
    num_arg_in = omega arith;
  };
  size_in = omega arith;
  ne_error = refl;
  ne_rows_affected = refl;
}

module _ (d : Decoder) (rest : Bytes) (cnt : ℕ) where
  -- Each of the simple parts is decoded to its value from the bytes that it encoded, with no error.
  pub simple_parts_roundtrip :
      (client : Bytes) (s : ℤ) (id : ℕ)
      → IsInt32 s
      → id < 2 ^ 64
      → (decode_client_id (pos (length client)) (ready d (body (client_id client) ++ rest) cnt)
          ≡ (ok (client, none), ready d rest (cnt + length client)))
        × (decode_fetchsize (ready d (body (fetchsize s) ++ rest) cnt)
            ≡ ((s, none), ready d rest (cnt + 4)))
        × (decode_statement_id (ready d (body (statement_id id) ++ rest) cnt)
            ≡ ((id, none), ready d rest (cnt + 8)))
        × (decode_resultset_id (ready d (body (resultset_id id) ++ rest) cnt)
            ≡ ((id, none), ready d rest (cnt + 8)))
  unfolding client_id fetchsize statement_id resultset_id decode_client_id decode_fetchsize
      decode_statement_id decode_resultset_id Encoder.bytes Encoder.int32 Encoder.uint64 ready
  simple_parts_roundtrip client s id hs hid = (
    rw (
        bytes-ready d client rest cnt (replicate (length client) 0)
          (sym (length-replicate (length client) 0))),
    rw (int32-ready d rest cnt s hs),
    rw (uint64-ready d rest cnt id hid),
    rw (uint64-ready d rest cnt id hid),
  )
