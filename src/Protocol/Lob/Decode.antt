-- ===== src/Protocol/Lob/Decode.antt =====
-- What lob.go decodes: chunks and requests (by the sniffer), and the reply to a chunk.
use go_hdb.Prelude.{
  ℕ, zero, suc, Option, List, [], ◌∷◌, replicate, Bytes, Outcome, ok, panic, map_ok,
}
use go_hdb.Prelude.Int.{ℤ, pos, negsuc}
use go_hdb.Encoding.Decoder.{
  Decoder, IoError, Decoding, ◌>>=◌, ◌>>◌, pure, int8, int32, int64, uint64, bytes, skip,
}
use go_hdb.Protocol.Lob.{WriteLobDescr, ReadLobRequest}

-- `make([]byte, size)` panics on a negative size; then `dec.Bytes`.
unfoldable pub make_bytes : ℤ → Decoding (Outcome Bytes)
make_bytes (pos n) = do b ← bytes (replicate n 0); pure (ok b)
make_bytes (negsuc n) = pure panic

-- A descriptor is filled with what was read; the one of the source stays as it was.
unfoldable pub decode_write_descr : WriteLobDescr → Decoding (Outcome WriteLobDescr)
decode_write_descr d = do
  id ← uint64
  opt ← int8
  ofs ← int64
  size ← int32
  b ← make_bytes size
  pure (map_ok (λ b. record d { id = id; opt = opt; ofs = ofs; b = b }) b)

-- One descriptor, and then the others.
abbrev pub then_descrs :
    Outcome WriteLobDescr × Decoder
    → Decoding (Outcome (List WriteLobDescr))
    → Outcome (List WriteLobDescr) × Decoder
then_descrs (panic, d) k = (panic, d)
then_descrs (ok w, d) k = let (ws, d') = k d in (map_ok (λ ws. w ∷ ws) ws, d')

-- The loop of `WriteLobRequest.decodeNumArg`; `new` is a zero descriptor.
unfoldable pub decode_descrs : WriteLobDescr → ℕ → Decoding (Outcome (List WriteLobDescr))
decode_descrs new zero d = (ok [], d)
decode_descrs new (suc n) d = then_descrs (decode_write_descr new d) (decode_descrs new n)

-- The decoder of the sniffer.
unfoldable pub decode_read_lob : Decoding ReadLobRequest
decode_read_lob = do
  id ← uint64
  ofs ← int64
  chunk_size ← int32
  skip 4
  pure (record { id = id; ofs = ofs; chunk_size = chunk_size })

-- `WriteLobReply.decodeNumArg`: the ids that are not written completely; the slice cannot be cut to a
-- negative length.
unfoldable pub decode_ids : ℕ → Decoding (List ℕ)
decode_ids zero d = ([], d)
decode_ids (suc n) d =
    let (id, d') = uint64 d in let (ids, d'') = decode_ids n d' in (id ∷ ids, d'')

unfoldable pub decode_write_lob_reply : ℤ → Decoding (Outcome (List ℕ × Option IoError))
decode_write_lob_reply (pos n) = do ids ← decode_ids n; λ d. (ok (ids, d.err), d)
decode_write_lob_reply (negsuc n) = pure panic
