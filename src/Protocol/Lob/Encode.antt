-- ===== src/Protocol/Lob/Encode.antt =====
-- What lob.go encodes: chunks to write and requests for chunks to read.
use go_hdb.Prelude.{ℕ, ◌+◌, ◌^◌, none, List, [], ◌∷◌, length}
use go_hdb.Prelude.Int.{pos, ◌+ℤ◌, convert}
use go_hdb.Encoding.Encoder.{Encoder, ◌>>◌, int8, int32, int64, uint64, bytes, zeroes}
use go_hdb.Protocol.Writer.{PartEncoder}
use go_hdb.Protocol.Lob.{WriteLobDescr, ReadLobRequest}

unfoldable pub encode_write_descr : WriteLobDescr → Encoder → Encoder
encode_write_descr d = do
  uint64 d.id
  int8 d.opt
  int64 d.ofs
  int32 (convert (2 ^ 31) (pos (length d.b)))
  bytes d.b

abbrev pub write_lob_request_size : ℕ
write_lob_request_size = 21

unfoldable pub size_loop : ℕ → List WriteLobDescr → ℕ
size_loop size [] = size
size_loop size (d ∷ ds) = size_loop (size + (write_lob_request_size + length d.b)) ds

unfoldable pub encode_descrs : List WriteLobDescr → Encoder → Encoder
encode_descrs [] e = e
encode_descrs (d ∷ ds) e = encode_descrs ds (encode_write_descr d e)

-- `WriteLobRequest`, a part of the descriptors.
unfoldable pub write_lob_request : List WriteLobDescr → PartEncoder
write_lob_request descrs = record {
  kind = pos 28;
  num_arg = length descrs;
  size = size_loop 0 descrs;
  encode = λ e. (none, encode_descrs descrs e);
}

-- The offset on the wire counts from 1, and wraps around in an int64.
unfoldable pub encode_read_lob : ReadLobRequest → Encoder → Encoder
encode_read_lob r = do
  uint64 r.id
  int64 (convert (2 ^ 63) (r.ofs +ℤ pos 1))
  int32 (convert (2 ^ 31) r.chunk_size)
  zeroes 4
