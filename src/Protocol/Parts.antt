-- ===== src/Protocol/Parts.antt =====
-- driver/internal/protocol/simpleparts.go and parts.go: the parts that are one value.
pub mod Contract
use go_hdb.Prelude.{ℕ, zero, suc, Option, none, Outcome, ok, panic, length, replicate, Bytes}
use go_hdb.Prelude.Int.{ℤ, pos, negsuc}
use go_hdb.Encoding.Encoder
use go_hdb.Encoding.Encoder.{Encoder}
use go_hdb.Encoding.Decoder
use go_hdb.Encoding.Decoder.{IoError, Decoding, ◌>>=◌, pure}
use go_hdb.Protocol.Writer.{PartEncoder}

-- `ClientID`: bytes.
unfoldable pub client_id : Bytes → PartEncoder
client_id id = record {
  kind = pos 35;
  num_arg = 1;
  size = length id;
  encode = λ e. (none, Encoder.bytes id e);
}

-- `Fetchsize`: an int32.
unfoldable pub fetchsize : ℤ → PartEncoder
fetchsize s = record {
  kind = pos 45;
  num_arg = 1;
  size = 4;
  encode = λ e. (none, Encoder.int32 s e);
}

-- `StatementID`: a uint64.
unfoldable pub statement_id : ℕ → PartEncoder
statement_id id = record {
  kind = pos 10;
  num_arg = 1;
  size = 8;
  encode = λ e. (none, Encoder.uint64 id e);
}

-- `ResultsetID`: a uint64.
unfoldable pub resultset_id : ℕ → PartEncoder
resultset_id id = record {
  kind = pos 13;
  num_arg = 1;
  size = 8;
  encode = λ e. (none, Encoder.uint64 id e);
}

abbrev with_error {ℓ} : {A : Type ℓ} → A → Decoding (A × Option IoError)
with_error a d = ((a, d.err), d)

-- `decodeBufLen`: `resizeSlice` panics on a negative length. The bytes of the slice that is filled are
-- all overwritten unless the input ends; a fresh slice stands for the one that is reused.
unfoldable pub decode_client_id : ℤ → Decoding (Outcome (Bytes × Option IoError))
decode_client_id (pos n) = do id ← Decoder.bytes (replicate n 0); λ d. (ok (id, d.err), d)
decode_client_id (negsuc n) = pure panic

unfoldable pub decode_fetchsize : Decoding (ℤ × Option IoError)
decode_fetchsize = do s ← Decoder.int32; with_error s

unfoldable pub decode_statement_id : Decoding (ℕ × Option IoError)
decode_statement_id = do id ← Decoder.uint64; with_error id

unfoldable pub decode_resultset_id : Decoding (ℕ × Option IoError)
decode_resultset_id = do id ← Decoder.uint64; with_error id
