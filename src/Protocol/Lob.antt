-- ===== src/Protocol/Lob.antt =====
-- driver/internal/protocol/lob.go: large objects, which are sent and fetched in chunks.
-- The texts of the parts and the scanning of a received object into a writer are not part of this.
pub mod Encode
pub mod Decode
pub mod Chunks
pub mod RoundTrip
use Prim.Native.String.{String}
use go_hdb.Prelude.{
  ℕ, zero, suc, ◌+◌, ◌*◌, ◌/◌, ◌%◌, ◌^◌, Bool, true, false, not, Option, none, some, List, [], ◌∷◌,
  ◌++◌, leb, ◌==◌, if◌then◌else◌, length, take, drop, replicate, Bytes, Outcome, ok, panic, map_ok,
}
use go_hdb.Prelude.Int.{ℤ, pos, negsuc, ◌+ℤ◌, wrap, convert}
use go_hdb.Encoding.Encoder
use go_hdb.Encoding.Encoder.{Encoder}
use go_hdb.Encoding.Decoder
use go_hdb.Encoding.Decoder.{Decoder, IoError, Decoding, ◌>>=◌, ◌>>◌, pure}
use go_hdb.Protocol.Writer.{PartEncoder}

-- lobOptions: loDataincluded is bit 1 and loLastdata bit 2.
abbrev pub lo_dataincluded : ℤ
lo_dataincluded = pos 2

-- loDataincluded | loLastdata
abbrev pub lo_dataincluded_lastdata : ℤ
lo_dataincluded_lastdata = pos 6

-- `o & loLastdata != 0`
unfoldable pub is_last_data : ℤ → Bool
unfolding wrap
is_last_data o = wrap (2 ^ 8) o / 4 % 2 == 1

-- `o & loNullindicator != 0`
unfoldable pub is_null : ℤ → Bool
unfolding wrap
is_null o = wrap (2 ^ 8) o % 2 == 1

-- The caller's io.Reader: the bytes that it still delivers, and then its end or another error.
pub record Source : Type 0 where
  pub bytes : Bytes
  pub fault : Option String

-- What io.CopyN returns as its error.
pub data CopyError : Type 0 where
  nil copy_eof : CopyError
  copy_fault : String → CopyError

abbrev pub end_error : Option String → CopyError
end_error none = copy_eof
end_error (some x) = copy_fault x

-- io.CopyN of n bytes: the bytes copied, what is left of the source, and the error.
unfoldable pub copy_n : ℕ → Source → Bytes × Source × CopyError
copy_n n s =
    if leb n (length s.bytes)
    then (take n s.bytes, record s { bytes = drop n s.bytes }, nil)
    else (s.bytes, record s { bytes = [] }, end_error s.fault)

pub record LobInDescr : Type 0 where
  pub rd : Source
  pub opt : ℤ
  pub position : ℕ
  pub buf : Bytes

-- `FetchNext` behind io.CopyN.
unfoldable pub fetched : Bytes → Source → LobInDescr → CopyError → Option String × LobInDescr
fetched buf rd d nil = (none, record d { rd = rd; buf = buf; opt = lo_dataincluded })
fetched buf rd d copy_eof = (none, record d { rd = rd; buf = buf; opt = lo_dataincluded_lastdata })
fetched buf rd d (copy_fault x) = (some x, record d { rd = rd; buf = buf; opt = lo_dataincluded })

unfoldable pub fetch_next : ℕ → LobInDescr → Option String × LobInDescr
fetch_next chunk_size d = let (buf, rd, e) = copy_n chunk_size d.rd in fetched buf rd d e

-- The locator id, the options, the offset and the bytes; the descriptor of the source with them.
pub record WriteLobDescr : Type 0 where
  pub lob_in_descr : LobInDescr
  pub id : ℕ
  pub opt : ℤ
  pub ofs : ℤ
  pub b : Bytes

-- `WriteLobDescr.FetchNext` behind the fetch of the source; the offset -1 appends.
unfoldable pub took : WriteLobDescr → Option String × LobInDescr → Option String × WriteLobDescr
took d (some x, rd) = (some x, record d { lob_in_descr = rd })
took d (none, rd) = (none, record d { lob_in_descr = rd; opt = rd.opt; ofs = negsuc 0; b = rd.buf })

unfoldable pub next_chunk : ℕ → WriteLobDescr → Option String × WriteLobDescr
next_chunk chunk_size d = took d (fetch_next chunk_size d.lob_in_descr)

-- A request for a chunk of a stored object.
pub record ReadLobRequest : Type 0 where
  pub id : ℕ
  pub ofs : ℤ
  pub chunk_size : ℤ
