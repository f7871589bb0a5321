-- ===== src/Protocol/Prolog.antt =====
-- driver/internal/protocol/init.go: the prolog of a connection, and its use in protocol.go.
pub mod Encode
pub mod Decode
pub mod RoundTrip
use go_hdb.Prelude.{ℕ, ◌-◌, ◌^◌}
use go_hdb.Prelude.Int.{ℤ, pos}

pub record Version : Type 0 where
  pub major : ℤ
  pub minor : ℤ

-- littleEndian is 1, bigEndian 0.
abbrev pub little_endian : ℤ
little_endian = pos 1

abbrev pub init_request_filler : ℕ
init_request_filler = 2 ^ 32 - 1

abbrev pub init_request_filler_size : ℕ
init_request_filler_size = 4

pub record InitRequest : Type 0 where
  pub product : Version
  pub protocol : Version
  pub num_options : ℤ
  pub endianess : ℤ

pub record InitReply : Type 0 where
  pub product : Version
  pub protocol : Version
