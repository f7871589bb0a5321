-- ===== src/Encoding/Decoder/Values.antt =====
-- Every value that `Decoder` reads makes progress in the sense of Progress.
use go_hdb.Prelude.{ℕ, replicate, Bytes}
use go_hdb.Encoding.Encoder.{ByteOrder}
use go_hdb.Encoding.Decoder.{
  byte, bytes, bool, int8, uint_le, int16, uint16, uint16_byte_order, int32, uint32,
  uint32_byte_order, int64, uint64,
}
use go_hdb.Encoding.Decoder.Progress.{Progresses, read_full-Progress}

pub byte-Progress : Progresses byte
unfolding byte
byte-Progress d = read_full-Progress (replicate 1 0) d

pub bytes-Progress : (p : Bytes) → Progresses (bytes p)
unfolding bytes
bytes-Progress p d = read_full-Progress p d

pub uint_le-Progress : (n : ℕ) → Progresses (uint_le n)
unfolding uint_le
uint_le-Progress n d = read_full-Progress (replicate n 0) d

pub bool-Progress : Progresses bool
unfolding bool
bool-Progress d = byte-Progress d

pub int8-Progress : Progresses int8
unfolding int8
int8-Progress d = byte-Progress d

pub int16-Progress : Progresses int16
unfolding int16
int16-Progress d = uint_le-Progress 2 d

pub uint16-Progress : Progresses uint16
unfolding uint16
uint16-Progress d = uint_le-Progress 2 d

pub int32-Progress : Progresses int32
unfolding int32
int32-Progress d = uint_le-Progress 4 d

pub uint32-Progress : Progresses uint32
unfolding uint32
uint32-Progress d = uint_le-Progress 4 d

pub int64-Progress : Progresses int64
unfolding int64
int64-Progress d = uint_le-Progress 8 d

pub uint64-Progress : Progresses uint64
unfolding uint64
uint64-Progress d = uint_le-Progress 8 d

pub uint16_byte_order-Progress : (order : ByteOrder) → Progresses (uint16_byte_order order)
unfolding uint16_byte_order
uint16_byte_order-Progress order d = read_full-Progress (replicate 2 0) d

pub uint32_byte_order-Progress : (order : ByteOrder) → Progresses (uint32_byte_order order)
unfolding uint32_byte_order
uint32_byte_order-Progress order d = read_full-Progress (replicate 4 0) d
