-- ===== src/Encoding.antt =====
-- driver/internal/protocol/encoding: the byte level of the protocol.
pub mod Encoder
pub mod Decoder
pub mod VarField
pub mod Fields
pub mod Julian
pub mod Datetime
pub mod Decimal
