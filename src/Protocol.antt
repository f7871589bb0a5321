-- ===== src/Protocol.antt =====
-- driver/internal/protocol: messages, segments and parts.
pub mod Headers
pub mod Padding
pub mod Errors
pub mod RowsAffected
pub mod Writer
pub mod Reader
pub mod Parts
pub mod Lob
pub mod Prolog
pub mod FieldNames
pub mod Auth
pub mod TypeCode
pub mod Convert
pub mod Parameter
pub mod Options
