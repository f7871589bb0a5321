-- ===== src/Protocol/Parameter.antt =====
-- driver/internal/protocol/parameter.go: the fields of parameters, and the input parameters of a
-- statement, which are written row by row.
pub mod Fields
pub mod Metadata
pub mod Encode
pub mod Input
pub mod Types
pub mod Conversions
pub mod Typed
pub mod Sizes
pub mod FieldSizes
pub mod TextRounds
pub mod TextSizes
pub mod PrmSizes
pub mod ColumnSizes
pub mod Positions
pub mod RowSizes
