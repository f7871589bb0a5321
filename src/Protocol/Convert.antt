-- ===== src/Protocol/Convert.antt =====
-- driver/internal/protocol/convert.go: values of the caller become the types that the fields encode.
-- Floats are bit patterns. The float operations of Go, strconv, math/big and the transform readers are
-- the record `Runtime`.
pub mod Values
pub mod Numbers
pub mod Others
pub mod Integers
use go_hdb.Prelude.{ℕ, Option}
