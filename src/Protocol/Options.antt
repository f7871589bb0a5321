-- ===== src/Protocol/Options.antt =====
-- driver/internal/protocol/optiontype.go and optionsparts.go: options, values of several types by a key.
-- A map is an association list with each key once, in the order in which a range over it may go; `set`
-- writes at the key. A nil map is the empty one. A float64 is its bit pattern.
pub mod Encode
pub mod Decode
pub mod Access
pub mod Values
pub mod RoundTrip
use go_hdb.Prelude.{
  ℕ, suc, ◌+◌, ◌*◌, Bool, true, false, Option, none, some, List, [], ◌∷◌, ◌==◌, if◌then◌else◌,
  length, Bytes, Outcome, ok, panic,
}
use go_hdb.Prelude.Int.{ℤ, eq_ℤ}

-- The values that have a type; `optTypeViaType` panics on others.
pub data OptValue : Type 0 where
  boolean : Bool → OptValue
  tinyint : ℤ → OptValue
  integer : ℤ → OptValue
  bigint : ℤ → OptValue
  double : ℕ → OptValue
  string : Bytes → OptValue
  bstring : Bytes → OptValue

pub data OptType : Type 0 where
  boolean_type : OptType
  tinyint_type : OptType
  integer_type : OptType
  bigint_type : OptType
  double_type : OptType
  string_type : OptType
  bstring_type : OptType

unfoldable pub type_code : OptType → ℕ
type_code boolean_type = 28
type_code tinyint_type = 1
type_code integer_type = 3
type_code bigint_type = 4
type_code double_type = 7
type_code string_type = 29
type_code bstring_type = 33

unfoldable pub opt_type_via_type : OptValue → OptType
opt_type_via_type (boolean v) = boolean_type
opt_type_via_type (tinyint v) = tinyint_type
opt_type_via_type (integer v) = integer_type
opt_type_via_type (bigint v) = bigint_type
opt_type_via_type (double v) = double_type
opt_type_via_type (string v) = string_type
opt_type_via_type (bstring v) = bstring_type

unfoldable pub opt_type_via_type_code : ℕ → Outcome OptType
opt_type_via_type_code tc =
    if tc == 28
    then ok boolean_type
    else if tc == 1
    then ok tinyint_type
    else if tc == 3
    then ok integer_type
    else if tc == 4
    then ok bigint_type
    else if tc == 7
    then ok double_type
    else if tc == 29
    then ok string_type
    else if tc == 33
    then ok bstring_type
    else panic

-- The methods `size` of the types, at the type of the value.
unfoldable pub size_value : OptValue → ℕ
size_value (boolean v) = 1
size_value (tinyint v) = 1
size_value (integer v) = 4
size_value (bigint v) = 8
size_value (double v) = 8
size_value (string v) = 2 + length v
size_value (bstring v) = 2 + length v

abbrev pub Options : Type 0
Options = List (ℤ × OptValue)

unfoldable pub lookup : ℤ → Options → Option OptValue
lookup k [] = none
lookup k ((k', v) ∷ ops) = let rest = lookup k ops in if eq_ℤ k' k then some v else rest

-- `set`, and an assignment to a map.
unfoldable pub set : ℤ → OptValue → Options → Options
set k v [] = (k, v) ∷ []
set k v ((k', v') ∷ ops) =
    let rest = set k v ops in if eq_ℤ k' k then (k', v) ∷ ops else (k', v') ∷ rest

unfoldable pub sum_values : Options → ℕ
sum_values [] = 0
sum_values ((k, v) ∷ ops) = size_value v + sum_values ops

unfoldable pub size : Options → ℕ
size ops = 2 * length ops + sum_values ops

abbrev pub num_arg : Options → ℕ
num_arg ops = length ops
