-- ===== src/Protocol/Options/Access.antt =====
-- optionsparts.go: the options of a client context, of a connection and of a database connect info.
use go_hdb.Prelude.{
  ℕ, ◌^◌, ◌≡◌, refl, Bool, true, false, Option, none, some, [], Bytes, Outcome, ok, panic, map_ok,
  if◌then◌else◌, ◌∷◌, arith,
}
use go_hdb.Prelude.Int.{ℤ, pos, convert, eq_ℤ}
use go_hdb.Protocol.Options.{OptValue, boolean, integer, string, Options, lookup, set}

-- `get` into a variable that keeps its value v where there is no such key; an option of another type
-- panics. The Boolean says whether there is one.
abbrev pub to_string : Bytes → Option OptValue → Outcome (Bytes × Bool)
to_string v none = ok (v, false)
to_string v (some (string s)) = ok (s, true)
to_string v (some other) = panic

abbrev pub to_bool : Bool → Option OptValue → Outcome (Bool × Bool)
to_bool v none = ok (v, false)
to_bool v (some (boolean b)) = ok (b, true)
to_bool v (some other) = panic

abbrev pub to_int32 : ℤ → Option OptValue → Outcome (ℤ × Bool)
to_int32 v none = ok (v, false)
to_int32 v (some (integer i)) = ok (i, true)
to_int32 v (some other) = panic

unfoldable pub get_string : ℤ → Bytes → Options → Outcome (Bytes × Bool)
get_string k v ops = to_string v (lookup k ops)

unfoldable pub get_bool : ℤ → Bool → Options → Outcome (Bool × Bool)
get_bool k v ops = to_bool v (lookup k ops)

unfoldable pub get_int32 : ℤ → ℤ → Options → Outcome (ℤ × Bool)
get_int32 k v ops = to_int32 v (lookup k ops)

-- The methods `…OrZero`.
abbrev string_or_zero : ℤ → Options → Outcome Bytes
string_or_zero k ops = map_ok (λ (r : Bytes × Bool). r.0) (get_string k [] ops)

abbrev int_or_zero : ℤ → Options → Outcome ℤ
int_or_zero k ops = map_ok (λ (r : ℤ × Bool). r.0) (get_int32 k (pos 0) ops)

-- `ClientContext`.
unfoldable pub set_version : Bytes → Options → Options
set_version v = set (pos 1) (string v)

unfoldable pub set_type : Bytes → Options → Options
set_type v = set (pos 2) (string v)

unfoldable pub set_application_program : Bytes → Options → Options
set_application_program v = set (pos 3) (string v)

-- `ConnectOptions`.
abbrev co_client_locale : ℤ
co_client_locale = pos 3

abbrev co_database_name : ℤ
co_database_name = pos 45

unfoldable pub data_format_version2_or_zero : Options → Outcome ℤ
unfolding get_int32
data_format_version2_or_zero = int_or_zero (pos 23)

-- The int is converted to an int32.
unfoldable pub set_data_format_version2 : ℤ → Options → Options
set_data_format_version2 v = set (pos 23) (integer (convert (2 ^ 31) v))

unfoldable pub set_client_distribution_mode : ℕ → Options → Options
set_client_distribution_mode v = set (pos 15) (integer (pos v))

unfoldable pub set_select_for_update_supported : Bool → Options → Options
set_select_for_update_supported v = set (pos 14) (boolean v)

unfoldable pub database_name_or_zero : Options → Outcome Bytes
unfolding get_string
database_name_or_zero = string_or_zero co_database_name

unfoldable pub full_version_or_zero : Options → Outcome Bytes
unfolding get_string
full_version_or_zero = string_or_zero (pos 44)

unfoldable pub set_client_locale : Bytes → Options → Options
set_client_locale v = set co_client_locale (string v)

-- `DBConnectInfo`.
unfoldable pub set_database_name : Bytes → Options → Options
set_database_name v = set (pos 1) (string v)

unfoldable pub host_or_zero : Options → Outcome Bytes
unfolding get_string
host_or_zero = string_or_zero (pos 2)

unfoldable pub port_or_zero : Options → Outcome ℤ
unfolding get_int32
port_or_zero = int_or_zero (pos 3)

unfoldable pub is_connected_or_zero : Options → Outcome Bool
unfolding get_bool
is_connected_or_zero ops = map_ok (λ (r : Bool × Bool). r.0) (get_bool (pos 4) false ops)

eq-trans_ℤ : (a b c : ℤ) → eq_ℤ a b ≡ true → eq_ℤ a c ≡ eq_ℤ b c
eq-trans_ℤ (pos a) (pos b) (pos c) h = ground arith
eq-trans_ℤ a b c h = ground arith

-- An option that is set is found at its key; the others are as before.
pub lookup-set :
    (k j : ℤ) (v : OptValue) (ops : Options)
    → lookup j (set k v ops) ≡ (if eq_ℤ k j then some v else lookup j ops)
unfolding lookup set
lookup-set k j v [] = refl
lookup-set k j v ((k', v') ∷ ops) = ground (arith, lookup-set k j v ops, eq-trans_ℤ k' k j)
