-- ===== src/Protocol/Headers/NumArg.antt =====
-- `setNumArg` and `numArg` of headers.go: the argument count of a part, in one of two fields.
use go_hdb.Prelude.{ℕ, ◌-◌, ◌^◌, ◌≤◌, ◌<◌, ◌≡◌, Option, none, some, arith, leb, if◌then◌else◌}
use go_hdb.Prelude.Int.{ℤ, pos, eq_ℤ, convert, IsInt16, convert-pos, IsInt32}
use go_hdb.Protocol.Headers.{PartHeader, big_num_arg_ind}

-- "maximum number of arguments %d exceeded"
pub data NumArgError : Type 0 where
  max_num_arg_exceeded : ℕ → NumArgError

abbrev pub max_int16 : ℕ
max_int16 = 2 ^ 15 - 1

-- `MaxNumArg`
abbrev pub max_num_arg : ℕ
max_num_arg = 2 ^ 31 - 1

-- numArg is a length, so it is not negative.
unfoldable pub set_num_arg : ℕ → PartHeader → Option NumArgError × PartHeader
set_num_arg num_arg h =
    if leb num_arg max_int16
    then (
      none,
      record h { argument_count = convert (2 ^ 15) (pos num_arg); big_argument_count = pos 0 },
    )
    else if leb num_arg max_num_arg
    then (
      none,
      record h {
        argument_count = big_num_arg_ind;
        big_argument_count = convert (2 ^ 31) (pos num_arg);
      },
    )
    else (some (max_num_arg_exceeded num_arg), h)

unfoldable pub num_arg : PartHeader → ℤ
num_arg h = if eq_ℤ h.argument_count big_num_arg_ind then h.big_argument_count else h.argument_count

-- Up to MaxNumArg there is no error, the count that was set is the count that is read, and the two
-- fields fit their types.
pub num_arg-set_num_arg :
    (n : ℕ) (h : PartHeader)
    → n ≤ max_num_arg
    → ((set_num_arg n h).0 ≡ none)
      × (num_arg (set_num_arg n h).1 ≡ pos n)
      × IsInt16 (set_num_arg n h).1.argument_count
      × IsInt32 (set_num_arg n h).1.big_argument_count
unfolding set_num_arg num_arg
num_arg-set_num_arg n h k = ground (arith, convert-pos (2 ^ 15) n, convert-pos (2 ^ 31) n)

-- Beyond MaxNumArg there is an error and the header is left alone.
pub set_num_arg_too_many :
    (n : ℕ) (h : PartHeader)
    → max_num_arg < n
    → set_num_arg n h ≡ (some (max_num_arg_exceeded n), h)
unfolding set_num_arg
set_num_arg_too_many n h k = ground arith
