-- ===== src/Protocol/Errors.antt =====
-- driver/internal/protocol/error.go: the errors that the database sends. The texts are formatting only.
use go_hdb.Prelude.{
  ℕ, zero, suc, ◌^◌, Bool, true, false, ◌&&◌, List, [], ◌∷◌, Option, none, some, ◌==◌,
  if◌then◌else◌, Outcome, ok, panic, map_ok, get_elem?, set, replicate, Bytes,
}
use go_hdb.Prelude.Int.{ℤ, pos, negsuc, pos_part, ◌+ℤ◌, convert, eq_ℤ}
use go_hdb.Encoding.Decoder.{Decoding, ◌>>=◌, pure, int8, int32, bytes, skip}
use go_hdb.Protocol.Padding.{pad_bytes}

pub record HdbError : Type 0 where
  pub error_code : ℤ
  pub error_position : ℤ
  pub error_text_length : ℤ
  pub error_level : ℤ
  pub sql_state : Bytes
  pub stmt_no : ℤ
  pub error_text : Bytes

-- errorLevelWarning is 0.
unfoldable pub is_warning : HdbError → Bool
is_warning e = eq_ℤ e.error_level (pos 0)

-- The embedded *HdbError is `current`.
pub record HdbErrors : Type 0 where
  pub only_warnings : Bool
  pub errs : List HdbError
  pub current : Option HdbError

-- `setStmtNo`; its index is never negative here. The embedded error is one of the list, so the new
-- number shows there too when it is the first.
unfoldable pub set_stmt_no : ℕ → ℤ → HdbErrors → HdbErrors
set_stmt_no idx stmt_no es = elim (get_elem? es.errs idx) [
  | none ↦ es
  | some e ↦ record es {
    errs = set es.errs idx (record e { stmt_no = stmt_no });
    current = if idx == 0 then some (record e { stmt_no = stmt_no }) else es.current;
  }
]

abbrev sql_state_size : ℕ
sql_state_size = 5

abbrev fix_length : ℤ
fix_length = pos 2

-- `make([]byte, n)` panics on a negative length; then `dec.Bytes`.
unfoldable pub make_text : ℤ → Decoding (Outcome Bytes)
make_text (pos n) = do text ← bytes (replicate n 0); pure (ok text)
make_text (negsuc n) = pure panic

-- One round of `decodeNumArg` up to the text.
unfoldable pub decode_error : Decoding (Outcome HdbError)
decode_error = do
  error_code ← int32
  error_position ← int32
  error_text_length ← int32
  error_level ← int8
  sql_state ← bytes (replicate sql_state_size 0)
  error_text ← make_text error_text_length
  pure (
      map_ok
        (λ text. record {
          error_code = error_code;
          error_position = error_position;
          error_text_length = error_text_length;
          error_level = error_level;
          sql_state = sql_state;
          stmt_no = pos 0;
          error_text = text;
        })
        error_text)

-- `int(fixLength + err.errorTextLength)`, an int32 sum.
abbrev text_size : HdbError → ℤ
text_size e = convert (2 ^ 31) (fix_length +ℤ e.error_text_length)

-- What follows an error: one byte more if it is the only one, else its padding.
unfoldable pub skip_behind : Bool → HdbError → Decoding (Unit {0})
skip_behind true e d = skip 1 d
skip_behind false e d =
    let pad = pad_bytes (text_size e) in if pad == 0 then (tt, d) else skip pad d

-- The loop of `decodeNumArg` over the errors that are left.
unfoldable pub decode_errors : Bool → ℕ → Decoding (Outcome (List HdbError))
decode_errors alone zero d = (ok [], d)
decode_errors alone (suc left) d =
    let (first, after) = decode_error d in
    elim first [
      | panic ↦ (panic, after)
      | ok e ↦
          (let (rest, end) = decode_errors alone left (skip_behind alone e after).1 in
            (map_ok (λ es. e ∷ es) rest, end))
    ]

-- `err.IsWarning()` of every error.
unfoldable pub all_warnings : List HdbError → Bool
unfolding is_warning
all_warnings [] = true
all_warnings (e ∷ es) = is_warning e && all_warnings es

-- The embedded error is set to the first, or kept.
abbrev first_or : Option HdbError → List HdbError → Option HdbError
first_or kept [] = kept
first_or kept (e ∷ es) = some e

-- `decodeNumArg`; a count that is not positive reads nothing. A lone error leaves the loop by `break`.
unfoldable pub decode_num_arg : HdbErrors → ℤ → Decoding (Outcome HdbErrors)
decode_num_arg es num_arg = do
  errs ← decode_errors (eq_ℤ num_arg (pos 1)) (pos_part num_arg)
  pure (
      map_ok
        (λ l. record { only_warnings = all_warnings l; errs = l; current = first_or es.current l })
        errs)
