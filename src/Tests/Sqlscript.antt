-- ===== src/Tests/Sqlscript.antt =====
-- sqlscript: statements split from scripts.
use go_hdb.Prelude.{◌≡◌, refl, true, false, some, inl, List, [], ◌∷◌, ◌++◌, arith}
use go_hdb.Unicode.Utf8.{encode_rune, encode_valid, is_space}
use go_hdb.Sqlscript.{
  scan, scan_func, scan_default, single_quote, scan_script, scan_statement, scan_comment,
  scan_whitespace, append_rune, read_rune, peek_rune, next_rune, Scanner,
}
use go_hdb.Sqlscript.Total.{IsSplit, scan-IsSplit}
use go_hdb.Sqlscript.Literal.{Piece, char, literal, print}
use go_hdb.Sqlscript.Lead.{Lead, lead_text}
use go_hdb.Sqlscript.Script.{scan_func_lem, scan-doubled}

-- "a;b"
scan_two : scan_default (97 ∷ 59 ∷ 98 ∷ []) true ≡ some (2, 97 ∷ [])
unfolding scan_default scan_func scan scan_script scan_statement scan_comment scan_whitespace
    append_rune read_rune peek_rune next_rune encode_rune encode_valid is_space
scan_two = refl

-- The last statement is not followed by a separator: nothing is returned.
scan_last : scan_default (97 ∷ 98 ∷ []) true ≡ some (0, [])
unfolding scan_default scan_func scan scan_script scan_statement scan_comment scan_whitespace
    append_rune read_rune peek_rune next_rune encode_rune encode_valid is_space
scan_last = refl

abbrev a_scanner : Scanner
a_scanner = record { separator = 59; comments = true; src = []; at_eof = false; token = [] }

scan-IsSplit_example : IsSplit 3 (scan a_scanner (97 ∷ 59 ∷ 98 ∷ []) true)
scan-IsSplit_example = scan-IsSplit a_scanner (97 ∷ 59 ∷ 98 ∷ []) true

-- " --c\r\nx'y\nz';w" with comments.
abbrev a_lead : Lead
a_lead = record { blanks = 32 ∷ []; line = 99 ∷ 13 ∷ [] }

abbrev some_pieces : List Piece
some_pieces = char 120 ∷ literal single_quote (121 ∷ 10 ∷ 122 ∷ []) ∷ []

blank_space : is_space 32 ≡ true
unfolding is_space
blank_space = refl

letter_x : is_space 120 ≡ false
unfolding is_space
letter_x = refl

scan_func_example :
    scan_func 59 true
      (lead_text (a_lead ∷ []) ++ ([] ++ (print some_pieces ++ 59 ∷ 119 ∷ [])))
      false
    ≡ some (13, 45 ∷ 45 ∷ 99 ∷ 10 ∷ 120 ∷ 39 ∷ 121 ∷ 122 ∷ 39 ∷ [])
scan_func_example =
    scan_func_lem 59 true false (a_lead ∷ []) [] some_pieces (119 ∷ [])
      ((((omega arith, blank_space), tt), ((λ e. omega arith), ((λ e. omega arith), tt))), tt) tt
      (omega arith, omega arith, letter_x, refl) (omega arith) refl
      (
        omega arith,
        omega arith,
        omega arith,
        omega arith,
        (
          inl refl,
          (
            (omega arith, λ e. omega arith),
            ((omega arith, λ e. omega arith), ((omega arith, λ e. omega arith), tt)),
          ),
          omega arith,
          omega arith,
          tt,
        ),
      )

-- 'a'';b';
scan-doubled_example :
    scan_default (39 ∷ 97 ∷ 39 ∷ 39 ∷ 59 ∷ 98 ∷ 39 ∷ 59 ∷ []) true
    ≡ some (5, 39 ∷ 97 ∷ 39 ∷ 39 ∷ [])
scan-doubled_example =
    scan-doubled 39 (97 ∷ []) (98 ∷ []) true (inl refl) ((omega arith, omega arith), tt)
