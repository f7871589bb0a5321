-- ===== src/Sqlscript.antt =====
-- sqlscript/scan.go: the split function that cuts a script into statements. The scanner's state is passed
-- on; its field `data` is `src` here. The one error of its methods is io.EOF, after which `scan` reads
-- nothing of the state: `eof`. Each loop runs on fuel, one more than the bytes that are left, and every
-- round reads a rune; `stuck` is what comes out if the fuel is spent.
pub mod Reads
pub mod Literal
pub mod Total
pub mod Statement
pub mod Lead
pub mod Script
use go_hdb.Prelude.{
  ℕ, zero, suc, ◌+◌, ◌-◌, Bool, true, false, ◌&&◌, ◌||◌, not, Option, none, some, List, [], ◌∷◌,
  ◌++◌, leb, ltb, ◌==◌, if◌then◌else◌, length, take, drop, Bytes,
}
use go_hdb.Prelude.Int.{pos}
use go_hdb.Unicode.Utf8.{decode_rune, encode_rune, rune_self, is_space}

abbrev pub nl : ℕ
nl = b'\n'

abbrev pub cr : ℕ
cr = b'\r'

abbrev pub minus : ℕ
minus = b'-'

abbrev pub single_quote : ℕ
single_quote = b'\''

abbrev pub double_quote : ℕ
double_quote = b'"'

abbrev pub default_separator : ℕ
default_separator = b';'

pub record Scanner : Type 0 where
  pub separator : ℕ
  pub comments : Bool
  pub src : Bytes
  pub at_eof : Bool
  pub token : Bytes

pub data Scanned (A : Type 0) : Type 0 where
  found : A → Scanner → Scanned A
  eof : Scanned A
  stuck : Scanned A

infixl 10 ◌>>=◌
abbrev pub ◌>>=◌ : {A B : Type 0} → Scanned A → (A → Scanner → Scanned B) → Scanned B
found a s >>= k = k a s
eof >>= k = eof
stuck >>= k = stuck

abbrev pub init : Bytes → Bool → Scanner → Scanner
init p at_eof s = record s { src = p; at_eof = at_eof; token = [] }

-- A rune of one byte is the byte; where `DecodeRune` has no longer one, there is none.
abbrev pub valid_rune : ℕ × ℕ → Option (ℕ × ℕ)
valid_rune (r, width) = if ltb 1 width then some (r, width) else none

unfoldable pub next_rune : Bytes → Option (ℕ × ℕ)
next_rune [] = none
next_rune (b ∷ p) = if ltb b rune_self then some (b, 1) else valid_rune (decode_rune (b ∷ p))

abbrev pub peeked : Option (ℕ × ℕ) → Scanner → Scanned ℕ
peeked none s = eof
peeked (some (r, width)) s = found r s

unfoldable pub peek_rune : Scanner → Scanned ℕ
peek_rune s = peeked (next_rune s.src) s

abbrev pub read : Option (ℕ × ℕ) → Scanner → Scanned ℕ
read none s = eof
read (some (r, width)) s = found r (record s { src = drop width s.src })

unfoldable pub read_rune : Scanner → Scanned ℕ
read_rune s = read (next_rune s.src) s

unfoldable pub append_rune : ℕ → Scanner → Scanner
append_rune r s = record s { token = s.token ++ encode_rune (pos r) }

abbrev pub ends_in_cr : Bytes → Bool
ends_in_cr [] = false
ends_in_cr (b ∷ []) = b == cr
ends_in_cr (b ∷ c ∷ p) = ends_in_cr (c ∷ p)

-- The line is a prefix of the scanner's bytes, from which the copy is made.
unfoldable pub append_line : Bytes → Scanner → Scanner
append_line [] s = s
append_line (b ∷ p) s =
    let l = length (b ∷ p) in
    let n = if ends_in_cr (b ∷ p) then l - 1 else l in record s { token = s.token ++ take n s.src }

abbrev pub skip_space : (Scanner → Scanned Unit) → ℕ → Scanner → Scanned Unit
skip_space again r s = if is_space r then read_rune s >>= (λ r s. again s) else found tt s

unfoldable pub scan_whitespace : ℕ → Scanner → Scanned Unit
scan_whitespace zero s = stuck
scan_whitespace (suc n) s = peek_rune s >>= skip_space (scan_whitespace n)

-- bytes.IndexByte.
abbrev pub index_byte : ℕ → Bytes → Option ℕ
index_byte c [] = none
index_byte c (b ∷ p) =
    if b == c then some 0 else elim (index_byte c p) [ none ↦ none | some i ↦ some (suc i) ]

abbrev pub append_comment : Bytes → Scanner → Scanner
append_comment line s = if s.comments then append_line line s else s

-- Behind the two dashes that start a comment.
abbrev pub comment_line : Option ℕ → Scanner → Scanned Bool
comment_line (some i) s =
    found true (record (append_comment (take i s.src) s) { src = drop (i + 1) s.src })
comment_line none s =
    if s.at_eof then found true (record (append_comment s.src s) { src = [] }) else eof

abbrev pub starts_comment : Bytes → Bool
starts_comment [] = false
starts_comment (b ∷ []) = false
starts_comment (b ∷ c ∷ p) = b == minus && c == minus

unfoldable pub scan_comment : Scanner → Scanned Bool
scan_comment s =
    if ltb (length s.src) 2
    then if s.at_eof then found false s else eof
    else if not (starts_comment s.src)
    then found false s
    else comment_line (index_byte nl s.src) s

abbrev pub closes : (Scanner → Scanned Unit) → ℕ → ℕ → Scanner → Scanned Unit
closes again quote r s = if r == quote then again s else found tt s

abbrev pub string_rune : (Scanner → Scanned Unit) → ℕ → ℕ → Scanner → Scanned Unit
string_rune again quote r s =
    if r == quote
    then peek_rune (append_rune r s) >>= closes again quote
    else if r == nl || r == cr
    then again s
    else again (append_rune r s)

-- The loop of `scanString`.
unfoldable pub scan_chars : ℕ → ℕ → Scanner → Scanned Unit
scan_chars zero quote s = stuck
scan_chars (suc n) quote s = read_rune s >>= string_rune (scan_chars n quote) quote

unfoldable pub scan_string : ℕ → ℕ → Scanner → Scanned Unit
scan_string n quote s = scan_chars n quote (append_rune quote s)

abbrev pub statement_rune :
    (ℕ → Scanner → Scanned Unit) → (Scanner → Scanned Bool) → ℕ → Scanner → Scanned Bool
statement_rune string again r s =
    if r == single_quote || r == double_quote
    then string r s >>= (λ u s. again s)
    else if r == s.separator
    then found true s
    else if r == nl || r == cr
    then again s
    else again (append_rune r s)

unfoldable pub scan_statement : ℕ → Scanner → Scanned Bool
scan_statement zero s = stuck
scan_statement (suc n) s = read_rune s >>= statement_rune (scan_string (suc n)) (scan_statement n)

abbrev pub behind_comment :
    (Scanner → Scanned Bool) → (Scanner → Scanned Bool) → Bool → Scanner → Scanned Bool
behind_comment again statement true s = again (if s.comments then append_rune nl s else s)
behind_comment again statement false s = statement s

-- `_scan`.
unfoldable pub scan_script : ℕ → Scanner → Scanned Bool
scan_script zero s = stuck
scan_script (suc n) s =
    scan_whitespace (suc n) s
    >>= (λ u s. scan_comment s >>= behind_comment (scan_script n) (scan_statement (suc n)))

-- How far to advance, and the token; a token that is nil is [], as bytes are only appended to it.
abbrev pub split : ℕ → Scanned Bool → Option (ℕ × Bytes)
split n (found true s) = some (n - length s.src, s.token)
split n (found false s) = some (if s.at_eof then n - length s.src else 0, [])
split n eof = some (0, [])
split n stuck = none

unfoldable pub scan : Scanner → Bytes → Bool → Option (ℕ × Bytes)
scan s p at_eof =
    let n = length p in
    if at_eof && n == 0 then some (0, []) else split n (scan_script (suc n) (init p at_eof s))

-- `ScanFunc`, and `Scan`.
unfoldable pub scan_func : ℕ → Bool → Bytes → Bool → Option (ℕ × Bytes)
scan_func separator comments =
    scan record { separator = separator; comments = comments; src = []; at_eof = false; token = [] }

unfoldable pub scan_default : Bytes → Bool → Option (ℕ × Bytes)
scan_default = scan_func default_separator false
