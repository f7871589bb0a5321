-- ===== src/Sqlscript/Total.antt =====
-- sqlscript/scan.go: the loops end, and how far they advance.
use go_hdb.Prelude.{
  ℕ, zero, suc, ◌+◌, ◌≤◌, ◌<◌, ◌≡◌, refl, ap, Bool, true, false, ◌&&◌, ◌||◌, Option, none, some,
  inl, inr, [], ◌∷◌, arith, ltb, ◌==◌, if◌then◌else◌, length, length-drop, Bytes, Bool-cases,
}
use go_hdb.Sqlscript.{
  Scanner, Scanned, found, eof, stuck, ◌>>=◌, init, nl, cr, single_quote, double_quote, peek_rune,
  read_rune, append_rune, append_line, append_comment, scan_whitespace, index_byte, comment_line,
  scan_comment, starts_comment, closes, string_rune, scan_chars, scan_string, statement_rune,
  scan_statement, behind_comment, scan_script, split, scan,
}
use go_hdb.Sqlscript.Reads.{
  Shorter, Shorter-mono, Shorter-bind, read_rune-Shorter, peek_rune-Shorter, Ends, Ends-mono,
  scan_whitespace-Ends,
}

src-append_rune : (r : ℕ) (s : Scanner) → (append_rune r s).src ≡ s.src
unfolding append_rune
src-append_rune r s = refl

src-append_line : (p : Bytes) (s : Scanner) → (append_line p s).src ≡ s.src
unfolding append_line
src-append_line [] s = refl
src-append_line (b ∷ p) s = refl

src-append_comment : (p : Bytes) (s : Scanner) → (append_comment p s).src ≡ s.src
src-append_comment p s = elim s.comments as (λ c. (if c then append_line p s else s).src ≡ s.src) [
  | true ↦ src-append_line p s
  | false ↦ refl
]

closes-Shorter :
    (n : ℕ) (again : Scanner → Scanned Unit) (quote r : ℕ) (s : Scanner)
    → Ends n again
    → length s.src < n
    → Shorter (suc (length s.src)) (closes again quote r s)
closes-Shorter n again quote r s h small = elim (Bool-cases (r == quote)) [
  | inl e ↦ rw e (h s small)
  | inr e ↦ rw e (omega arith)
]

-- The branches of a rune outside a comment, which are those of `scanString` behind its quote.
Ends-append :
    {A : Type 0} (n r k : ℕ) (again : Scanner → Scanned A) (s : Scanner)
    → Ends n again
    → length s.src < n
    → length s.src < k
    → Shorter k (if r == nl || r == cr then again s else again (append_rune r s))
Ends-append n r k again s h small le =
    let e = src-append_rune r s in
    elim (Bool-cases (r == nl || r == cr)) [
      | inl t ↦ rw t (Ends-mono n k again s h small le)
      | inr t ↦ rw t (
          Ends-mono n k again (append_rune r s) h (omega (arith, ap length e))
            (omega (arith, ap length e)))
    ]

string_rune-Shorter :
    (n : ℕ) (again : Scanner → Scanned Unit) (quote r : ℕ) (s : Scanner)
    → Ends n again
    → length s.src < n
    → Shorter (suc (length s.src)) (string_rune again quote r s)
unfolding append_rune
string_rune-Shorter n again quote r s h small = elim (Bool-cases (r == quote)) [
  | inl e ↦ rw e (
      Shorter-bind (suc (length s.src)) (suc (length s.src)) (peek_rune (append_rune r s))
        (closes again quote) (peek_rune-Shorter (append_rune r s))
        (λ q t less.
          Shorter-mono (suc (length t.src)) (suc (length s.src)) (closes again quote q t)
            (omega arith) (closes-Shorter n again quote q t h (omega arith))))
  | inr e ↦ rw e (Ends-append n r (suc (length s.src)) again s h small (omega arith))
]

scan_chars-Ends : (quote n : ℕ) → Ends n (scan_chars n quote)
unfolding scan_chars
scan_chars-Ends quote zero s h = absurd (omega arith)
scan_chars-Ends quote (suc n) s h =
    Shorter-bind (length s.src) (suc (length s.src)) (read_rune s)
      (string_rune (scan_chars n quote) quote) (read_rune-Shorter s)
      (λ r t less.
        Shorter-mono (suc (length t.src)) (suc (length s.src))
          (string_rune (scan_chars n quote) quote r t) (omega arith)
          (string_rune-Shorter n (scan_chars n quote) quote r t (scan_chars-Ends quote n)
            (omega arith)))

scan_string-Ends : (quote n : ℕ) → Ends n (scan_string n quote)
unfolding scan_string
scan_string-Ends quote n s h =
    let e = src-append_rune quote s in
    Ends-mono n (suc (length s.src)) (scan_chars n quote) (append_rune quote s)
      (scan_chars-Ends quote n) (omega (arith, ap length e)) (omega (arith, ap length e))

statement_rune-Shorter :
    (n k r : ℕ) (string : ℕ → Scanner → Scanned Unit) (again : Scanner → Scanned Bool) (s : Scanner)
    → ((q : ℕ) → Ends (suc n) (string q))
    → Ends n again
    → length s.src < n
    → length s.src < k
    → Shorter k (statement_rune string again r s)
statement_rune-Shorter n k r string again s hs h small le =
    elim (Bool-cases (r == single_quote || r == double_quote)) [
      | inl e ↦ rw e (
          Shorter-bind (suc (length s.src)) k (string r s) (λ u t. again t) (hs r s (omega arith))
            (λ u t less. Ends-mono n k again t h (omega arith) (omega arith)))
      | inr e ↦ rw e (elim (Bool-cases (r == s.separator)) [
        | inl t ↦ rw t le
        | inr t ↦ rw t (Ends-append n r k again s h small le)
      ])
    ]

scan_statement-Ends : (n : ℕ) → Ends n (scan_statement n)
unfolding scan_statement
scan_statement-Ends zero s h = absurd (omega arith)
scan_statement-Ends (suc n) s h =
    Shorter-bind (length s.src) (suc (length s.src)) (read_rune s)
      (statement_rune (scan_string (suc n)) (scan_statement n)) (read_rune-Shorter s)
      (λ r t less.
        statement_rune-Shorter n (suc (length s.src)) r (scan_string (suc n)) (scan_statement n) t
          (λ q. scan_string-Ends q (suc n)) (scan_statement-Ends n) (omega arith) (omega arith))

-- A statement takes at least its separator.
scan_statement-Shorter :
    (n : ℕ) (s : Scanner) → length s.src < n → Shorter (length s.src) (scan_statement n s)
unfolding scan_statement
scan_statement-Shorter zero s h = absurd (omega arith)
scan_statement-Shorter (suc n) s h =
    Shorter-bind (length s.src) (length s.src) (read_rune s)
      (statement_rune (scan_string (suc n)) (scan_statement n)) (read_rune-Shorter s)
      (λ r t less.
        statement_rune-Shorter n (length s.src) r (scan_string (suc n)) (scan_statement n) t
          (λ q. scan_string-Ends q (suc n)) (scan_statement-Ends n) (omega arith) less)

-- A comment takes bytes; without one nothing changes.
abbrev Commented : Scanner → Scanned Bool → Type 0
Commented s (found true t) = length t.src < length s.src
Commented s (found false t) = length t.src ≤ length s.src
Commented s eof = Unit {0}
Commented s stuck = ⊥

comment_line-Commented :
    (o : Option ℕ) (s : Scanner) → 0 < length s.src → Commented s (comment_line o s)
comment_line-Commented (some i) s h = omega (arith, length-drop (i + 1) s.src)
comment_line-Commented none s h = elim (Bool-cases s.at_eof) [
  | inl e ↦ simp e h
  | inr e ↦ simp e tt
]

short-Commented : (s : Scanner) → Commented s (if s.at_eof then found false s else eof)
short-Commented s = elim (Bool-cases s.at_eof) [ inl e ↦ simp e (omega arith) | inr e ↦ simp e tt ]

scan_comment-Commented : (s : Scanner) → Commented s (scan_comment s)
unfolding scan_comment
scan_comment-Commented s = elim (Bool-cases (ltb (length s.src) 2)) [
  | inl e ↦ rw e (short-Commented s)
  | inr e ↦ rw e (elim (Bool-cases (starts_comment s.src)) [
    | inl t ↦ rw t (comment_line-Commented (index_byte nl s.src) s (ground (arith, e)))
    | inr t ↦ rw t (omega arith)
  ])
]

behind_comment-Shorter :
    (n k : ℕ) (again statement : Scanner → Scanned Bool) (s : Scanner) (x : Scanned Bool)
    → Commented s x
    → length s.src < suc n
    → length s.src ≤ k
    → ((t : Scanner) → length t.src < n → Shorter (length t.src) (again t))
    → ((t : Scanner) → length t.src < suc n → Shorter (length t.src) (statement t))
    → Shorter k (x >>= behind_comment again statement)
behind_comment-Shorter n k again statement s (found true t) h small le ha hs =
    elim t.comments as (λ c. Shorter k (again (if c then append_rune nl t else t))) [
      | true ↦
          let e = ap length (src-append_rune nl t) in
          Shorter-mono (length (append_rune nl t).src) k (again (append_rune nl t))
            (omega (arith, e)) (ha (append_rune nl t) (omega (arith, e)))
      | false ↦ Shorter-mono (length t.src) k (again t) (omega arith) (ha t (omega arith))
    ]
behind_comment-Shorter n k again statement s (found false t) h small le ha hs =
    Shorter-mono (length t.src) k (statement t) (omega arith) (hs t (omega arith))
behind_comment-Shorter n k again statement s eof h small le ha hs = tt
behind_comment-Shorter n k again statement s stuck h small le ha hs = elim h [ ]

scan_script-Shorter :
    (n : ℕ) (s : Scanner) → length s.src < n → Shorter (length s.src) (scan_script n s)
unfolding scan_script
scan_script-Shorter zero s h = absurd (omega arith)
scan_script-Shorter (suc n) s h =
    Shorter-bind (suc (length s.src)) (length s.src) (scan_whitespace (suc n) s)
      (λ u t. scan_comment t >>= behind_comment (scan_script n) (scan_statement (suc n)))
      (scan_whitespace-Ends (suc n) s h)
      (λ u t less.
        behind_comment-Shorter n (length s.src) (scan_script n) (scan_statement (suc n)) t
          (scan_comment t) (scan_comment-Commented t) (omega arith) (omega arith)
          (scan_script-Shorter n) (scan_statement-Shorter (suc n)))

-- What a split function may return on n bytes.
abbrev pub IsSplit : ℕ → Option (ℕ × Bytes) → Type 0
IsSplit n none = ⊥
IsSplit n (some (advance, token)) = (advance ≤ n) × (0 < length token → 0 < advance)

split-IsSplit : (n : ℕ) (x : Scanned Bool) → Shorter n x → IsSplit n (split n x)
split-IsSplit n (found true s) h = (omega arith, λ pos. omega arith)
split-IsSplit n (found false s) h = elim (Bool-cases s.at_eof) [
  | inl e ↦ rw e (omega arith, λ pos. omega arith)
  | inr e ↦ rw e (omega arith, λ pos. omega arith)
]
split-IsSplit n eof h = (omega arith, λ pos. omega arith)
split-IsSplit n stuck h = elim h [ ]

-- The scanner always comes to a result: it advances by no more bytes than there are, and by at least one
-- if it has a token.
pub scan-IsSplit : (s : Scanner) (p : Bytes) (at_eof : Bool) → IsSplit (length p) (scan s p at_eof)
unfolding scan
scan-IsSplit s p at_eof = elim (Bool-cases (at_eof && length p == 0)) [
  | inl e ↦ rw e (omega arith, λ pos. omega arith)
  | inr e ↦ rw e (
      split-IsSplit (length p) (scan_script (suc (length p)) (init p at_eof s))
        (scan_script-Shorter (suc (length p)) (init p at_eof s) (omega arith)))
]
