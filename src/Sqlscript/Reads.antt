-- ===== src/Sqlscript/Reads.antt =====
-- sqlscript/scan.go: every read takes bytes, and white space ends.
use go_hdb.Prelude.{
  ℕ, zero, suc, ◌≤◌, ◌<◌, Option, none, some, inl, inr, [], ◌∷◌, arith, ltb, length, length-drop,
  Bytes, Bool-cases, ltb→lt,
}
use go_hdb.Unicode.Utf8.{decode_rune, rune_self, is_space}
use go_hdb.Sqlscript.{
  Scanner, Scanned, found, eof, stuck, ◌>>=◌, init, nl, cr, single_quote, double_quote, valid_rune,
  next_rune, peek_rune, read_rune, append_rune, append_line, append_comment, skip_space,
  scan_whitespace, index_byte, comment_line, scan_comment, starts_comment, closes, string_rune,
  scan_chars, scan_string, statement_rune, scan_statement, behind_comment, scan_script, split, scan,
}

-- Fuel was enough, and fewer than k bytes are left.
abbrev pub Shorter : {A : Type 0} → ℕ → Scanned A → Type 0
Shorter k (found a s) = length s.src < k
Shorter k eof = Unit {0}
Shorter k stuck = ⊥

pub Shorter-mono : {A : Type 0} (j k : ℕ) (x : Scanned A) → j ≤ k → Shorter j x → Shorter k x
Shorter-mono j k (found a s) h x = omega arith
Shorter-mono j k eof h x = tt
Shorter-mono j k stuck h x = x

pub Shorter-bind :
    {A B : Type 0} (j k : ℕ) (x : Scanned A) (f : A → Scanner → Scanned B)
    → Shorter j x
    → ((a : A) (s : Scanner) → length s.src < j → Shorter k (f a s))
    → Shorter k (x >>= f)
Shorter-bind j k (found a s) f h step = step a s h
Shorter-bind j k eof f h step = tt
Shorter-bind j k stuck f h step = elim h [ ]

-- A rune that is there has a width.
abbrev HasWidth : Bytes → Option (ℕ × ℕ) → Type 0
HasWidth p none = Unit {0}
HasWidth p (some (r, width)) = (0 < width) × (0 < length p)

valid_rune-HasWidth : (b : ℕ) (p : Bytes) (x : ℕ × ℕ) → HasWidth (b ∷ p) (valid_rune x)
valid_rune-HasWidth b p (r, width) = elim (Bool-cases (ltb 1 width)) [
  | inl e ↦ rw e (ground (arith, ltb→lt 1 width))
  | inr e ↦ rw e tt
]

next_rune-HasWidth : (p : Bytes) → HasWidth p (next_rune p)
unfolding next_rune
next_rune-HasWidth [] = tt
next_rune-HasWidth (b ∷ p) = elim (Bool-cases (ltb b rune_self)) [
  | inl e ↦ rw e (omega arith)
  | inr e ↦ rw e (valid_rune-HasWidth b p (decode_rune (b ∷ p)))
]

read-Shorter :
    (o : Option (ℕ × ℕ)) (s : Scanner)
    → HasWidth s.src o
    → Shorter (length s.src) (go_hdb.Sqlscript.read o s)
read-Shorter none s h = tt
read-Shorter (some (r, width)) s h = omega (arith, length-drop width s.src)

pub read_rune-Shorter : (s : Scanner) → Shorter (length s.src) (read_rune s)
unfolding read_rune
read_rune-Shorter s = read-Shorter (next_rune s.src) s (next_rune-HasWidth s.src)

peeked-Shorter :
    (o : Option (ℕ × ℕ)) (s : Scanner) → Shorter (suc (length s.src)) (go_hdb.Sqlscript.peeked o s)
peeked-Shorter none s = tt
peeked-Shorter (some (r, width)) s = omega arith

pub peek_rune-Shorter : (s : Scanner) → Shorter (suc (length s.src)) (peek_rune s)
unfolding peek_rune
peek_rune-Shorter s = peeked-Shorter (next_rune s.src) s

-- A method that ends on fewer than n bytes.
abbrev pub Ends : {A : Type 0} → ℕ → (Scanner → Scanned A) → Type 0
Ends n f = (s : Scanner) → length s.src < n → Shorter (suc (length s.src)) (f s)

pub Ends-mono :
    {A : Type 0} (n k : ℕ) (f : Scanner → Scanned A) (s : Scanner)
    → Ends n f
    → length s.src < n
    → length s.src < k
    → Shorter k (f s)
Ends-mono n k f s h small le = Shorter-mono (suc (length s.src)) k (f s) (omega arith) (h s small)

skip_space-Shorter :
    (n : ℕ) (again : Scanner → Scanned Unit) (r : ℕ) (s : Scanner)
    → Ends n again
    → length s.src < suc n
    → Shorter (suc (length s.src)) (skip_space again r s)
skip_space-Shorter n again r s h small = elim (Bool-cases (is_space r)) [
  | inl e ↦ rw e (
      Shorter-bind (length s.src) (suc (length s.src)) (read_rune s) (λ r t. again t)
        (read_rune-Shorter s)
        (λ r t less. Ends-mono n (suc (length s.src)) again t h (omega arith) (omega arith)))
  | inr e ↦ rw e (omega arith)
]

pub scan_whitespace-Ends : (n : ℕ) → Ends n (scan_whitespace n)
unfolding scan_whitespace
scan_whitespace-Ends zero s h = absurd (omega arith)
scan_whitespace-Ends (suc n) s h =
    Shorter-bind (suc (length s.src)) (suc (length s.src)) (peek_rune s)
      (skip_space (scan_whitespace n)) (peek_rune-Shorter s)
      (λ r t less.
        Shorter-mono (suc (length t.src)) (suc (length s.src)) (skip_space (scan_whitespace n) r t)
          (omega arith)
          (skip_space-Shorter n (scan_whitespace n) r t (scan_whitespace-Ends n) (omega arith)))
