-- ===== src/Sqlscript/Literal.antt =====
-- sqlscript/scan.go: what `scanString` takes of ASCII text.
use go_hdb.Prelude.{
  ℕ, zero, suc, ◌+◌, ◌≤◌, ◌<◌, ◌≡◌, ◌≢◌, refl, Bool, true, false, ◌⊎◌, ◌||◌, some, List, [], ◌∷◌,
  ◌++◌, arith, ◌==◌, if◌then◌else◌, length, Bytes, All, Bool-cases, inl, inr,
}
use go_hdb.Unicode.Utf8.{encode_rune, encode_valid}
use go_hdb.Sqlscript.{
  Scanner, found, nl, cr, single_quote, double_quote, next_rune, peek_rune, read_rune, append_rune,
  scan_chars, scan_string,
}
use mathlib.Core.List.{append_assoc}

-- Without line ends.
abbrev pub strip : Bytes → Bytes
strip [] = []
strip (c ∷ p) = let rest = strip p in if c == nl || c == cr then rest else c ∷ rest

-- What the scanner takes a text for: bytes outside of literals, literals with their quotes, and literals
-- whose closing quote is doubled.
pub data Piece : Type 0 where
  char : ℕ → Piece
  literal : ℕ → Bytes → Piece
  doubled : ℕ → Bytes → Piece

abbrev pub print : List Piece → Bytes
print [] = []
print (char c ∷ ps) = c ∷ print ps
print (literal q body ∷ ps) = q ∷ body ++ q ∷ print ps
print (doubled q body ∷ ps) = q ∷ body ++ q ∷ q ∷ print ps

-- The text without line ends.
abbrev pub kept : List Piece → Bytes
kept [] = []
kept (char c ∷ ps) = strip (c ∷ []) ++ kept ps
kept (literal q body ∷ ps) = q ∷ (strip body ++ q ∷ kept ps)
kept (doubled q body ∷ ps) = q ∷ (strip body ++ q ∷ q ∷ kept ps)

abbrev pub IsQuote : ℕ → Type 0
IsQuote c = (c ≡ single_quote) ⊎ (c ≡ double_quote)

abbrev pub head_or : ℕ → Bytes → ℕ
head_or d [] = d
head_or d (c ∷ p) = c

abbrev pub InLiteral : ℕ → ℕ → Type 0
InLiteral q c = (c < 128) × (c ≢ q)

-- ASCII, no separator outside a literal, and no quote directly behind a literal with that quote.
abbrev pub IsPieces : ℕ → List Piece → Type 0
IsPieces sep [] = Unit {0}
IsPieces sep (char c ∷ ps) =
    (c < 128) × (c ≢ sep) × (c ≢ single_quote) × (c ≢ double_quote) × IsPieces sep ps
IsPieces sep (literal q body ∷ ps) =
    IsQuote q
    × All (InLiteral q) body
    × (head_or sep (print ps) < 128)
    × (head_or sep (print ps) ≢ q)
    × IsPieces sep ps
IsPieces sep (doubled q body ∷ ps) =
    IsQuote q
    × All (InLiteral q) body
    × (head_or sep (print ps) < 128)
    × (head_or sep (print ps) ≢ q)
    × IsPieces sep ps

pub ≢→== : (a b : ℕ) → a ≢ b → (a == b) ≡ false
≢→== a b h = ground arith

pub ==_self : (a : ℕ) → (a == a) ≡ true
==_self a = ground arith

module _ (sep : ℕ) (comments at_eof : Bool) where
  abbrev pub state : Bytes → Bytes → Scanner
  state p token = record {
    separator = sep;
    comments = comments;
    src = p;
    at_eof = at_eof;
    token = token;
  }

  next-ascii : (c : ℕ) (p : Bytes) → c < 128 → next_rune (c ∷ p) ≡ some (c, 1)
  unfolding next_rune
  next-ascii c p h = ground arith

  pub read-ascii :
      (c : ℕ) (p token : Bytes)
      → c < 128
      → read_rune (state (c ∷ p) token) ≡ found c (state p token)
  unfolding read_rune
  read-ascii c p token h = rw (next-ascii c p h) refl

  pub peek-ascii :
      (c : ℕ) (p token : Bytes)
      → c < 128
      → peek_rune (state (c ∷ p) token) ≡ found c (state (c ∷ p) token)
  unfolding peek_rune
  peek-ascii c p token h = rw (next-ascii c p h) refl

  pub append-ascii :
      (c : ℕ) (p token : Bytes)
      → c < 128
      → append_rune c (state p token) ≡ state p (token ++ c ∷ [])
  unfolding append_rune encode_rune encode_valid
  append-ascii c p token h = ground arith

  -- A part of a literal is appended, to which `closing` gives what comes behind its closing quote.
  scan_body_lem :
      (n k q : ℕ) (body p token : Bytes) (close : Bytes) (t : Bytes)
      → length body + k ≤ n
      → All (InLiteral q) body
      → ((m : ℕ) (token : Bytes)
          → k ≤ m
          → scan_chars m q (state p token) ≡ found tt (state t (token ++ close)))
      → scan_chars n q (state (body ++ p) token)
        ≡ found tt (state t (token ++ (strip body ++ close)))
  unfolding scan_chars
  scan_body_lem n k q [] p token close t h all closing = closing n token (omega arith)
  scan_body_lem zero k q (b ∷ body) p token close t h all closing = absurd (omega arith)
  scan_body_lem (suc n) k q (b ∷ body) p token close t h ((hb, bq), all) closing =
      rw (read-ascii b (body ++ p) token hb, ≢→== b q bq)
        (elim (Bool-cases (b == nl || b == cr)) [
          | inl e ↦ rw e (scan_body_lem n k q body p token close t (omega arith) all closing)
          | inr e ↦
              rw
                (
                  e,
                  append-ascii b (body ++ p) token hb,
                  scan_body_lem n k q body p (token ++ b ∷ []) close t (omega arith) all closing,
                )
                (simp append_assoc)
        ])

  close_lem :
      (m q c : ℕ) (p token : Bytes)
      → q < 128
      → ((token : Bytes) → peek_rune (state p token) ≡ found c (state p token))
      → c ≢ q
      → scan_chars (suc m) q (state (q ∷ p) token) ≡ found tt (state p (token ++ q ∷ []))
  unfolding scan_chars
  close_lem m q c p token hq hc ne =
      rw
        (
          read-ascii q p token hq,
          ==_self q,
          append-ascii q p token hq,
          hc (token ++ q ∷ []),
          ≢→== c q ne,
        )
        refl

  -- Two quotes are taken for one that closes the literal.
  close_twice_lem :
      (m q c : ℕ) (p token : Bytes)
      → q < 128
      → ((token : Bytes) → peek_rune (state p token) ≡ found c (state p token))
      → c ≢ q
      → scan_chars (suc (suc m)) q (state (q ∷ q ∷ p) token)
        ≡ found tt (state p (token ++ q ∷ q ∷ []))
  unfolding scan_chars
  close_twice_lem m q c p token hq hc ne =
      rw
        (
          read-ascii q (q ∷ p) token hq,
          ==_self q,
          append-ascii q (q ∷ p) token hq,
          peek-ascii q p (token ++ q ∷ []) hq,
          ==_self q,
          close_lem m q c p (token ++ q ∷ []) hq hc ne,
        )
        (simp append_assoc)

  pub closing :
      (m q c : ℕ) (p token : Bytes)
      → 1 ≤ m
      → q < 128
      → ((token : Bytes) → peek_rune (state p token) ≡ found c (state p token))
      → c ≢ q
      → scan_chars m q (state (q ∷ p) token) ≡ found tt (state p (token ++ q ∷ []))
  closing zero q c p token h hq hc ne = absurd (omega arith)
  closing (suc m) q c p token h hq hc ne = close_lem m q c p token hq hc ne

  pub closing_twice :
      (m q c : ℕ) (p token : Bytes)
      → 2 ≤ m
      → q < 128
      → ((token : Bytes) → peek_rune (state p token) ≡ found c (state p token))
      → c ≢ q
      → scan_chars m q (state (q ∷ q ∷ p) token) ≡ found tt (state p (token ++ q ∷ q ∷ []))
  closing_twice zero q c p token h hq hc ne = absurd (omega arith)
  closing_twice (suc zero) q c p token h hq hc ne = absurd (omega arith)
  closing_twice (suc (suc m)) q c p token h hq hc ne = close_twice_lem m q c p token hq hc ne

  pub scan_string_lem :
      (n k q : ℕ) (body p token : Bytes) (close : Bytes) (t : Bytes)
      → length body + k ≤ n
      → q < 128
      → All (InLiteral q) body
      → ((m : ℕ) (token : Bytes)
          → k ≤ m
          → scan_chars m q (state p token) ≡ found tt (state t (token ++ close)))
      → scan_string n q (state (body ++ p) token)
        ≡ found tt (state t (token ++ q ∷ (strip body ++ close)))
  unfolding scan_string
  scan_string_lem n k q body p token close t h hq all closing =
      rw
        (
          append-ascii q (body ++ p) token hq,
          scan_body_lem n k q body p (token ++ q ∷ []) close t h all closing,
        )
        (simp append_assoc)
