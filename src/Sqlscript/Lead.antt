-- ===== src/Sqlscript/Lead.antt =====
-- sqlscript/scan.go: white space and comments in front of a statement.
use go_hdb.Prelude.{
  ℕ, zero, suc, ◌+◌, ◌-◌, ◌≤◌, ◌<◌, ◌≡◌, ◌≢◌, refl, ap, Bool, true, false, ◌&&◌, some, List, [],
  ◌∷◌, ◌++◌, arith, ltb, ◌==◌, if◌then◌else◌, length, take, drop, take-append, Bytes, All,
  Bool-cases, inl, inr,
}
use go_hdb.Unicode.Utf8.{is_space}
use go_hdb.Sqlscript.{
  Scanner, Scanned, found, nl, minus, peek_rune, append_rune, append_line, ends_in_cr,
  scan_whitespace, index_byte, starts_comment, scan_comment, behind_comment,
}
use go_hdb.Sqlscript.Literal.{Piece, print, head_or, state, read-ascii, peek-ascii, append-ascii}
use mathlib.Core.List.{append_assoc, append-nil}

-- White space, and behind it a comment without its dashes and its line end.
pub record Lead : Type 0 where
  pub blanks : Bytes
  pub line : Bytes

abbrev pub dashed : Bytes → Bytes
dashed line = minus ∷ minus ∷ line

abbrev pub lead_text : List Lead → Bytes
lead_text [] = []
lead_text (l ∷ ls) = l.blanks ++ (dashed l.line ++ nl ∷ lead_text ls)

abbrev pub IsBlank : ℕ → Type 0
IsBlank c = (c < 128) × (is_space c ≡ true)

abbrev pub IsLead : Lead → Type 0
IsLead l = All IsBlank l.blanks × All (λ (c : ℕ). c ≢ nl) l.line

-- A comment as it is kept: without the carriage return in front of its line end.
abbrev pub kept_line : Bytes → Bytes
kept_line p = take (if ends_in_cr p then length p - 1 else length p) p

abbrev pub kept_leads : Bool → List Lead → Bytes
kept_leads comments [] = []
kept_leads comments (l ∷ ls) =
    let rest = kept_leads comments ls in
    if comments then kept_line (minus ∷ minus ∷ l.line) ++ nl ∷ rest else rest

take-append_le {ℓ} :
    {A : Type ℓ} (n : ℕ) (xs ys : List A) → n ≤ length xs → take n (xs ++ ys) ≡ take n xs
take-append_le zero xs ys h = refl
take-append_le (suc n) [] ys h = absurd (omega arith)
take-append_le (suc n) (x ∷ xs) ys h = ap (◌∷◌ x) (take-append_le n xs ys (omega arith))

index_byte-append :
    (line rest : Bytes)
    → All (λ (c : ℕ). c ≢ nl) line
    → index_byte nl (line ++ nl ∷ rest) ≡ some (length line)
index_byte-append [] rest h = refl
index_byte-append (c ∷ line) rest (hc, h) = rw (index_byte-append line rest h) (ground arith)

pub minus_blank : is_space minus ≡ false
unfolding is_space
minus_blank = refl

pub lead_assoc :
    (l : Lead) (ls : List Lead) (tail : Bytes)
    → lead_text (l ∷ ls) ++ tail ≡ l.blanks ++ (dashed l.line ++ nl ∷ (lead_text ls ++ tail))
lead_assoc l ls tail = simp append_assoc

-- A text of pieces that is neither white space nor a comment at its start.
abbrev pub Starts : ℕ → List Piece → Bytes → Type 0
Starts sep ps rest =
    (0 < length (print ps))
    × (head_or sep (print ps) < 128)
    × (is_space (head_or sep (print ps)) ≡ false)
    × (starts_comment (print ps ++ sep ∷ rest) ≡ false)

pub keep_assoc :
    (sep : ℕ) (at_eof : Bool) (end : Bytes) (comments : Bool) (token line rest text : Bytes)
    → ◌≡◌ {A = Scanned Bool}
        (found true (
          state sep comments at_eof end
            ((token ++ (if comments then line ++ nl ∷ [] else [])) ++ (rest ++ text))))
        (found true (
          state sep comments at_eof end
            (token ++ ((if comments then line ++ nl ∷ rest else rest) ++ text))))
keep_assoc sep at_eof end true token line rest text = simp append_assoc
keep_assoc sep at_eof end false token line rest text = simp append_assoc

pub not_empty : (at_eof : Bool) (n : ℕ) → 0 < n → (at_eof && n == 0) ≡ false
not_empty at_eof n h = ground arith

long : (n : ℕ) → ltb (suc (suc n)) 2 ≡ false
long n = ground arith

pub behind : (n : ℕ) → suc (suc n) + 1 ≡ suc (suc (suc n))
behind n = omega arith

drop_line : (line rest : Bytes) → drop (suc (length line)) (line ++ nl ∷ rest) ≡ rest
drop_line [] rest = refl
drop_line (c ∷ line) rest = drop_line line rest

module _ (sep : ℕ) (comments at_eof : Bool) where
  pub whitespace_lem :
      (n c : ℕ) (blanks p token : Bytes)
      → length blanks < n
      → All IsBlank blanks
      → peek_rune (state sep comments at_eof p token) ≡ found c (state sep comments at_eof p token)
      → is_space c ≡ false
      → scan_whitespace n (state sep comments at_eof (blanks ++ p) token)
        ≡ found tt (state sep comments at_eof p token)
  unfolding scan_whitespace
  whitespace_lem zero c blanks p token h all hp hc = absurd (omega arith)
  whitespace_lem (suc n) c [] p token h all hp hc = rw (hp, hc) refl
  whitespace_lem (suc n) c (b ∷ blanks) p token h ((hb, bs), all) hp hc =
      rw
        (
          peek-ascii sep comments at_eof b (blanks ++ p) token hb,
          bs,
          read-ascii sep comments at_eof b (blanks ++ p) token hb,
        )
        (whitespace_lem n c blanks p token (omega arith) all hp hc)

  append_line_lem :
      (c : ℕ) (line rest token : Bytes)
      → append_line (c ∷ line) (state sep comments at_eof (c ∷ line ++ rest) token)
        ≡ state sep comments at_eof (c ∷ line ++ rest) (token ++ kept_line (c ∷ line))
  unfolding append_line
  append_line_lem c line rest token = elim (Bool-cases (ends_in_cr (c ∷ line))) [
    | inl e ↦ rw (e, take-append_le (length (c ∷ line) - 1) (c ∷ line) rest (omega arith)) refl
    | inr e ↦ rw (e, take-append_le (length (c ∷ line)) (c ∷ line) rest (omega arith)) refl
  ]

  pub comment_lem :
      (line rest token : Bytes)
      → All (λ (c : ℕ). c ≢ nl) line
      → scan_comment (state sep comments at_eof (dashed line ++ nl ∷ rest) token)
        ≡ found true (
            state sep comments at_eof rest
              (if comments then token ++ kept_line (dashed line) else token))
  unfolding scan_comment
  comment_lem line rest token h =
      rw
        (
          long (length (line ++ nl ∷ rest)),
          index_byte-append line rest h,
          behind (length line),
          take-append line (nl ∷ rest),
          drop_line line rest,
          append_line_lem minus (minus ∷ line) (nl ∷ rest) token,
        )
        (ground arith)

  pub no_comment_lem :
      (p token : Bytes)
      → 1 < length p
      → starts_comment p ≡ false
      → scan_comment (state sep comments at_eof p token)
        ≡ found false (state sep comments at_eof p token)
  unfolding scan_comment
  no_comment_lem p token h ns = rw ns (ground (arith, h))

  -- The newline that stands for the end of a comment.
  pub behind_lem :
      (again statement : Scanner → Scanned Bool) (line rest token : Bytes)
      → behind_comment again statement true (
          state sep comments at_eof rest
            (if comments then token ++ kept_line (dashed line) else token))
        ≡ again (
            state sep comments at_eof rest
              (token ++ kept_leads comments (record { blanks = []; line = line } ∷ [])))
  behind_lem again statement line rest token =
      elim comments
        as (λ c.
          again (
            if c
            then append_rune nl (
                state sep comments at_eof rest
                  (if c then token ++ kept_line (dashed line) else token))
            else state sep comments at_eof rest
                (if c then token ++ kept_line (dashed line) else token))
          ≡ again (
              state sep comments at_eof rest
                (token ++ kept_leads c (record { blanks = []; line = line } ∷ [])))) [
                  | true ↦
                      rw
                        (append-ascii sep comments at_eof nl rest (token ++ kept_line (dashed line))
                          (omega arith))
                        (simp append_assoc)
                  | false ↦ simp append-nil
                ]
