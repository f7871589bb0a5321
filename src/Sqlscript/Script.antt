-- ===== src/Sqlscript/Script.antt =====
-- sqlscript/scan.go: the split as a whole.
use go_hdb.Prelude.{
  ℕ, zero, suc, ◌+◌, ◌<◌, ◌≡◌, ◌≢◌, refl, sym, ap, Bool, true, false, ◌||◌, some, List, [], ◌∷◌,
  ◌++◌, arith, ◌==◌, length, length-append, Bytes, All, inl, inr,
}
use go_hdb.Unicode.Utf8.{is_space}
use go_hdb.Sqlscript.{
  found, nl, minus, single_quote, double_quote, starts_comment, scan_statement, scan_script, scan,
  scan_func, scan_default, default_separator,
}
use go_hdb.Sqlscript.Literal.{
  Piece, doubled, strip, IsQuote, InLiteral, print, kept, head_or, IsPieces, state, peek-ascii,
}
use go_hdb.Sqlscript.Statement.{scan_statement_lem, peek-print}
use mathlib.Core.List.{append_assoc}
use go_hdb.Sqlscript.Lead.{
  Lead, dashed, lead_text, IsBlank, IsLead, kept_line, kept_leads, minus_blank, lead_assoc, Starts,
  keep_assoc, not_empty, whitespace_lem, comment_lem, no_comment_lem, behind_lem,
}

module _ (sep : ℕ) (comments at_eof : Bool) where
  script_lem :
      (n : ℕ) (ls : List Lead) (blanks : Bytes) (ps : List Piece) (rest token : Bytes)
      → length (lead_text ls) + length blanks + length (print ps) < n
      → All IsLead ls
      → All IsBlank blanks
      → Starts sep ps rest
      → sep < 128
      → (sep == single_quote || sep == double_quote) ≡ false
      → IsPieces sep ps
      → scan_script n
          (state sep comments at_eof (lead_text ls ++ (blanks ++ (print ps ++ sep ∷ rest))) token)
        ≡ found true (state sep comments at_eof rest (token ++ (kept_leads comments ls ++ kept ps)))
  unfolding scan_script
  script_lem zero ls blanks ps rest token h hl hb st hs nq hp = absurd (omega arith)
  script_lem (suc n) [] blanks ps rest token h hl hb (h0, h1, h2, h3) hs nq hp =
      let e = length-append {0} (print ps) (sep ∷ rest) in
      rw
        (
          whitespace_lem sep comments at_eof (suc n) (head_or sep (print ps)) blanks
              (print ps ++ sep ∷ rest) token (omega arith) hb
              (peek-print sep comments at_eof ps rest token hs h1) h2,
          no_comment_lem sep comments at_eof (print ps ++ sep ∷ rest) token (omega (arith, e)) h3,
        )
        (scan_statement_lem sep comments at_eof (suc n) ps rest token (omega arith) hs nq hp)
  script_lem (suc n) (l ∷ ls) blanks ps rest token h ((lb, ll), hl) hb st hs nq hp =
      let tail = blanks ++ (print ps ++ sep ∷ rest) in
      let one = kept_leads comments (record { blanks = []; line = l.line } ∷ []) in
      let e = length-append {0} l.blanks (dashed l.line ++ nl ∷ lead_text ls) in
      let f = length-append {0} l.line (nl ∷ lead_text ls) in
      rw
        (
          lead_assoc l ls tail,
          whitespace_lem sep comments at_eof (suc n) minus l.blanks
              (dashed l.line ++ nl ∷ (lead_text ls ++ tail)) token (omega (arith, e)) lb
              (peek-ascii sep comments at_eof minus
                (minus ∷ (l.line ++ nl ∷ (lead_text ls ++ tail))) token (omega arith))
              minus_blank,
          comment_lem sep comments at_eof l.line (lead_text ls ++ tail) token ll,
          behind_lem sep comments at_eof (scan_script n) (scan_statement (suc n)) l.line
              (lead_text ls ++ tail) token,
          script_lem n ls blanks ps rest (token ++ one) (omega (arith, e, f)) hl hb st hs nq hp,
        )
        (keep_assoc sep at_eof rest comments token (kept_line (dashed l.line))
          (kept_leads comments ls) (kept ps))

-- For an ASCII separator that is no quote, and a text of white space and comments in front of a statement
-- of ASCII, which is not empty, starts with neither white space nor a comment and has no quote directly
-- behind a literal with that quote: comments are skipped, or kept if `comments` is set; of the statement
-- the line ends are dropped; the text behind the separator is left.
pub scan_func_lem :
    (sep : ℕ) (comments at_eof : Bool) (ls : List Lead) (blanks : Bytes) (ps : List Piece)
    (rest : Bytes)
    → All IsLead ls
    → All IsBlank blanks
    → Starts sep ps rest
    → sep < 128
    → (sep == single_quote || sep == double_quote) ≡ false
    → IsPieces sep ps
    → scan_func sep comments (lead_text ls ++ (blanks ++ (print ps ++ sep ∷ rest))) at_eof
      ≡ some (
        length (lead_text ls) + length blanks + length (print ps) + 1,
        kept_leads comments ls ++ kept ps,
      )
unfolding scan_func scan
scan_func_lem sep comments at_eof ls blanks ps rest hl hb st hs nq hp =
    let p = lead_text ls ++ (blanks ++ (print ps ++ sep ∷ rest)) in
    let a = length-append {0} (lead_text ls) (blanks ++ (print ps ++ sep ∷ rest)) in
    let b = length-append {0} blanks (print ps ++ sep ∷ rest) in
    let c = length-append {0} (print ps) (sep ∷ rest) in
    rw
      (
        not_empty at_eof (length p) (omega (arith, a, b, c)),
        script_lem sep comments at_eof (suc (length p)) ls blanks ps rest []
            (omega (arith, a, b, c)) hl hb st hs nq hp,
      )
      (ap (λ (k : ℕ). some (k, kept_leads comments ls ++ kept ps)) (omega (arith, a, b, c)))

quote_separator : (q : ℕ) → IsQuote q → default_separator ≢ q
quote_separator q (inl e) = omega arith
quote_separator q (inr e) = omega arith

starts_other : (c : ℕ) (p : Bytes) → c ≢ minus → starts_comment (c ∷ p) ≡ false
starts_other c [] h = refl
starts_other c (d ∷ p) h = ground arith

quote_starts :
    (q : ℕ) (p rest : Bytes)
    → IsQuote q
    → (0 < suc (length p))
      × (q < 128)
      × (is_space q ≡ false)
      × (starts_comment ((q ∷ p) ++ default_separator ∷ rest) ≡ false)
unfolding is_space
quote_starts q p rest (inl e) = (
  omega arith,
  omega arith,
  rw e refl,
  starts_other q (p ++ default_separator ∷ rest) (omega arith),
)
quote_starts q p rest (inr e) = (
  omega arith,
  omega arith,
  rw e refl,
  starts_other q (p ++ default_separator ∷ rest) (omega arith),
)

-- A doubled quote inside a literal ends it for the scanner: a separator behind it, which is still inside
-- of the literal in SQL, cuts the statement.
pub scan-doubled :
    (q : ℕ) (body rest : Bytes) (at_eof : Bool)
    → IsQuote q
    → All (InLiteral q) body
    → scan_default
        (q ∷ (body ++ q ∷ q ∷ default_separator ∷ (rest ++ q ∷ default_separator ∷ [])))
        at_eof
      ≡ some (length body + 4, q ∷ (strip body ++ q ∷ q ∷ []))
unfolding scan_default
scan-doubled q body rest at_eof h hb =
    let tail = rest ++ q ∷ default_separator ∷ [] in
    let e = length-append {0} body (q ∷ q ∷ []) in
    rw
      (
        sym (append_assoc body (q ∷ q ∷ []) (default_separator ∷ tail)),
        scan_func_lem default_separator false at_eof [] [] (doubled q body ∷ []) tail tt tt
            (quote_starts q (body ++ q ∷ q ∷ []) tail h) (omega arith) refl
            (h, hb, omega arith, quote_separator q h, tt),
      )
      (ap (λ (k : ℕ). some (k, q ∷ (strip body ++ q ∷ q ∷ []))) (omega (arith, e)))
