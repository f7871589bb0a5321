-- ===== src/Sqlscript/Statement.antt =====
-- sqlscript/scan.go: what `scanStatement` takes of ASCII text.
use go_hdb.Prelude.{
  ℕ, zero, suc, ◌<◌, ◌≡◌, ◌≢◌, refl, Bool, true, false, ◌||◌, List, [], ◌∷◌, ◌++◌, arith, ◌==◌,
  length, length-append, Bytes, Bool-cases, inl, inr,
}
use go_hdb.Sqlscript.{found, nl, cr, single_quote, double_quote, peek_rune, scan_statement}
use mathlib.Core.List.{append_assoc, append-nil}
use go_hdb.Sqlscript.Literal.{
  strip, Piece, char, literal, doubled, print, kept, IsQuote, head_or, IsPieces, ≢→==, ==_self,
  state, read-ascii, peek-ascii, append-ascii, closing, closing_twice, scan_string_lem,
}

module _ (sep : ℕ) (comments at_eof : Bool) where
  -- The first rune behind a literal.
  pub peek-print :
      (ps : List Piece) (rest token : Bytes)
      → sep < 128
      → head_or sep (print ps) < 128
      → peek_rune (state sep comments at_eof (print ps ++ sep ∷ rest) token)
        ≡ found (head_or sep (print ps)) (state sep comments at_eof (print ps ++ sep ∷ rest) token)
  peek-print [] rest token hs h = peek-ascii sep comments at_eof sep rest token hs
  peek-print (char c ∷ ps) rest token hs h =
      peek-ascii sep comments at_eof c (print ps ++ sep ∷ rest) token h
  peek-print (literal q body ∷ ps) rest token hs h =
      peek-ascii sep comments at_eof q ((body ++ q ∷ print ps) ++ sep ∷ rest) token h
  peek-print (doubled q body ∷ ps) rest token hs h =
      peek-ascii sep comments at_eof q ((body ++ q ∷ q ∷ print ps) ++ sep ∷ rest) token h

  quote-lt : (q : ℕ) → IsQuote q → q < 128
  quote-lt q (inl e) = omega arith
  quote-lt q (inr e) = omega arith

  is_quote : (q : ℕ) → IsQuote q → (q == single_quote || q == double_quote) ≡ true
  is_quote q (inl e) = rw e refl
  is_quote q (inr e) = rw e refl

  not_quote :
      (q : ℕ)
      → q ≢ single_quote
      → q ≢ double_quote
      → (q == single_quote || q == double_quote) ≡ false
  not_quote q h k = ground arith

  pub scan_statement_lem :
      (n : ℕ) (ps : List Piece) (rest token : Bytes)
      → length (print ps) < n
      → sep < 128
      → (sep == single_quote || sep == double_quote) ≡ false
      → IsPieces sep ps
      → scan_statement n (state sep comments at_eof (print ps ++ sep ∷ rest) token)
        ≡ found true (state sep comments at_eof rest (token ++ kept ps))
  unfolding scan_statement
  scan_statement_lem zero ps rest token h hs nq all = absurd (omega arith)
  scan_statement_lem (suc n) [] rest token h hs nq all =
      rw (read-ascii sep comments at_eof sep rest token hs, nq, ==_self sep) (simp append-nil)
  scan_statement_lem (suc n) (char c ∷ ps) rest token h hs nq (hc, ns, n1, n2, all) =
      rw
        (
          read-ascii sep comments at_eof c (print ps ++ sep ∷ rest) token hc,
          not_quote c n1 n2,
          ≢→== c sep ns,
        )
        (elim (Bool-cases (c == nl || c == cr)) [
          | inl e ↦ rw e (scan_statement_lem n ps rest token (omega arith) hs nq all)
          | inr e ↦
              rw
                (
                  e,
                  append-ascii sep comments at_eof c (print ps ++ sep ∷ rest) token hc,
                  scan_statement_lem n ps rest (token ++ c ∷ []) (omega arith) hs nq all,
                )
                (simp append_assoc)
        ])
  scan_statement_lem (suc n) (literal q body ∷ ps) rest token h hs nq (iq, hb, hh, hn, all) =
      let e = length-append {0} body (q ∷ print ps) in
      let behind = print ps ++ sep ∷ rest in
      let k = quote-lt q iq in
      rw
        (
          append_assoc body (q ∷ print ps) (sep ∷ rest),
          read-ascii sep comments at_eof q (body ++ q ∷ behind) token k,
          is_quote q iq,
          scan_string_lem sep comments at_eof (suc n) 1 q body (q ∷ behind) token (q ∷ []) behind
              (omega (arith, e)) k hb
              (λ m t le.
                closing sep comments at_eof m q (head_or sep (print ps)) behind t le k
                  (λ t. peek-print ps rest t hs hh) hn),
          scan_statement_lem n ps rest (token ++ q ∷ (strip body ++ q ∷ [])) (omega (arith, e)) hs
              nq all,
        )
        (simp append_assoc)
  scan_statement_lem (suc n) (doubled q body ∷ ps) rest token h hs nq (iq, hb, hh, hn, all) =
      let e = length-append {0} body (q ∷ q ∷ print ps) in
      let behind = print ps ++ sep ∷ rest in
      let k = quote-lt q iq in
      rw
        (
          append_assoc body (q ∷ q ∷ print ps) (sep ∷ rest),
          read-ascii sep comments at_eof q (body ++ q ∷ q ∷ behind) token k,
          is_quote q iq,
          scan_string_lem sep comments at_eof (suc n) 2 q body (q ∷ q ∷ behind) token (q ∷ q ∷ [])
              behind (omega (arith, e)) k hb
              (λ m t le.
                closing_twice sep comments at_eof m q (head_or sep (print ps)) behind t le k
                  (λ t. peek-print ps rest t hs hh) hn),
          scan_statement_lem n ps rest (token ++ q ∷ (strip body ++ q ∷ q ∷ [])) (omega (arith, e))
              hs nq all,
        )
        (simp append_assoc)
