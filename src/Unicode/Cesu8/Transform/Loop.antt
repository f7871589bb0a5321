-- ===== src/Unicode/Cesu8/Transform/Loop.antt =====
-- encoding.go: the loop over a text that its codec reads.
use go_hdb.Prelude.{
  ℕ, zero, suc, ◌+◌, ◌≤◌, ◌<◌, ◌≡◌, refl, sym, ap, true, false, inl, inr, none, List, [], ◌∷◌, ◌++◌,
  arith, leb, ltb, length, length-append, drop-append, Bytes, Bool-cases, All, ltb→lt,
}
use go_hdb.Prelude.Int.{ℤ, pos}
use go_hdb.Unicode.Utf8.{rune_self}
use go_hdb.Unicode.Cesu8.RoundTrip.{IsRune}
use go_hdb.Unicode.Cesu8.Transform.{Handler, returned, Codec, transform_loop}
use mathlib.Core.List.{append_assoc, append-nil}

-- The code of a text.
abbrev pub text : (ℤ → Bytes) → List ℕ → Bytes
text code [] = []
text code (r ∷ rs) = code (pos r) ++ text code rs

-- A rune that is no ASCII is read as it was written by `from`.
abbrev pub ReadsAt : Codec → ℕ → Bytes → Type 0
ReadsAt c r [] = ⊥
ReadsAt c r (b ∷ q) =
    (128 ≤ b) × ((rest : Bytes) → c.decode ((b ∷ q) ++ rest) ≡ ((r, length (b ∷ q)), false))

pub record Reads (c : Codec) (from : ℤ → Bytes) : Type 0 where
  pub ascii_from : (r : ℕ) → r < 128 → from (pos r) ≡ r ∷ []
  pub ascii_to : (r : ℕ) → r < 128 → c.encode_rune (pos r) ≡ r ∷ []
  pub reads : (r : ℕ) → IsRune r → 128 ≤ r → ReadsAt c r (from (pos r))
  pub len : (r : ℕ) → IsRune r → c.rune_len (pos r) ≡ pos (length (c.encode_rune (pos r)))

length-ReadsAt : (c : Codec) (r : ℕ) (p : Bytes) → ReadsAt c r p → 1 ≤ length p
length-ReadsAt c r [] h = absurd h
length-ReadsAt c r (b ∷ q) h = omega arith

length-from :
    (c : Codec) (from : ℤ → Bytes) (r : ℕ) → Reads c from → IsRune r → 1 ≤ length (from (pos r))
length-from c from r ok h = elim (Bool-cases (ltb r 128)) [
  | inl t ↦ rw (ok.ascii_from r (ltb→lt r 128 t)) (omega arith)
  | inr t ↦ length-ReadsAt c r (from (pos r)) (ok.reads r h (ground (arith, t)))
]

pub length-text :
    (c : Codec) (from : ℤ → Bytes) (rs : List ℕ)
    → Reads c from
    → All IsRune rs
    → length rs ≤ length (text from rs)
length-text c from [] ok all = omega arith
length-text c from (r ∷ rs) ok (h, all) = omega (
  arith,
  length-from c from r ok h,
  length-text c from rs ok all,
  length-append {0} (from (pos r)) (text from rs),
)

module _ {E : Type 0} (c : Codec) (handler : Handler E) (dst : ℕ) (src : Bytes) where
  pub one_lem :
      (n r : ℕ) (out rest : Bytes)
      → r < 128
      → length out + 1 ≤ dst
      → transform_loop c handler dst src true (suc n) out (r ∷ rest)
        ≡ transform_loop c handler dst src true n (out ++ r ∷ []) rest
  unfolding transform_loop
  one_lem n r out rest h room =
      let t : ltb r rune_self ≡ true = ground (arith, h) in
      let u : leb dst (length out) ≡ false = ground (arith, room) in rw (t, u) refl

  pub many_lem :
      (n r : ℕ) (out p rest : Bytes)
      → ReadsAt c r p
      → c.rune_len (pos r) ≡ pos (length (c.encode_rune (pos r)))
      → length out + length (c.encode_rune (pos r)) ≤ dst
      → transform_loop c handler dst src true (suc n) out (p ++ rest)
        ≡ transform_loop c handler dst src true n (out ++ c.encode_rune (pos r)) rest
  unfolding transform_loop
  many_lem n r out [] rest h e room = absurd h
  many_lem n r out (b ∷ q) rest (h, reads) e room =
      let t : ltb b rune_self ≡ false = ground (arith, h) in
      let u : ltb dst (length out + length (c.encode_rune (pos r))) ≡ false =
        ground (arith, room) in
      rw (t, reads rest, e, u, drop-append q rest) refl

  pub text_lem :
      (from : ℤ → Bytes) (n : ℕ) (rs : List ℕ) (out : Bytes)
      → Reads c from
      → All IsRune rs
      → length rs ≤ n
      → length out + length (text c.encode_rune rs) ≤ dst
      → transform_loop c handler dst src true n out (text from rs)
        ≡ returned (out ++ text c.encode_rune rs) (length src) none
  unfolding transform_loop
  text_lem from n [] out ok all h room = rw (append-nil out) refl
  text_lem from zero (r ∷ rs) out ok all h room = absurd (omega arith)
  text_lem from (suc n) (r ∷ rs) out ok (hr, all) h room =
      let code = c.encode_rune (pos r) in
      let e = length-append {0} code (text c.encode_rune rs) in
      let f = length-append {0} out code in
      elim (Bool-cases (ltb r 128)) [
        | inl t ↦
            let small = ltb→lt r 128 t in
            let g = ok.ascii_to r small in
            rw
              (
                ok.ascii_from r small,
                one_lem n r out (text from rs) small (omega (arith, room, e, ap length g)),
                sym g,
                text_lem from n rs (out ++ code) ok all (omega arith) (omega (arith, room, e, f)),
              )
              (simp append_assoc)
        | inr t ↦
            rw
              (
                many_lem n r out (from (pos r)) (text from rs) (ok.reads r hr (ground (arith, t)))
                    (ok.len r hr) (omega (arith, room, e)),
                text_lem from n rs (out ++ code) ok all (omega arith) (omega (arith, room, e, f)),
              )
              (simp append_assoc)
      ]
