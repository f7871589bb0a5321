-- ===== src/Unicode/Cesu8/Transform/Rounds.antt =====
-- encoding.go: a text whose code has no room in dst is transformed in rounds.
use go_hdb.Prelude.{
  ℕ, zero, suc, ◌+◌, ◌-◌, ◌≤◌, ◌<◌, ◌≡◌, refl, sym, ap, ◌∙◌, true, false, inl, inr, Option, none,
  some, List, [], ◌∷◌, ◌++◌, arith, leb, ltb, length, Bytes, Bool-cases, All, ltb→lt,
}
use go_hdb.Prelude.Int.{ℤ, pos}
use go_hdb.Unicode.Utf8.{rune_self}
use go_hdb.Unicode.Cesu8.RoundTrip.{IsRune}
use go_hdb.Unicode.Cesu8.Transform.{
  Handler, Failure, short_dst, returned, Codec, Transformed, transform_loop,
}
use go_hdb.Unicode.Cesu8.Transform.Loop.{text, ReadsAt, Reads, one_lem, many_lem}
use mathlib.Core.List.{append_assoc, append-nil}

-- The transformation ended, or dst has no more room.
abbrev pub Continues : {E : Type 0} → Option (Failure E) → Type 0
Continues none = Unit
Continues (some short_dst) = Unit
Continues _ = ⊥

module _ {E : Type 0} (c : Codec) (handler : Handler E) (dst : ℕ) (src : Bytes) where
  -- From a text rs, of which out has been written: the rest is left, and the others are written.
  pub record Part (from : ℤ → Bytes) (rs : List ℕ) (out : Bytes) (t : Transformed E) : Type 0 where
    pub rest : List ℕ
    pub front : Bytes
    pub new : Bytes
    pub err : Option (Failure E)
    pub runes : All IsRune rest
    pub fewer : length rest ≤ length rs
    pub taken : text from rs ≡ front ++ text from rest
    pub wrote : text c.encode_rune rs ≡ new ++ text c.encode_rune rest
    pub result : t ≡ returned (out ++ new) (length src - length (text from rest)) err
    pub goes_on : Continues err

  step_lem :
      (from : ℤ → Bytes) (n r : ℕ) (out rest : Bytes)
      → Reads c from
      → IsRune r
      → length out + length (c.encode_rune (pos r)) ≤ dst
      → transform_loop c handler dst src true (suc n) out (from (pos r) ++ rest)
        ≡ transform_loop c handler dst src true n (out ++ c.encode_rune (pos r)) rest
  step_lem from n r out rest ok h room = elim (Bool-cases (ltb r 128)) [
    | inl t ↦
        let small = ltb→lt r 128 t in
        let g = ok.ascii_to r small in
        rw (ok.ascii_from r small, g)
          (one_lem c handler dst src n r out rest small (omega (arith, room, ap length g)))
    | inr t ↦
        many_lem c handler dst src n r out (from (pos r)) rest (ok.reads r h (ground (arith, t)))
          (ok.len r h) room
  ]

  short_many :
      (n r : ℕ) (out p rest : Bytes)
      → ReadsAt c r p
      → c.rune_len (pos r) ≡ pos (length (c.encode_rune (pos r)))
      → dst < length out + length (c.encode_rune (pos r))
      → transform_loop c handler dst src true (suc n) out (p ++ rest)
        ≡ returned out (length src - length (p ++ rest)) (some short_dst)
  unfolding transform_loop
  short_many n r out [] rest h e room = absurd h
  short_many n r out (b ∷ q) rest (h, reads) e room =
      let t : ltb b rune_self ≡ false = ground (arith, h) in
      let u : ltb dst (length out + length (c.encode_rune (pos r))) ≡ true = ground (arith, room) in
      rw (t, reads rest, e, u) refl

  short_one :
      (n r : ℕ) (out rest : Bytes)
      → r < 128
      → dst < length out + 1
      → transform_loop c handler dst src true (suc n) out (r ∷ rest)
        ≡ returned out (length src - length (r ∷ rest)) (some short_dst)
  unfolding transform_loop
  short_one n r out rest h room =
      let t : ltb r rune_self ≡ true = ground (arith, h) in
      let u : leb dst (length out) ≡ true = ground (arith, room) in rw (t, u) refl

  short_lem :
      (from : ℤ → Bytes) (n r : ℕ) (out rest : Bytes)
      → Reads c from
      → IsRune r
      → dst < length out + length (c.encode_rune (pos r))
      → transform_loop c handler dst src true (suc n) out (from (pos r) ++ rest)
        ≡ returned out (length src - length (from (pos r) ++ rest)) (some short_dst)
  short_lem from n r out rest ok h room = elim (Bool-cases (ltb r 128)) [
    | inl t ↦
        let small = ltb→lt r 128 t in
        rw (ok.ascii_from r small)
          (short_one n r out rest small (omega (arith, room, ap length (ok.ascii_to r small))))
    | inr t ↦
        short_many n r out (from (pos r)) rest (ok.reads r h (ground (arith, t))) (ok.len r h) room
  ]

  -- A rune is written before a part.
  then_part :
      (from : ℤ → Bytes) (r : ℕ) (rs : List ℕ) (out : Bytes) (t t' : Transformed E)
      → t ≡ t'
      → Part from rs (out ++ c.encode_rune (pos r)) t'
      → Part from (r ∷ rs) out t
  then_part from r rs out t t' e p = record {
    rest = p.rest;
    front = from (pos r) ++ p.front;
    new = c.encode_rune (pos r) ++ p.new;
    err = p.err;
    runes = p.runes;
    fewer = omega (arith, p.fewer);
    taken = ap (λ (q : Bytes). from (pos r) ++ q) p.taken ∙ simp append_assoc refl;
    wrote = ap (λ (q : Bytes). c.encode_rune (pos r) ++ q) p.wrote ∙ simp append_assoc refl;
    result = e ∙ p.result ∙ simp append_assoc refl;
    goes_on = p.goes_on;
  }

  part_lem :
      (from : ℤ → Bytes) (n : ℕ) (rs : List ℕ) (out : Bytes)
      → Reads c from
      → All IsRune rs
      → length rs ≤ n
      → Part from rs out (transform_loop c handler dst src true n out (text from rs))
  unfolding transform_loop
  part_lem from n [] out ok all h = record {
    rest = [];
    front = [];
    new = [];
    err = none;
    runes = tt;
    fewer = omega arith;
    taken = refl;
    wrote = refl;
    result = rw (append-nil out) (ap (λ (k : ℕ). returned out k none) (omega arith));
    goes_on = tt;
  }
  part_lem from zero (r ∷ rs) out ok all h = absurd (omega arith)
  part_lem from (suc n) (r ∷ rs) out ok (hr, all) h =
      elim (Bool-cases (ltb dst (length out + length (c.encode_rune (pos r))))) [
        | inl t ↦ record {
          rest = r ∷ rs;
          front = [];
          new = [];
          err = some short_dst;
          runes = (hr, all);
          fewer = omega arith;
          taken = refl;
          wrote = refl;
          result =
              short_lem from n r out (text from rs) ok hr (ltb→lt _ _ t)
              ∙ ap
                  (λ (q : Bytes).
                    returned q (length src - length (from (pos r) ++ text from rs))
                      (some short_dst))
                  (sym (append-nil out));
          goes_on = tt;
        }
        | inr t ↦
            then_part from r rs out _ _
              (step_lem from n r out (text from rs) ok hr (ground (arith, t)))
              (part_lem from n rs (out ++ c.encode_rune (pos r)) ok all (omega arith))
      ]

  -- A text with room for its first rune: that one is not in the rest.
  pub record Round (from : ℤ → Bytes) (r : ℕ) (rs : List ℕ) (t : Transformed E) : Type 0 where
    pub part : Part from (r ∷ rs) [] t
    pub less : length part.rest ≤ length rs

  pub round_lem :
      (from : ℤ → Bytes) (n r : ℕ) (rs : List ℕ)
      → Reads c from
      → IsRune r
      → All IsRune rs
      → length rs ≤ n
      → length (c.encode_rune (pos r)) ≤ dst
      → Round from r rs (transform_loop c handler dst src true (suc n) [] (text from (r ∷ rs)))
  unfolding then_part
  round_lem from n r rs ok hr all h room =
      let p = part_lem from n rs (c.encode_rune (pos r)) ok all h in
      record {
        part =
            then_part from r rs [] _ _
              (step_lem from n r [] (text from rs) ok hr (omega (arith, room))) p;
        less = p.fewer;
      }
