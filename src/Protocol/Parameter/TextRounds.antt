-- ===== src/Protocol/Parameter/TextRounds.antt =====
-- encode.go: `CESU8Bytes` writes the CESU-8 of a text, in rounds of what the scratch buffer has room for.
use mathlib.Core.Path.{subst}
use mathlib.Core.List.{append_assoc, append-nil}
use go_hdb.Prelude.{
  ℕ, zero, suc, ◌+◌, ◌-◌, ◌≤◌, ◌≡◌, refl, sym, ap, ◌∙◌, true, Option, none, some, List, [], ◌∷◌,
  ◌++◌, arith, length, length-append, drop, drop-append, Bytes, All,
}
use go_hdb.Prelude.Int.{pos}
use go_hdb.Encoding.Encoder
use go_hdb.Encoding.Encoder.{Encoder, write_scratch_size}
use go_hdb.Unicode.Utf8
use go_hdb.Unicode.Utf8.{encode_valid}
use go_hdb.Unicode.Cesu8
use go_hdb.Unicode.Cesu8.RoundTrip.{IsRune, is_valid-IsRune}
use go_hdb.Unicode.Cesu8.Transform.{
  Failure, short_dst, returned, encoder, transform, transform_loop,
}
use go_hdb.Unicode.Cesu8.Transform.Loop.{text, length-text}
use go_hdb.Unicode.Cesu8.Transform.Text.{encoder-Reads}
use go_hdb.Unicode.Cesu8.Transform.Rounds.{Continues, Round, round_lem}
use go_hdb.Protocol.Parameter.Fields.{Written, done, Runtime, transformed, cesu8_bytes}

length-encode_rune : (r : ℕ) → IsRune r → length (Cesu8.encode_rune (pos r)) ≤ 6
unfolding Cesu8.encode_rune Utf8.encode_rune encode_valid
length-encode_rune r h = ground (arith, is_valid-IsRune r h)

add_sub : (a b : ℕ) → a + b - b ≡ a
add_sub a b = omega arith

drop_taken : (p front rest : Bytes) → p ≡ front ++ rest → drop (length p - length rest) p ≡ rest
drop_taken p front rest e =
    rw (e, length-append front rest, add_sub (length front) (length rest)) (drop-append front rest)

module _ (rt : Runtime) where
  again_lem :
      (again : Bytes → Encoder → Written) (p out : Bytes) (n : ℕ) (e : Encoder)
      (err : Option (Failure Bytes))
      → Continues err
      → transformed rt again p e (returned out n err) ≡ again (drop n p) (Encoder.bytes out e)
  again_lem again p out n e none h = refl
  again_lem again p out n e (some short_dst) h = refl
  again_lem again p out n e (some _) h = absurd h

  cons_lem :
      (fuel : ℕ) (p : Bytes) (e : Encoder)
      → 1 ≤ length p
      → cesu8_bytes rt (suc fuel) p e
        ≡ transformed rt
            (cesu8_bytes rt fuel)
            p
            e
            (transform encoder rt.handler write_scratch_size p true)
  unfolding cesu8_bytes
  cons_lem fuel [] e h = absurd (omega arith)
  cons_lem fuel (b ∷ p) e h = refl

  -- The first round of a text that is not empty.
  transform-Round :
      (r : ℕ) (rs : List ℕ)
      → IsRune r
      → All IsRune rs
      → let p = text Utf8.encode_rune (r ∷ rs) in
        Round encoder rt.handler write_scratch_size p Utf8.encode_rune r rs
          (transform encoder rt.handler write_scratch_size p true)
  unfolding transform
  transform-Round r rs h all =
      let p = text Utf8.encode_rune (r ∷ rs) in
      let enough = length-text encoder Utf8.encode_rune (r ∷ rs) encoder-Reads (h, all) in
      let one : suc (length p - 1) ≡ length p = omega (arith, enough) in
      subst
        (λ (n : ℕ).
          Round encoder rt.handler write_scratch_size p Utf8.encode_rune r rs
            (transform_loop encoder rt.handler write_scratch_size p true n [] p))
        one
        (round_lem encoder rt.handler write_scratch_size p Utf8.encode_rune (length p - 1) r rs
          encoder-Reads h all (omega (arith, enough)) (omega (arith, length-encode_rune r h)))

  rounds_lem :
      (fuel : ℕ) (rs : List ℕ) (e : Encoder)
      → All IsRune rs
      → length rs ≤ fuel
      → cesu8_bytes rt fuel (text Utf8.encode_rune rs) e ≡ done (e ++ text Cesu8.encode_rune rs)
  unfolding cesu8_bytes Encoder.bytes
  rounds_lem fuel [] e all h = ap done (sym (append-nil e))
  rounds_lem zero (r ∷ rs) e all h = absurd (omega arith)
  rounds_lem (suc fuel) (r ∷ rs) e (hr, all) h =
      let p = text Utf8.encode_rune (r ∷ rs) in
      let enough = length-text encoder Utf8.encode_rune (r ∷ rs) encoder-Reads (hr, all) in
      let round = transform-Round r rs hr all in
      let part = round.part in
      let left = text Utf8.encode_rune part.rest in
      let e' = Encoder.bytes part.new e in
      cons_lem fuel p e (omega (arith, enough))
      ∙ ap (transformed rt (cesu8_bytes rt fuel) p e) part.result
      ∙ again_lem (cesu8_bytes rt fuel) p part.new (length p - length left) e part.err part.goes_on
      ∙ ap (λ (q : Bytes). cesu8_bytes rt fuel q e') (drop_taken p part.front left part.taken)
      ∙ rounds_lem fuel part.rest e' part.runes (omega (arith, round.less, h))
      ∙ ap done (
          append_assoc e part.new (text Cesu8.encode_rune part.rest)
          ∙ ap (λ (q : Bytes). e ++ q) (sym part.wrote))

  -- For the UTF-8 of any runes, of any length, `CESU8Bytes` with the transformer of package cesu8 ends,
  -- within as many rounds as there are bytes, and writes the CESU-8 of the runes, whatever the error
  -- handler.
  pub cesu8_bytes-text :
      (rs : List ℕ) (e : Encoder)
      → All IsRune rs
      → cesu8_bytes rt (length (text Utf8.encode_rune rs)) (text Utf8.encode_rune rs) e
        ≡ done (e ++ text Cesu8.encode_rune rs)
  cesu8_bytes-text rs e all =
      rounds_lem (length (text Utf8.encode_rune rs)) rs e all
        (length-text encoder Utf8.encode_rune rs encoder-Reads all)
