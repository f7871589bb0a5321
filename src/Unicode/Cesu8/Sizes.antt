-- ===== src/Unicode/Cesu8/Sizes.antt =====
-- cesu8.go: `Size` and `StringSize` of the UTF-8 of runes are the length of their CESU-8.
use go_hdb.Prelude.{
  ℕ, zero, suc, ◌≤◌, ◌<◌, ◌≡◌, refl, ap, ◌∙◌, false, inl, inr, List, [], ◌∷◌, ◌++◌, arith, ltb,
  length, length-append, drop-append, Bytes, Bool-cases, All, ltb→lt,
}
use go_hdb.Prelude.Int.{ℤ, pos, ◌+ℤ◌, +ℤ-pos}
use go_hdb.Unicode.Utf8
use go_hdb.Unicode.Cesu8
use go_hdb.Unicode.Cesu8.{is_surrogate, size_loop, size, range_loop, string_size, size_of_string}
use go_hdb.Unicode.Cesu8.RoundTrip.{IsRune, rune_len-encode, is_surrogate-other}
use go_hdb.Unicode.Cesu8.Transform.{encoder}
use go_hdb.Unicode.Cesu8.Transform.Loop.{text, length-text}
use go_hdb.Unicode.Cesu8.Transform.Text.{
  utf8-one, utf8-two, utf8-three, utf8-four, read-two, read-three, read-four, three_no_surrogate,
  encoder-Reads,
}

-- The code p of a rune r before any rest: no surrogate, and it is read as r.
abbrev IsRead : ℕ → Bytes → Type 0
IsRead r [] = ⊥
IsRead r (b ∷ q) =
    (rest : Bytes)
    → (Utf8.decode_rune ((b ∷ q) ++ rest) ≡ (r, length (b ∷ q)))
      × (is_surrogate ((b ∷ q) ++ rest) ≡ false)

read-one : (r : ℕ) (rest : Bytes) → r < 128 → Utf8.decode_rune (r ∷ rest) ≡ (r, 1)
unfolding Utf8.decode_rune
read-one r rest h = ground arith

utf8-IsRead : (r : ℕ) → IsRune r → IsRead r (Utf8.encode_rune (pos r))
utf8-IsRead r h = elim (Bool-cases (ltb r 128)) [
  | inl t ↦
      let p = ltb→lt r 128 t in
      rw (utf8-one r p) (λ rest. (read-one r rest p, is_surrogate-other r rest (omega (arith, p))))
  | inr t ↦
      let k : 128 ≤ r = ground (arith, t) in
      elim (Bool-cases (ltb r 2048)) [
        | inl u ↦
            let p = ltb→lt r 2048 u in
            rw (utf8-two r k p)
              (λ rest. (read-two r rest k p, is_surrogate-other _ _ (omega (arith, p))))
        | inr u ↦
            let q : 2048 ≤ r = ground (arith, u) in
            elim (Bool-cases (ltb r 65536)) [
              | inl v ↦
                  let p = ltb→lt r 65536 v in
                  rw (utf8-three r q p h)
                    (λ rest. (read-three r rest q p h, three_no_surrogate r rest p h))
              | inr v ↦
                  let p : 65536 ≤ r = ground (arith, v) in
                  rw (utf8-four r p h)
                    (λ rest. (read-four r rest p h, is_surrogate-other _ _ (omega (arith, p))))
            ]
      ]
]

size_step :
    (n r : ℕ) (p rest : Bytes)
    → IsRead r p
    → size_loop (suc n) (p ++ rest) ≡ Cesu8.rune_len (pos r) +ℤ size_loop n rest
unfolding size_loop Cesu8.decode_rune
size_step n r [] rest h = absurd h
size_step n r (b ∷ q) rest h = rw ((h rest).1, (h rest).0, drop-append q rest) refl

range_step :
    (n r : ℕ) (p rest : Bytes)
    → IsRead r p
    → range_loop (suc n) (p ++ rest) ≡ pos r ∷ range_loop n rest
unfolding range_loop
range_step n r [] rest h = absurd h
range_step n r (b ∷ q) rest h = rw ((h rest).0, drop-append q rest) refl

add-length :
    (r : ℕ) (rs : List ℕ) (z : ℤ)
    → IsRune r
    → z ≡ pos (length (text Cesu8.encode_rune rs))
    → Cesu8.rune_len (pos r) +ℤ z ≡ pos (length (text Cesu8.encode_rune (r ∷ rs)))
add-length r rs z h e =
    rw
      (
        rune_len-encode r h,
        e,
        +ℤ-pos (length (Cesu8.encode_rune (pos r))) (length (text Cesu8.encode_rune rs)),
        length-append {0} (Cesu8.encode_rune (pos r)) (text Cesu8.encode_rune rs),
      )
      refl

size_loop-text :
    (n : ℕ) (rs : List ℕ)
    → All IsRune rs
    → length rs ≤ n
    → size_loop n (text Utf8.encode_rune rs) ≡ pos (length (text Cesu8.encode_rune rs))
unfolding size_loop
size_loop-text zero [] all h = refl
size_loop-text (suc n) [] all h = refl
size_loop-text zero (r ∷ rs) all h = absurd (omega arith)
size_loop-text (suc n) (r ∷ rs) (hr, all) h =
    size_step n r (Utf8.encode_rune (pos r)) (text Utf8.encode_rune rs) (utf8-IsRead r hr)
    ∙ add-length r rs _ hr (size_loop-text n rs all (omega arith))

string_size-text :
    (n : ℕ) (rs : List ℕ)
    → All IsRune rs
    → length rs ≤ n
    → string_size (range_loop n (text Utf8.encode_rune rs))
      ≡ pos (length (text Cesu8.encode_rune rs))
unfolding string_size range_loop
string_size-text zero [] all h = refl
string_size-text (suc n) [] all h = refl
string_size-text zero (r ∷ rs) all h = absurd (omega arith)
string_size-text (suc n) (r ∷ rs) (hr, all) h =
    ap string_size
      (range_step n r (Utf8.encode_rune (pos r)) (text Utf8.encode_rune rs) (utf8-IsRead r hr))
    ∙ add-length r rs _ hr (string_size-text n rs all (omega arith))

-- Both sizes of the UTF-8 of runes are the number of bytes of their CESU-8.
pub size-text :
    (rs : List ℕ)
    → All IsRune rs
    → (size (text Utf8.encode_rune rs) ≡ pos (length (text Cesu8.encode_rune rs)))
      × (size_of_string (text Utf8.encode_rune rs) ≡ pos (length (text Cesu8.encode_rune rs)))
size-text rs all =
    let h = length-text encoder Utf8.encode_rune rs encoder-Reads all in
    (
      size_loop-text (length (text Utf8.encode_rune rs)) rs all h,
      string_size-text (length (text Utf8.encode_rune rs)) rs all h,
    )
