-- ===== src/Tests/Unicode.antt =====
-- CESU-8: runes and texts.
use go_hdb.Prelude.{
  ℕ, ◌≡◌, ◌≤◌, refl, true, inl, inr, none, List, [], ◌∷◌, ◌++◌, arith, length, Bytes,
}
use go_hdb.Prelude.Int.{pos}
use go_hdb.Unicode.Utf8
use go_hdb.Unicode.Utf8.{encode_valid}
use go_hdb.Unicode.Cesu8
use go_hdb.Unicode.Cesu8.RoundTrip.{decode_rune-encode}
use go_hdb.Unicode.Cesu8.Transform.{encoder, decoder, transform, returned}
use go_hdb.Unicode.Cesu8.Transform.Total.{IsTransformed, transform-IsTransformed, encoder-IsCodec}
use go_hdb.Unicode.Cesu8.Transform.Loop.{text}
use go_hdb.Unicode.Cesu8.Transform.Text.{transform-encoder, transform-decoder}

-- U+1F600 as two surrogates.
surrogate_pair : Cesu8.encode_rune (pos 128512) ≡ 237 ∷ 160 ∷ 189 ∷ 237 ∷ 184 ∷ 128 ∷ []
unfolding Cesu8.encode_rune
surrogate_pair = refl

decode_rune-encode_example :
    (Cesu8.decode_rune (Cesu8.encode_rune (pos 128512) ++ 65 ∷ [])
      ≡ (128512, length (Cesu8.encode_rune (pos 128512))))
    × (Cesu8.rune_len (pos 128512) ≡ pos (length (Cesu8.encode_rune (pos 128512))))
decode_rune-encode_example = decode_rune-encode 128512 (65 ∷ []) (omega arith, inr (omega arith))

-- An incomplete rune.
abbrev some_bytes : Bytes
some_bytes = 65 ∷ 240 ∷ 159 ∷ []

transform-IsTransformed_example :
    IsTransformed {E = ℕ} 8 3 (transform encoder none 8 some_bytes true)
transform-IsTransformed_example =
    transform-IsTransformed {E = ℕ} encoder none 8 some_bytes true encoder-IsCodec

abbrev some_runes : List ℕ
some_runes = 65 ∷ 228 ∷ 128512 ∷ []

cesu8_length : length (text Cesu8.encode_rune some_runes) ≤ 20
unfolding Cesu8.encode_rune Utf8.encode_rune encode_valid
cesu8_length = omega arith

utf8_length : length (text Utf8.encode_rune some_runes) ≤ 20
unfolding Utf8.encode_rune encode_valid
utf8_length = omega arith

transform-encoder_example :
    transform {E = ℕ} encoder none 20 (text Utf8.encode_rune some_runes) true
    ≡ returned (text Cesu8.encode_rune some_runes) (length (text Utf8.encode_rune some_runes)) none
transform-encoder_example =
    transform-encoder {E = ℕ} none 20 some_runes
      (
        (omega arith, inl (omega arith)),
        ((omega arith, inl (omega arith)), ((omega arith, inr (omega arith)), tt)),
      )
      cesu8_length

transform-decoder_example :
    transform {E = ℕ} decoder none 20 (text Cesu8.encode_rune some_runes) true
    ≡ returned (text Utf8.encode_rune some_runes) (length (text Cesu8.encode_rune some_runes)) none
transform-decoder_example =
    transform-decoder {E = ℕ} none 20 some_runes
      (
        (omega arith, inl (omega arith)),
        ((omega arith, inl (omega arith)), ((omega arith, inr (omega arith)), tt)),
      )
      utf8_length
