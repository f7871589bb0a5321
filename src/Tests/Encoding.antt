-- ===== src/Tests/Encoding.antt =====
-- Values and fields: what `Encoder` writes and what `Decoder` reads.
use go_hdb.Prelude.{false, ◌+◌, ◌≡◌, some, [], ◌∷◌, ◌++◌, arith, ok, length}
use go_hdb.Prelude.Int.{pos}
use go_hdb.Encoding.Decoder.{Decoder, skip}
use go_hdb.Encoding.Decoder.Ready.{ready}
use go_hdb.Encoding.Decoder.Progress.{is_none, skip-drop}
use go_hdb.Encoding.VarField.{li_bytes, put_li_bytes}
use go_hdb.Encoding.VarField.RoundTrip.{li_bytes-put_li_bytes}
use go_hdb.Tests.Values.{fresh_decoder}

li_bytes-put_li_bytes_example :
    let written = (put_li_bytes (65 ∷ 66 ∷ []) []).1 in
    li_bytes (ready fresh_decoder (written ++ 9 ∷ []) 0) ≡ (
      ok (pos (length written), some (65 ∷ 66 ∷ [])),
      ready fresh_decoder (9 ∷ []) (0 + length written),
    )
li_bytes-put_li_bytes_example =
    li_bytes-put_li_bytes fresh_decoder (65 ∷ 66 ∷ []) (9 ∷ []) 0 (omega arith)

-- Two bytes are skipped of three, and five of them.
abbrev three_bytes : Decoder
three_bytes = record fresh_decoder { rd = 1 ∷ 2 ∷ 3 ∷ [] }

skip_five : is_none (skip 5 three_bytes).1.err ≡ false
skip_five = (skip-drop 5 three_bytes).2
