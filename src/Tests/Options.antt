-- ===== src/Tests/Options.antt =====
-- Options.
use go_hdb.Prelude.{◌≡◌, ◌+◌, refl, true, none, [], ◌∷◌, ◌++◌, arith, ok}
use go_hdb.Prelude.Int.{pos}
use go_hdb.Encoding.Decoder.Ready.{ready}
use go_hdb.Protocol.Options.{Options, boolean, integer, string, size, num_arg}
use go_hdb.Protocol.Options.Encode.{encode_options}
use go_hdb.Protocol.Options.Decode.{decode_options}
use go_hdb.Protocol.Options.RoundTrip.{decode_options-encode}
use go_hdb.Tests.Values.{fresh_decoder}

abbrev some_options : Options
some_options =
    (pos 1, string (65 ∷ 66 ∷ [])) ∷ (pos 3, integer (pos 7)) ∷ (pos 4, boolean true) ∷ []

decode_options-encode_example :
    decode_options
      (pos (num_arg some_options))
      (ready fresh_decoder (encode_options some_options [] ++ 9 ∷ []) 0)
    ≡ (ok (some_options, none), ready fresh_decoder (9 ∷ []) (0 + size some_options))
decode_options-encode_example =
    decode_options-encode fresh_decoder some_options (9 ∷ []) 0
      ((omega arith, omega arith), ((omega arith, omega arith), ((omega arith, tt), tt)))
      (tt, ((refl, tt), ((refl, (refl, tt)), tt)))
