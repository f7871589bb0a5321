-- ===== src/Protocol/Options/Decode.antt =====
-- optiontype.go and optionsparts.go: how options are read.
use go_hdb.Prelude.{
  ℕ, zero, suc, Option, List, [], ◌∷◌, replicate, Bytes, Outcome, ok, panic, map_ok,
}
use go_hdb.Prelude.Int.{ℤ, pos, negsuc}
use go_hdb.Encoding.Decoder.{
  Decoder, IoError, Decoding, ◌>>=◌, pure, bytes, byte, bool, int8, int16, int32, int64, float64,
}
use go_hdb.Protocol.Options.{
  OptValue, boolean, tinyint, integer, bigint, double, string, bstring, OptType, boolean_type,
  tinyint_type, integer_type, bigint_type, double_type, string_type, bstring_type, Options, set,
  opt_type_via_type_code,
}

-- `make([]byte, l)` panics on a negative length; then `d.Bytes`.
unfoldable pub decode_bytes : ℤ → Decoding (Outcome Bytes)
decode_bytes (pos n) = do b ← bytes (replicate n 0); pure (ok b)
decode_bytes (negsuc n) = pure panic

unfoldable pub decode_value : OptType → Decoding (Outcome OptValue)
decode_value boolean_type = do v ← bool; pure (ok (boolean v))
decode_value tinyint_type = do v ← int8; pure (ok (tinyint v))
decode_value integer_type = do v ← int32; pure (ok (integer v))
decode_value bigint_type = do v ← int64; pure (ok (bigint v))
decode_value double_type = do v ← float64; pure (ok (double v))
decode_value string_type = do l ← int16; b ← decode_bytes l; pure (map_ok string b)
decode_value bstring_type = do l ← int16; b ← decode_bytes l; pure (map_ok bstring b)

abbrev pub decode_typed : Outcome OptType → Decoding (Outcome OptValue)
decode_typed panic = pure panic
decode_typed (ok t) = decode_value t

-- One round: the key and its value.
unfoldable pub decode_option : Decoding (Outcome (ℤ × OptValue))
decode_option = do
  k ← int8
  tc ← byte
  v ← decode_typed (opt_type_via_type_code tc)
  pure (map_ok (λ (v : OptValue). (k, v)) v)

abbrev pub then_options :
    Outcome (ℤ × OptValue) × Decoder
    → (Options → Decoding (Outcome Options))
    → Options
    → Outcome Options × Decoder
then_options (panic, d) again ops = (panic, d)
then_options (ok (k, v), d) again ops = again (set k v ops) d

unfoldable pub decode_loop : ℕ → Options → Decoding (Outcome Options)
decode_loop zero ops d = (ok ops, d)
decode_loop (suc n) ops d = then_options (decode_option d) (decode_loop n) ops

abbrev with_error : Outcome Options × Decoder → Outcome (Options × Option IoError) × Decoder
with_error (o, d) = (map_ok (λ (ops : Options). (ops, d.err)) o, d)

-- `options.decodeNumArg`; a range over a negative count makes no round.
unfoldable pub decode_options : ℤ → Decoding (Outcome (Options × Option IoError))
decode_options (pos n) d = with_error (decode_loop n [] d)
decode_options (negsuc n) d = with_error (ok [], d)

abbrev pub then_hosts :
    Outcome (Options × Option IoError) × Decoder
    → Decoding (Outcome (List Options × Option IoError))
    → Outcome (List Options × Option IoError) × Decoder
then_hosts (panic, d) k = (panic, d)
then_hosts (ok (ops, Option.some e), d) k = (ok (ops ∷ [], Option.some e), d)
then_hosts (ok (ops, Option.none), d) k =
    let (hosts, d') = k d in
    (map_ok (λ (h : List Options × Option IoError). (ops ∷ h.0, h.1)) hosts, d')

-- `TopologyInformation.decodeNumArg`: the hosts that are read; behind an error the others stay empty.
unfoldable pub decode_hosts : ℕ → Decoding (Outcome (List Options × Option IoError))
decode_hosts zero d = (ok ([], d.err), d)
decode_hosts (suc n) d = let (k, d') = int16 d in then_hosts (decode_options k d') (decode_hosts n)
