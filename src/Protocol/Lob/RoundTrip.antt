-- ===== src/Protocol/Lob/RoundTrip.antt =====
-- The parts of lob.go: what their decoders read of what was encoded.
use go_hdb.Prelude.{
  ℕ, ◌+◌, ◌^◌, ◌<◌, ◌≤◌, ◌≡◌, refl, sym, ap, ap₂, ◌∙◌, none, List, [], ◌∷◌, ◌++◌, map, arith,
  length, length-append, length-replicate, replicate, Bytes, All, ok,
}
use go_hdb.Prelude.Int.{convert-pos, +ℤ-pos, ℤ, pos, wrap, convert, IsInt8, IsInt64, ◌+ℤ◌}
use go_hdb.Prelude.Words.{le_bytes}
use go_hdb.Encoding.Encoder
use go_hdb.Encoding.Encoder.Zeroes.{zeroes-replicate}
use go_hdb.Encoding.Decoder.{Decoder}
use go_hdb.Encoding.Decoder.Ready.{
  ready, int64-ready, int32-ready, uint64-ready, int8-ready, bytes-ready, skip-ready,
}
use go_hdb.Protocol.Headers.NumArg.{max_num_arg}
use go_hdb.Protocol.Writer.Frame.{body}
use go_hdb.Protocol.Reader.Skip.{IsRequestPart}
use go_hdb.Protocol.Lob.{WriteLobDescr, ReadLobRequest}
use go_hdb.Protocol.Lob.Encode.{
  encode_write_descr, size_loop, encode_descrs, write_lob_request, encode_read_lob,
  write_lob_request_size,
}
use go_hdb.Protocol.Lob.Decode.{make_bytes, decode_write_descr, decode_descrs, decode_read_lob}
use mathlib.Core.List.{append_assoc, append-nil}
use native.Mathlib.Nat.{add_assoc}

pub record DescrInRange (w : WriteLobDescr) : Type 0 where
  pub id_in : w.id < 2 ^ 64
  pub opt_in : IsInt8 w.opt
  pub ofs_in : IsInt64 w.ofs
  pub size_in : length w.b < 2 ^ 31

descr_bytes : WriteLobDescr → Bytes → Bytes
descr_bytes w rest =
    le_bytes 8 w.id
    ++ (wrap (2 ^ 8) w.opt
        ∷ (le_bytes 8 (wrap (2 ^ 64) w.ofs)
            ++ (le_bytes 4 (wrap (2 ^ 32) (convert (2 ^ 31) (pos (length w.b)))) ++ (w.b ++ rest))))

encode_write_descr-append :
    (w : WriteLobDescr) (e rest : Bytes) → encode_write_descr w e ++ rest ≡ e ++ descr_bytes w rest
unfolding encode_write_descr descr_bytes Encoder.int64 Encoder.int32 Encoder.int8 Encoder.uint64
    Encoder.bytes
encode_write_descr-append w e rest = simp append_assoc

-- What the receiver `new` becomes.
abbrev pub received : WriteLobDescr → WriteLobDescr → WriteLobDescr
received new w = record w { lob_in_descr = new.lob_in_descr }

decode_write_descr-ready :
    (d : Decoder) (new w : WriteLobDescr) (rest : Bytes) (cnt : ℕ)
    → DescrInRange w
    → decode_write_descr new (ready d (descr_bytes w rest) cnt)
      ≡ (ok (received new w), ready d rest (cnt + (write_lob_request_size + length w.b)))
unfolding decode_write_descr descr_bytes make_bytes
decode_write_descr-ready d new w rest cnt r = rw (convert-pos (2 ^ 31) (length w.b) r.size_in) (
    rw (uint64-ready d _ cnt w.id r.id_in) (
      rw (int8-ready d _ (cnt + 8) w.opt r.opt_in) (
        rw (int64-ready d _ (cnt + 8 + 1) w.ofs r.ofs_in) (
          rw
            (int32-ready d (w.b ++ rest) (cnt + 8 + 1 + 8) (pos (length w.b))
              (omega (arith, r.size_in)))
            (rw
              (bytes-ready d w.b rest (cnt + 8 + 1 + 8 + 4) (replicate (length w.b) 0)
                (sym (length-replicate (length w.b) 0)))
              (ap (λ (k : ℕ). (ok (received new w), ready d rest k))
                {x = cnt + 8 + 1 + 8 + 4 + length w.b}
                {y = cnt + (write_lob_request_size + length w.b)} (omega arith)))))))

descrs_bytes : List WriteLobDescr → Bytes → Bytes
descrs_bytes [] rest = rest
descrs_bytes (w ∷ ws) rest = descr_bytes w (descrs_bytes ws rest)

encode_descrs-append :
    (ws : List WriteLobDescr) (e rest : Bytes)
    → encode_descrs ws e ++ rest ≡ e ++ descrs_bytes ws rest
unfolding encode_descrs descrs_bytes
encode_descrs-append [] e rest = refl
encode_descrs-append (w ∷ ws) e rest =
    encode_descrs-append ws (encode_write_descr w e) rest
    ∙ encode_write_descr-append w e (descrs_bytes ws rest)

encode_descrs-bytes : (ws : List WriteLobDescr) → encode_descrs ws [] ≡ descrs_bytes ws []
encode_descrs-bytes ws = sym (append-nil (encode_descrs ws [])) ∙ encode_descrs-append ws [] []

encode_descrs-out :
    (ws : List WriteLobDescr) (e : Bytes) → encode_descrs ws e ≡ e ++ encode_descrs ws []
encode_descrs-out ws e =
    sym (append-nil (encode_descrs ws e))
    ∙ encode_descrs-append ws e []
    ∙ ap (λ (p : Bytes). e ++ p) (sym (encode_descrs-bytes ws))

length-descr_bytes :
    (w : WriteLobDescr) (rest : Bytes)
    → length (descr_bytes w rest) ≡ write_lob_request_size + length w.b + length rest
unfolding descr_bytes le_bytes
length-descr_bytes w rest = omega (arith, length-append w.b rest)

size_loop-length :
    (s : ℕ) (ws : List WriteLobDescr) → size_loop s ws ≡ s + length (descrs_bytes ws [])
unfolding size_loop descrs_bytes
size_loop-length s [] = omega arith
size_loop-length s (w ∷ ws) = omega (
  arith,
  size_loop-length (s + (write_lob_request_size + length w.b)) ws,
  length-descr_bytes w (descrs_bytes ws []),
)

size-bytes : (ws : List WriteLobDescr) → size_loop 0 ws ≡ length (descrs_bytes ws [])
size-bytes ws = omega (arith, size_loop-length 0 ws)

decode_descrs-ready :
    (d : Decoder) (new : WriteLobDescr) (rest : Bytes) (cnt : ℕ) (ws : List WriteLobDescr)
    → All DescrInRange ws
    → decode_descrs new (length ws) (ready d (descrs_bytes ws rest) cnt)
      ≡ (ok (map (received new) ws), ready d rest (cnt + length (descrs_bytes ws [])))
unfolding decode_descrs descrs_bytes
decode_descrs-ready d new rest cnt [] h =
    ap (λ (k : ℕ). (ok [], ready d rest k)) {x = cnt} {y = cnt + 0} (omega arith)
decode_descrs-ready d new rest cnt (w ∷ ws) (h, hs) =
    let n = write_lob_request_size + length w.b in
    rw (decode_write_descr-ready d new w (descrs_bytes ws rest) cnt h) (
      rw (decode_descrs-ready d new rest (cnt + n) ws hs) (
        ap (λ (k : ℕ). (ok (map (received new) (w ∷ ws)), ready d rest k))
          {x = cnt + n + length (descrs_bytes ws [])}
          {y = cnt + length (descr_bytes w (descrs_bytes ws []))}
          (omega (arith, length-descr_bytes w (descrs_bytes ws [])))))

-- Descriptors in range, no more of them than a header can count and not too large for a message: the
-- request keeps the contract that the writer and the reader of messages ask of a part.
pub write_lob_request-IsRequestPart :
    (ws : List WriteLobDescr)
    → length ws ≤ max_num_arg
    → (write_lob_request ws).size < 2 ^ 31
    → IsRequestPart (write_lob_request ws)
unfolding write_lob_request
write_lob_request-IsRequestPart ws few small = record {
  is_part = record {
    encodes = λ e. ap (λ (out : Bytes). (none, out)) (encode_descrs-out ws e);
    sized = ap length (encode_descrs-bytes ws) ∙ sym (size-bytes ws);
    kind_in = omega arith;
    num_arg_in = few;
  };
  size_in = small;
  ne_error = refl;
  ne_rows_affected = refl;
}

-- Reading as many descriptors as were written gives them back, each with the receiver's own source,
-- and consumes as many bytes as the request's size says.
pub decode_descrs-write_lob_request :
    (d : Decoder) (new : WriteLobDescr) (rest : Bytes) (cnt : ℕ) (ws : List WriteLobDescr)
    → All DescrInRange ws
    → decode_descrs new
        (write_lob_request ws).num_arg
        (ready d (body (write_lob_request ws) ++ rest) cnt)
      ≡ (ok (map (received new) ws), ready d rest (cnt + (write_lob_request ws).size))
unfolding write_lob_request
decode_descrs-write_lob_request d new rest cnt ws h =
    rw (encode_descrs-append ws [] rest, size-bytes ws) (decode_descrs-ready d new rest cnt ws h)

read_lob_bytes : ReadLobRequest → Bytes → Bytes
read_lob_bytes r rest =
    le_bytes 8 r.id
    ++ (le_bytes 8 (wrap (2 ^ 64) (convert (2 ^ 63) (r.ofs +ℤ pos 1)))
        ++ (le_bytes 4 (wrap (2 ^ 32) (convert (2 ^ 31) r.chunk_size)) ++ (replicate 4 0 ++ rest)))

encode_read_lob-append :
    (r : ReadLobRequest) (e rest : Bytes) → encode_read_lob r e ++ rest ≡ e ++ read_lob_bytes r rest
unfolding encode_read_lob read_lob_bytes Encoder.int64 Encoder.int32 Encoder.uint64
encode_read_lob-append r e rest = simp (zeroes-replicate, append_assoc)

read_lob_bytes-plain :
    (id ofs chunk_size : ℕ) (rest : Bytes)
    → ofs + 1 < 2 ^ 63
    → chunk_size < 2 ^ 31
    → read_lob_bytes (record { id = id; ofs = pos ofs; chunk_size = pos chunk_size }) rest
      ≡ le_bytes 8 id
        ++ (le_bytes 8 (wrap (2 ^ 64) (pos (ofs + 1)))
            ++ (le_bytes 4 (wrap (2 ^ 32) (pos chunk_size)) ++ (replicate 4 0 ++ rest)))
unfolding read_lob_bytes
read_lob_bytes-plain id ofs chunk_size rest ho hc =
    ap₂
      (λ (a b : ℤ).
        le_bytes 8 id
        ++ (le_bytes 8 (wrap (2 ^ 64) a)
            ++ (le_bytes 4 (wrap (2 ^ 32) b) ++ (replicate 4 0 ++ rest))))
      (ap (convert (2 ^ 63)) (+ℤ-pos ofs 1) ∙ convert-pos (2 ^ 63) (ofs + 1) ho)
      (convert-pos (2 ^ 31) chunk_size hc)

-- What the sniffer reads of a request is the request with the offset that is on the wire, one more than
-- the offset that was asked for: it does not go back to counting from 0.
pub decode_read_lob-encode_read_lob :
    (d : Decoder) (id ofs chunk_size : ℕ) (rest : Bytes) (cnt : ℕ)
    → id < 2 ^ 64
    → ofs + 1 < 2 ^ 63
    → chunk_size < 2 ^ 31
    → decode_read_lob (
        ready d
          (encode_read_lob (record { id = id; ofs = pos ofs; chunk_size = pos chunk_size }) []
            ++ rest)
          cnt)
      ≡ (
        record { id = id; ofs = pos (ofs + 1); chunk_size = pos chunk_size },
        ready d rest (cnt + 24),
      )
unfolding decode_read_lob
decode_read_lob-encode_read_lob d id ofs chunk_size rest cnt hi ho hc =
    let r : ReadLobRequest = record { id = id; ofs = pos ofs; chunk_size = pos chunk_size } in
    rw (encode_read_lob-append r [] rest) (
      rw (read_lob_bytes-plain id ofs chunk_size rest ho hc) (
        rw (uint64-ready d _ cnt id hi) (
          rw (int64-ready d _ (cnt + 8) (pos (ofs + 1)) (omega (arith, ho))) (
            rw (int32-ready d _ (cnt + 8 + 8) (pos chunk_size) (omega (arith, hc)))
              (rw (skip-ready d rest (cnt + 8 + 8 + 4) (replicate 4 0)) (simp add_assoc))))))
