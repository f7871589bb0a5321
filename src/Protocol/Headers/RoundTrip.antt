-- ===== src/Protocol/Headers/RoundTrip.antt =====
-- A header that was encoded is decoded to itself, and has its fixed size.
use go_hdb.Prelude.{
  ℕ, ◌+◌, ◌^◌, ◌<◌, ◌≡◌, refl, sym, ap, ◌∙◌, none, [], ◌∷◌, ◌++◌, length, Bytes, replicate,
}
use go_hdb.Prelude.Int.{wrap, IsInt8, IsInt16, IsInt32, IsInt64}
use go_hdb.Prelude.Words.{le_bytes}
use go_hdb.Encoding.Encoder
use go_hdb.Encoding.Encoder.Zeroes.{zeroes-replicate}
use go_hdb.Encoding.Decoder.{Decoder}
use go_hdb.Encoding.Decoder.Ready.{
  ready, int64-ready, int32-ready, uint32-ready, int16-ready, int8-ready, skip-ready,
}
use go_hdb.Protocol.Headers.{MessageHeader, PartHeader, part_header_size}
use go_hdb.Protocol.Headers.Encode.{encode_message, encode_part}
use go_hdb.Protocol.Headers.Decode.{decode_message, decode_part}
use mathlib.Core.List.{append_assoc, append-nil}
use native.Mathlib.Nat.{add_assoc}

-- The fields are values of their Go types.
pub record MessageInRange (h : MessageHeader) : Type 0 where
  pub session_id_in : IsInt64 h.session_id
  pub packet_count_in : IsInt32 h.packet_count
  pub var_part_length_in : h.var_part_length < 2 ^ 32
  pub var_part_size_in : h.var_part_size < 2 ^ 32
  pub no_of_segm_in : IsInt16 h.no_of_segm

-- What a header's encoding puts in front of `rest`.
message_bytes : MessageHeader → Bytes → Bytes
message_bytes h rest =
    le_bytes 8 (wrap (2 ^ 64) h.session_id)
    ++ (le_bytes 4 (wrap (2 ^ 32) h.packet_count)
        ++ (le_bytes 4 h.var_part_length
            ++ (le_bytes 4 h.var_part_size
                ++ (le_bytes 2 (wrap (2 ^ 16) h.no_of_segm) ++ (replicate 10 0 ++ rest)))))

encode_message-append :
    (h : MessageHeader) (e rest : Bytes) → encode_message h e ++ rest ≡ e ++ message_bytes h rest
unfolding encode_message message_bytes Encoder.int64 Encoder.int32 Encoder.uint32 Encoder.int16
encode_message-append h e rest = simp (zeroes-replicate, append_assoc)

decode_message-ready :
    (d : Decoder) (h h₀ : MessageHeader) (rest : Bytes) (cnt : ℕ)
    → MessageInRange h
    → decode_message h₀ (ready d (message_bytes h rest) cnt) ≡ ((h, none), ready d rest (cnt + 32))
unfolding decode_message message_bytes
decode_message-ready d h h₀ rest cnt r = rw (int64-ready d _ cnt h.session_id r.session_id_in) (
    rw (int32-ready d _ (cnt + 8) h.packet_count r.packet_count_in) (
      rw (uint32-ready d _ (cnt + 8 + 4) h.var_part_length r.var_part_length_in) (
        rw (uint32-ready d _ (cnt + 8 + 4 + 4) h.var_part_size r.var_part_size_in) (
          rw (int16-ready d _ (cnt + 8 + 4 + 4 + 4) h.no_of_segm r.no_of_segm_in) (
            rw (skip-ready d rest (cnt + 8 + 4 + 4 + 4 + 2) (replicate 10 0))
              (unfold ready in simp add_assoc))))))

length-message_bytes : (h : MessageHeader) → length (message_bytes h []) ≡ 32
unfolding message_bytes le_bytes
length-message_bytes h = refl

encode_message-bytes : (h : MessageHeader) → encode_message h [] ≡ message_bytes h []
encode_message-bytes h = sym (append-nil (encode_message h [])) ∙ encode_message-append h [] []

pub length-encode_message : (h : MessageHeader) → length (encode_message h []) ≡ 32
length-encode_message h = ap length (encode_message-bytes h) ∙ length-message_bytes h

pub encode_message-out :
    (h : MessageHeader) (e : Bytes) → encode_message h e ≡ e ++ encode_message h []
encode_message-out h e =
    sym (append-nil (encode_message h e))
    ∙ encode_message-append h e []
    ∙ ap (λ (p : Bytes). e ++ p) (sym (encode_message-bytes h))

-- Decoding an encoded message header gives it back from any state of the receiving header, and takes
-- exactly the 32 bytes that encoding wrote.
pub decode_message-encode_message :
    (d : Decoder) (h h₀ : MessageHeader) (rest : Bytes) (cnt : ℕ)
    → MessageInRange h
    → (decode_message h₀ (ready d (encode_message h [] ++ rest) cnt)
        ≡ ((h, none), ready d rest (cnt + 32)))
      × (length (encode_message h []) ≡ 32)
decode_message-encode_message d h h₀ rest cnt r = (
  rw (encode_message-append h [] rest) (decode_message-ready d h h₀ rest cnt r),
  length-encode_message h,
)

pub record PartInRange (h : PartHeader) : Type 0 where
  pub part_kind_in : IsInt8 h.part_kind
  pub part_attributes_in : IsInt8 h.part_attributes
  pub argument_count_in : IsInt16 h.argument_count
  pub big_argument_count_in : IsInt32 h.big_argument_count
  pub buffer_length_in : IsInt32 h.buffer_length
  pub buffer_size_in : IsInt32 h.buffer_size

part_bytes : PartHeader → Bytes → Bytes
part_bytes h rest =
    wrap (2 ^ 8) h.part_kind
    ∷ (wrap (2 ^ 8) h.part_attributes
        ∷ (le_bytes 2 (wrap (2 ^ 16) h.argument_count)
            ++ (le_bytes 4 (wrap (2 ^ 32) h.big_argument_count)
                ++ (le_bytes 4 (wrap (2 ^ 32) h.buffer_length)
                    ++ (le_bytes 4 (wrap (2 ^ 32) h.buffer_size) ++ rest)))))

encode_part-append :
    (h : PartHeader) (e rest : Bytes) → encode_part h e ++ rest ≡ e ++ part_bytes h rest
unfolding encode_part part_bytes Encoder.int8 Encoder.int32 Encoder.int16
encode_part-append h e rest = simp append_assoc

decode_part-ready :
    (d : Decoder) (h h₀ : PartHeader) (rest : Bytes) (cnt : ℕ)
    → PartInRange h
    → decode_part h₀ (ready d (part_bytes h rest) cnt) ≡ ((h, none), ready d rest (cnt + 16))
unfolding decode_part part_bytes
decode_part-ready d h h₀ rest cnt r = rw (int8-ready d _ cnt h.part_kind r.part_kind_in) (
    rw (int8-ready d _ (cnt + 1) h.part_attributes r.part_attributes_in) (
      rw (int16-ready d _ (cnt + 1 + 1) h.argument_count r.argument_count_in) (
        rw (int32-ready d _ (cnt + 1 + 1 + 2) h.big_argument_count r.big_argument_count_in) (
          rw (int32-ready d _ (cnt + 1 + 1 + 2 + 4) h.buffer_length r.buffer_length_in) (
            rw (int32-ready d _ (cnt + 1 + 1 + 2 + 4 + 4) h.buffer_size r.buffer_size_in)
              (unfold ready in simp add_assoc))))))

length-part_bytes : (h : PartHeader) → length (part_bytes h []) ≡ part_header_size
unfolding part_bytes le_bytes
length-part_bytes h = refl

pub length-encode_part : (h : PartHeader) → length (encode_part h []) ≡ part_header_size
length-encode_part h =
    ap length (sym (append-nil (encode_part h [])) ∙ encode_part-append h [] [])
    ∙ length-part_bytes h

pub encode_part-out : (h : PartHeader) (e : Bytes) → encode_part h e ≡ e ++ encode_part h []
encode_part-out h e =
    sym (append-nil (encode_part h e))
    ∙ encode_part-append h e []
    ∙ ap (λ (p : Bytes). e ++ p) (sym (encode_part-append h [] []) ∙ append-nil (encode_part h []))

-- Decoding an encoded part header gives it back and takes the 16 bytes of `partHeaderSize`.
pub decode_part-encode_part :
    (d : Decoder) (h h₀ : PartHeader) (rest : Bytes) (cnt : ℕ)
    → PartInRange h
    → (decode_part h₀ (ready d (encode_part h [] ++ rest) cnt)
        ≡ ((h, none), ready d rest (cnt + part_header_size)))
      × (length (encode_part h []) ≡ part_header_size)
decode_part-encode_part d h h₀ rest cnt r =
    (rw (encode_part-append h [] rest) (decode_part-ready d h h₀ rest cnt r), length-encode_part h)
