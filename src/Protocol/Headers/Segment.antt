-- ===== src/Protocol/Headers/Segment.antt =====
-- A segment header that was encoded is decoded to itself, field by field of its kind.
use go_hdb.Prelude.{
  ℕ, ◌+◌, ◌^◌, ◌≡◌, sym, ap, ◌∙◌, Bool, true, false, none, [], ◌∷◌, ◌++◌, arith, length, Bytes,
  replicate, if◌then◌else◌, Bool-cases, inl, inr,
}
use go_hdb.Prelude.Int.{wrap, eq_ℤ, IsInt8, IsInt16, IsInt32}
use go_hdb.Prelude.Words.{le_bytes}
use go_hdb.Encoding.Encoder
use go_hdb.Encoding.Encoder.Zeroes.{zeroes-replicate}
use go_hdb.Encoding.Decoder.{Decoder}
use go_hdb.Encoding.Decoder.Ready.{
  ready, int32-ready, int16-ready, int8-ready, bool-ready, skip-ready,
}
use go_hdb.Protocol.Headers.{SegmentHeader, segment_header_size, sk_request, sk_reply}
use go_hdb.Protocol.Headers.Encode.{encode_segment, encode_segment_kind}
use go_hdb.Protocol.Headers.Decode.{decode_segment, decode_segment_kind}
use mathlib.Core.List.{append_assoc, append-nil}
use native.Mathlib.Nat.{add_assoc}

pub record SegmentInRange (h : SegmentHeader) : Type 0 where
  pub segment_length_in : IsInt32 h.segment_length
  pub segment_ofs_in : IsInt32 h.segment_ofs
  pub no_of_parts_in : IsInt16 h.no_of_parts
  pub segment_no_in : IsInt16 h.segment_no
  pub segment_kind_in : IsInt8 h.segment_kind
  pub message_type_in : IsInt8 h.message_type
  pub command_options_in : IsInt8 h.command_options
  pub function_code_in : IsInt16 h.function_code

-- `h` as a receiver `h₀` gets it: the fields that its kind does not carry stay as they were.
abbrev pub received : SegmentHeader → SegmentHeader → SegmentHeader
received h h₀ =
    if eq_ℤ h.segment_kind sk_request
    then record h { function_code = h₀.function_code }
    else if eq_ℤ h.segment_kind sk_reply
    then record h {
      message_type = h₀.message_type;
      commit = h₀.commit;
      command_options = h₀.command_options;
    }
    else record h {
      message_type = h₀.message_type;
      commit = h₀.commit;
      command_options = h₀.command_options;
      function_code = h₀.function_code;
    }

kind_bytes : SegmentHeader → Bytes → Bytes
kind_bytes h rest =
    if eq_ℤ h.segment_kind sk_request
    then wrap (2 ^ 8) h.message_type
      ∷ ((if h.commit then 1 else 0) ∷ (wrap (2 ^ 8) h.command_options ∷ (replicate 8 0 ++ rest)))
    else if eq_ℤ h.segment_kind sk_reply
    then replicate 1 0 ++ (le_bytes 2 (wrap (2 ^ 16) h.function_code) ++ (replicate 8 0 ++ rest))
    else replicate 11 0 ++ rest

segment_bytes : SegmentHeader → Bytes → Bytes
segment_bytes h rest =
    le_bytes 4 (wrap (2 ^ 32) h.segment_length)
    ++ (le_bytes 4 (wrap (2 ^ 32) h.segment_ofs)
        ++ (le_bytes 2 (wrap (2 ^ 16) h.no_of_parts)
            ++ (le_bytes 2 (wrap (2 ^ 16) h.segment_no)
                ++ (wrap (2 ^ 8) h.segment_kind ∷ kind_bytes h rest))))

bool-append :
    (b : Bool) (e rest : Bytes) → Encoder.bool b e ++ rest ≡ e ++ ((if b then 1 else 0) ∷ rest)
unfolding Encoder.bool
bool-append true e rest = simp append_assoc
bool-append false e rest = simp append_assoc

encode_segment_kind-append :
    (h : SegmentHeader) (e rest : Bytes) → encode_segment_kind h e ++ rest ≡ e ++ kind_bytes h rest
unfolding encode_segment_kind kind_bytes Encoder.int8 Encoder.int16
encode_segment_kind-append h e rest = elim (Bool-cases (eq_ℤ h.segment_kind sk_request)) [
  | inl a ↦ rw a (simp (zeroes-replicate, append_assoc, bool-append))
  | inr a ↦ elim (Bool-cases (eq_ℤ h.segment_kind sk_reply)) [
    | inl b ↦ rw (a, b) (simp (zeroes-replicate, append_assoc))
    | inr b ↦ rw (a, b) (simp (zeroes-replicate, append_assoc))
  ]
]

encode_segment-append :
    (h : SegmentHeader) (e rest : Bytes) → encode_segment h e ++ rest ≡ e ++ segment_bytes h rest
unfolding encode_segment segment_bytes Encoder.int8 Encoder.int16 Encoder.int32
encode_segment-append h e rest = simp (encode_segment_kind-append, append_assoc)

module _ (d : Decoder) (h : SegmentHeader) (rest : Bytes) (cnt : ℕ) (r : SegmentInRange h) where
  -- After the fields that every kind has.
  abbrev read_so_far : SegmentHeader → SegmentHeader
  read_so_far h₀ = record h₀ {
    segment_length = h.segment_length;
    segment_ofs = h.segment_ofs;
    no_of_parts = h.no_of_parts;
    segment_no = h.segment_no;
    segment_kind = h.segment_kind;
  }

  decode_segment_kind-ready :
      (h₀ : SegmentHeader)
      → decode_segment_kind (read_so_far h₀) (ready d (kind_bytes h rest) cnt)
        ≡ (received h h₀, ready d rest (cnt + 11))
  unfolding decode_segment_kind kind_bytes
  decode_segment_kind-ready h₀ = elim (Bool-cases (eq_ℤ h.segment_kind sk_request)) [
    | inl a ↦ rw a (
        rw (int8-ready d _ cnt h.message_type r.message_type_in) (
          rw (bool-ready d _ (cnt + 1) h.commit) (
            rw (int8-ready d _ (cnt + 1 + 1) h.command_options r.command_options_in)
              (rw (skip-ready d rest (cnt + 1 + 1 + 1) (replicate 8 0)) (simp add_assoc)))))
    | inr a ↦ elim (Bool-cases (eq_ℤ h.segment_kind sk_reply)) [
      | inl b ↦
          rw (a, b)
            (rw (skip-ready d _ cnt (replicate 1 0)) (
              rw (int16-ready d _ (cnt + 1) h.function_code r.function_code_in)
                (rw (skip-ready d rest (cnt + 1 + 2) (replicate 8 0)) (simp add_assoc))))
      | inr b ↦ rw (a, b) (rw (skip-ready d rest cnt (replicate 11 0)))
    ]
  ]

decode_segment-ready :
    (d : Decoder) (h h₀ : SegmentHeader) (rest : Bytes) (cnt : ℕ)
    → SegmentInRange h
    → decode_segment h₀ (ready d (segment_bytes h rest) cnt)
      ≡ ((received h h₀, none), ready d rest (cnt + segment_header_size))
unfolding decode_segment segment_bytes
decode_segment-ready d h h₀ rest cnt r =
    rw (int32-ready d _ cnt h.segment_length r.segment_length_in) (
      rw (int32-ready d _ (cnt + 4) h.segment_ofs r.segment_ofs_in) (
        rw (int16-ready d _ (cnt + 4 + 4) h.no_of_parts r.no_of_parts_in) (
          rw (int16-ready d _ (cnt + 4 + 4 + 2) h.segment_no r.segment_no_in) (
            rw (int8-ready d _ (cnt + 4 + 4 + 2 + 2) h.segment_kind r.segment_kind_in) (
              rw (decode_segment_kind-ready d h rest (cnt + 4 + 4 + 2 + 2 + 1) r h₀)
                (unfold ready in simp add_assoc))))))

length-kind_bytes : (h : SegmentHeader) → length (kind_bytes h []) ≡ 11
unfolding kind_bytes le_bytes
length-kind_bytes h = ground arith

length-segment_bytes : (h : SegmentHeader) → length (segment_bytes h []) ≡ segment_header_size
unfolding segment_bytes le_bytes
length-segment_bytes h = omega (arith, length-kind_bytes h)

encode_segment-bytes : (h : SegmentHeader) → encode_segment h [] ≡ segment_bytes h []
encode_segment-bytes h = sym (append-nil (encode_segment h [])) ∙ encode_segment-append h [] []

pub length-encode_segment : (h : SegmentHeader) → length (encode_segment h []) ≡ segment_header_size
length-encode_segment h = ap length (encode_segment-bytes h) ∙ length-segment_bytes h

pub encode_segment-out :
    (h : SegmentHeader) (e : Bytes) → encode_segment h e ≡ e ++ encode_segment h []
encode_segment-out h e =
    sym (append-nil (encode_segment h e))
    ∙ encode_segment-append h e []
    ∙ ap (λ (p : Bytes). e ++ p) (sym (encode_segment-bytes h))

-- Decoding an encoded segment header gives back the fields of its kind, keeps the receiver's others,
-- and takes the 24 bytes of `segmentHeaderSize`, whatever the kind.
pub decode_segment-encode_segment :
    (d : Decoder) (h h₀ : SegmentHeader) (rest : Bytes) (cnt : ℕ)
    → SegmentInRange h
    → (decode_segment h₀ (ready d (encode_segment h [] ++ rest) cnt)
        ≡ ((received h h₀, none), ready d rest (cnt + segment_header_size)))
      × (length (encode_segment h []) ≡ segment_header_size)
decode_segment-encode_segment d h h₀ rest cnt r = (
  rw (encode_segment-append h [] rest) (decode_segment-ready d h h₀ rest cnt r),
  length-encode_segment h,
)
