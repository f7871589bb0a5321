-- ===== src/Protocol/Prolog/RoundTrip.antt =====
-- The request is decoded to what was encoded.
use go_hdb.Prelude.{
  ℕ, ◌+◌, ◌^◌, ◌≡◌, refl, ap, ◌∙◌, none, [], ◌∷◌, ◌++◌, arith, length, Bytes, replicate, ok,
}
use go_hdb.Prelude.Int.{ℤ, pos, wrap, IsInt8, IsInt16}
use go_hdb.Prelude.Words.{le_bytes}
use go_hdb.Encoding.Encoder
use go_hdb.Encoding.Encoder.Zeroes.{zeroes-replicate}
use go_hdb.Encoding.Decoder.{Decoder}
use go_hdb.Encoding.Decoder.Ready.{ready, int16-ready, int8-ready, skip-ready}
use go_hdb.Protocol.Prolog.{InitRequest, init_request_filler}
use go_hdb.Protocol.Prolog.Encode.{encode_versions, encode_options, encode_init_request}
use go_hdb.Protocol.Prolog.Decode.{decode_options, decode_init_request}
use mathlib.Core.List.{append_assoc}
use native.Mathlib.Nat.{add_assoc}

pub record VersionsInRange (r : InitRequest) : Type 0 where
  pub product_major_in : IsInt8 r.product.major
  pub product_minor_in : IsInt16 r.product.minor
  pub protocol_major_in : IsInt8 r.protocol.major
  pub protocol_minor_in : IsInt16 r.protocol.minor

versions_bytes : InitRequest → Bytes → Bytes
versions_bytes r rest =
    replicate 4 255
    ++ (wrap (2 ^ 8) r.product.major
        ∷ (le_bytes 2 (wrap (2 ^ 16) r.product.minor)
            ++ (wrap (2 ^ 8) r.protocol.major
                ∷ (le_bytes 2 (wrap (2 ^ 16) r.protocol.minor) ++ rest))))

filler : le_bytes 4 init_request_filler ≡ replicate 4 255
unfolding le_bytes
filler = refl

encode_versions-append :
    (r : InitRequest) (e rest : Bytes) → encode_versions r e ++ rest ≡ e ++ versions_bytes r rest
unfolding encode_versions versions_bytes Encoder.uint32 Encoder.int8 Encoder.int16
encode_versions-append r e rest = simp (filler, append_assoc)

-- r is encoded in 14 bytes, from which a receiver r₀ decodes `got`.
abbrev pub Decodes : Decoder → Bytes → ℕ → InitRequest → InitRequest → InitRequest → Type 0
Decodes d rest cnt r₀ r got =
    (bytes : Bytes) × (encode_init_request r [] ≡ ok bytes)
    × (length bytes ≡ 14)
    × (decode_init_request r₀ (ready d (bytes ++ rest) cnt)
        ≡ (ok (got, none), ready d rest (cnt + 14)))

module _ (d : Decoder) (rest : Bytes) (cnt : ℕ) (r r₀ : InitRequest) (h : VersionsInRange r) where
  -- Behind the versions and the reserved byte.
  decode_init_request-ready :
      (n : ℤ)
      → IsInt8 n
      → decode_init_request r₀ (ready d (versions_bytes r (0 ∷ wrap (2 ^ 8) n ∷ rest)) cnt)
        ≡ decode_options
            (record r { num_options = n; endianess = r₀.endianess })
            (ready d rest (cnt + 12))
  unfolding decode_init_request versions_bytes
  decode_init_request-ready n k = rw (skip-ready d _ cnt (replicate 4 255)) (
      rw (int8-ready d _ (cnt + 4) r.product.major h.product_major_in) (
        rw (int16-ready d _ (cnt + 4 + 1) r.product.minor h.product_minor_in) (
          rw (int8-ready d _ (cnt + 4 + 1 + 2) r.protocol.major h.protocol_major_in) (
            rw (int16-ready d _ (cnt + 4 + 1 + 2 + 1) r.protocol.minor h.protocol_minor_in) (
              rw (skip-ready d _ (cnt + 4 + 1 + 2 + 1 + 2) (0 ∷ []))
                (rw (int8-ready d rest (cnt + 4 + 1 + 2 + 1 + 2 + 1) n k) (simp add_assoc)))))))

-- The request with n as its number of options.
abbrev pub with_options : ℤ → InitRequest → InitRequest
with_options n r = record r { num_options = n }

length-versions_bytes :
    (r : InitRequest) (rest : Bytes) → length (versions_bytes r rest) ≡ 10 + length rest
unfolding versions_bytes le_bytes
length-versions_bytes r rest = omega arith

encode_versions-bytes :
    (r : InitRequest) (rest : Bytes) → encode_versions r [] ++ rest ≡ versions_bytes r rest
encode_versions-bytes r rest = encode_versions-append r [] rest

encode_init_request_none :
    (r : InitRequest)
    → encode_init_request (with_options (pos 0) r) [] ≡ ok (versions_bytes r (replicate 4 0))
unfolding encode_init_request encode_options versions_bytes
encode_init_request_none r = ap ok (
    zeroes-replicate 4 (encode_versions (with_options (pos 0) r) [])
    ∙ encode_versions-bytes (with_options (pos 0) r) (replicate 4 0))

encode_init_request_one :
    (r : InitRequest)
    → encode_init_request (with_options (pos 1) r) []
      ≡ ok (versions_bytes r (0 ∷ 1 ∷ 1 ∷ wrap (2 ^ 8) r.endianess ∷ []))
unfolding encode_init_request encode_options Encoder.int8 wrap versions_bytes
encode_init_request_one r = ap ok (
    rw (zeroes-replicate 1 (encode_versions (with_options (pos 1) r) [])) (
      simp append_assoc (
        encode_versions-bytes (with_options (pos 1) r)
          (0 ∷ 1 ∷ 1 ∷ wrap (2 ^ 8) r.endianess ∷ []))))

-- Versions in range: a request with no option or with one is encoded in 14 bytes and decoded to itself,
-- but that the receiver keeps its own endianess when there is no option.
pub decode_init_request-encode_init_request :
    (d : Decoder) (rest : Bytes) (cnt : ℕ) (r r₀ : InitRequest)
    → VersionsInRange r
    → IsInt8 r.endianess
    → Decodes d rest cnt r₀
        (with_options (pos 0) r)
        (record r { num_options = pos 0; endianess = r₀.endianess })
      × Decodes d rest cnt r₀ (with_options (pos 1) r) (with_options (pos 1) r)
unfolding decode_options versions_bytes wrap ready decode_init_request le_bytes
decode_init_request-encode_init_request d rest cnt r r₀ h he = (
  (
    versions_bytes r (replicate 4 0),
    encode_init_request_none r,
    length-versions_bytes r (replicate 4 0),
    decode_init_request-ready d (replicate 2 0 ++ rest) cnt r r₀ h (pos 0) (omega arith)
        ∙ rw (skip-ready d rest (cnt + 12) (replicate 2 0)) (simp add_assoc),
  ),
  (
    versions_bytes r (0 ∷ 1 ∷ 1 ∷ wrap (2 ^ 8) r.endianess ∷ []),
    encode_init_request_one r,
    length-versions_bytes r (0 ∷ 1 ∷ 1 ∷ wrap (2 ^ 8) r.endianess ∷ []),
    decode_init_request-ready d (1 ∷ wrap (2 ^ 8) r.endianess ∷ rest) cnt r r₀ h (pos 1)
          (omega arith)
        ∙ rw (int8-ready d (wrap (2 ^ 8) r.endianess ∷ rest) (cnt + 12) (pos 1) (omega arith))
            (rw (int8-ready d rest (cnt + 12 + 1) r.endianess he) (simp add_assoc)),
  ),
)
