-- ===== src/Protocol/Reader/Skip.antt =====
-- `IterateParts` over a message that `_write` framed, with a caller that reads no part itself.
use go_hdb.Prelude.{ℕ, ◌+◌, ◌<◌, ◌^◌, ◌≡◌, false, [], ◌++◌, arith, length, Bytes, replicate}
use go_hdb.Prelude.Int.{convert-pos, ℤ, pos, eq_ℤ, IsInt8, signed-IsSigned, wrap-lt}
use go_hdb.Encoding.Encoder.Zeroes.{length_zeroes}
use go_hdb.Encoding.Decoder.{Decoder, skip}
use go_hdb.Encoding.Decoder.Ready.{ready, skip-ready}
use go_hdb.Protocol.Headers.{PartHeader, part_header_size}
use go_hdb.Protocol.Headers.Encode.{encode_part}
use go_hdb.Protocol.Headers.RoundTrip.{PartInRange, decode_part-encode_part}
use go_hdb.Protocol.Headers.NumArg.{set_num_arg, num_arg-set_num_arg}
use go_hdb.Protocol.Padding.{pad_bytes}
use go_hdb.Protocol.Writer.{PartEncoder}
use go_hdb.Protocol.Writer.Frame.{IsPart, header}
use go_hdb.Protocol.Reader.{Reader, returns, skip_int}
use go_hdb.Protocol.Reader.Iterate.{
  PartFn, Progress, skipped, pk_error, pk_rows_affected, call_fn, read_kind, skip_part,
  after_answer, decode_part_header, skip_padding,
}

-- A part of a request: it keeps its contract, fits a message, and is none of the two that
-- `IterateParts` reads by itself.
pub record IsRequestPart (p : PartEncoder) : Type 0 where
  pub is_part : IsPart p
  pub size_in : p.size < 2 ^ 31
  pub ne_error : eq_ℤ p.kind pk_error ≡ false
  pub ne_rows_affected : eq_ℤ p.kind pk_rows_affected ≡ false

set_num_arg_keeps :
    (n : ℕ) (h : PartHeader)
    → ((set_num_arg n h).1.part_kind ≡ h.part_kind)
      × ((set_num_arg n h).1.part_attributes ≡ h.part_attributes)
unfolding set_num_arg
set_num_arg_keeps n h = ground arith

module _ (ph : PartHeader) (buffer_size : ℤ) (p : PartEncoder) where
  abbrev counted_header : PartHeader
  counted_header = record ph { part_kind = p.kind }

  pub header-part_kind : (header ph buffer_size p).part_kind ≡ p.kind
  unfolding header
  header-part_kind = (set_num_arg_keeps p.num_arg counted_header).0

  pub header-part_attributes : (header ph buffer_size p).part_attributes ≡ ph.part_attributes
  unfolding header
  header-part_attributes = (set_num_arg_keeps p.num_arg counted_header).1

  pub header-buffer_length : p.size < 2 ^ 31 → (header ph buffer_size p).buffer_length ≡ pos p.size
  unfolding header
  header-buffer_length h = convert-pos (2 ^ 31) p.size h

  pub header-InRange : IsInt8 ph.part_attributes → IsPart p → PartInRange (header ph buffer_size p)
  unfolding header
  header-InRange h hp =
      let (_, _, small, big) = num_arg-set_num_arg p.num_arg counted_header hp.num_arg_in in
      record {
        part_kind_in = rw ((set_num_arg_keeps p.num_arg counted_header).0) hp.kind_in;
        part_attributes_in = rw ((set_num_arg_keeps p.num_arg counted_header).1) h;
        argument_count_in = small;
        big_argument_count_in = big;
        buffer_length_in = signed-IsSigned (2 ^ 31) _ (wrap-lt (2 ^ 32) (pos p.size) (omega arith));
        buffer_size_in = signed-IsSigned (2 ^ 31) _ (wrap-lt (2 ^ 32) buffer_size (omega arith));
      }

module _ {ℓ} {S : Type ℓ} (d : Decoder) (r : Reader S) (rest : Bytes) (cnt : ℕ) where
  -- The reader with its decoder before these bytes.
  abbrev pub before : Bytes → ℕ → Reader S
  before bs n = record r { dec = ready d bs n }

  pub decode_part_header-ready :
      (h : PartHeader)
      → PartInRange h
      → decode_part_header (before (encode_part h [] ++ rest) cnt)
        ≡ returns tt (record r { dec = ready d rest (cnt + part_header_size); ph = h })
  unfolding decode_part_header ready
  decode_part_header-ready h hr = rw ((decode_part-encode_part d h r.ph rest cnt hr).0)

  skip_part-ready :
      (got : Bytes)
      → r.ph.buffer_length ≡ pos (length got)
      → skip_part (before (got ++ rest) cnt) ≡ returns tt (before rest (cnt + length got))
  unfolding skip_part skip_int
  skip_part-ready got h = rw h (rw (skip-ready d rest cnt got))

  pub skip_zeroes :
      (n : ℕ) → skip n (ready d (replicate n 0 ++ rest) cnt) ≡ (tt, ready d rest (cnt + n))
  skip_zeroes n = rw (length_zeroes n) at (skip-ready d rest cnt (replicate n 0))

  pub skip_padding-ready :
      (n : ℕ)
      → pad_bytes r.ph.buffer_length ≡ n
      → skip_padding (before (replicate n 0 ++ rest) cnt) ≡ returns n (before rest (cnt + n))
  unfolding skip_padding
  skip_padding-ready n h = rw h (rw (skip_zeroes n))

-- A caller's function that reads nothing: it may note the kind and the attributes, and it skips.
-- Without a function nothing is noted.
abbrev pub Skips {ℓ} : {S : Type ℓ} → PartFn S → (ℤ → ℤ → S → S) → Type ℓ
Skips {S = S} fn note =
    (r : Reader S)
    → call_fn fn r
      ≡ returns skipped (record r { caller = note r.ph.part_kind r.ph.part_attributes r.caller })

module _ {ℓ} {S : Type ℓ} (fn : PartFn S) (note : ℤ → ℤ → S → S) (skips : Skips fn note) where
  -- The switch on the kind skips the part's bytes.
  pub read_kind-ready :
      (d : Decoder) (r : Reader S) (got rest : Bytes) (cnt : ℕ) (p : Progress)
      → r.ph.buffer_length ≡ pos (length got)
      → eq_ℤ r.ph.part_kind pk_error ≡ false
      → eq_ℤ r.ph.part_kind pk_rows_affected ≡ false
      → read_kind fn p (record r { dec = ready d (got ++ rest) cnt })
        ≡ returns p (record r {
          dec = ready d rest (cnt + length got);
          caller = note r.ph.part_kind r.ph.part_attributes r.caller;
        })
  unfolding read_kind after_answer
  read_kind-ready d r got rest cnt p h e f =
      rw (e, f)
        (rw (skips (record r { dec = ready d (got ++ rest) cnt })) (
          rw (
            skip_part-ready d
              (record r { caller = note r.ph.part_kind r.ph.part_attributes r.caller }) rest cnt got
              h)))
