-- ===== src/Protocol/Reader/Message.antt =====
-- `IterateParts` over the whole message that `_write` sent.
use go_hdb.Prelude.{
  ℕ, zero, suc, ◌+◌, ◌-◌, ◌≤◌, ◌<◌, ◌^◌, ◌≡◌, refl, sym, ap, ◌∙◌, Bool, true, false, none, List, [],
  ◌∷◌, ◌++◌, arith, length, Bytes, All, replicate, ltb, ◌==◌, Option,
}
use go_hdb.Prelude.Int.{
  convert-pos, ℤ, pos, IsInt8, IsInt16, IsInt32, IsInt64, pos_part, ◌-ℤ◌, signed-IsSigned, wrap-lt,
}
use go_hdb.Encoding.Decoder.{Decoder}
use go_hdb.Encoding.Decoder.Ready.{ready}
use go_hdb.Protocol.Headers.{MessageHeader, SegmentHeader, segment_header_size}
use go_hdb.Protocol.Headers.Encode.{encode_message, encode_segment}
use go_hdb.Protocol.Headers.RoundTrip.{MessageInRange, decode_message-encode_message}
use go_hdb.Protocol.Headers.Segment.{SegmentInRange, received, decode_segment-encode_segment}
use go_hdb.Protocol.Writer.{PartEncoder, Writer, message_size, max_int32, set_message, set_segment}
use go_hdb.Protocol.Writer.Frame.{IsPart, frames, message_size-frames_size}
use go_hdb.Protocol.Writer.Write.{message, message_header, segment_header, length-message}
use go_hdb.Protocol.Reader.{Reader, Result, IterError, returns, bind}
use go_hdb.Protocol.Reader.Iterate.{
  PartFn, Progress, decode_message_header, decode_segment_header, read_parts, read_segments,
  skip_padding_last_part, check_dec, conclude, iterate_parts,
}
use go_hdb.Protocol.Reader.Skip.{IsRequestPart, Skips, skip_zeroes}
use go_hdb.Protocol.Reader.Framing.{last_pad, noted, read_parts-frames}
use native.Mathlib.Nat.{add-zero}
use mathlib.Core.List.{append_assoc}

-- A request that `_write` can send as it means to: parts that keep their contract, in a number and a
-- size that the headers can say, and fields in the range of their types.
pub record IsSendable (w : Writer) (message_type : ℤ) (parts : List PartEncoder) : Type 0 where
  pub parts_in : All IsRequestPart parts
  pub num_part_in : length parts < 2 ^ 15
  pub size_in : message_size parts ≤ max_int32
  pub message_type_in : IsInt8 message_type
  pub session_id_in : IsInt64 w.session_id
  pub packet_count_in : IsInt32 w.mh.packet_count
  pub command_options_in : IsInt8 w.sh.command_options
  pub function_code_in : IsInt16 w.sh.function_code
  pub part_attributes_in : IsInt8 w.ph.part_attributes

All-IsPart : (parts : List PartEncoder) → All IsRequestPart parts → All IsPart parts
All-IsPart [] h = tt
All-IsPart (p ∷ ps) (h, hs) = (h.is_part, All-IsPart ps hs)

ltb_of_le : (a b : ℕ) → b ≤ a → ltb a b ≡ false
ltb_of_le a b h = ground arith

sub_zero : (a b : ℕ) → a ≤ b → ((a - b) == 0) ≡ true
sub_zero a b h = ground arith

sub_suc : (a b k : ℕ) → b + suc k ≤ a → ((a - b) == 0) ≡ false
sub_suc a b k h = ground arith

sub_is : (a b k : ℕ) → b + k ≡ a → a - b ≡ k
sub_is a b k h = omega arith

module _ {ℓ} {S : Type ℓ} (d : Decoder) (r : Reader S) (rest : Bytes) (cnt : ℕ) where
  decode_message_header-ready :
      (h : MessageHeader)
      → MessageInRange h
      → decode_message_header (record r { dec = ready d (encode_message h [] ++ rest) cnt })
        ≡ returns tt (record r { dec = ready d rest (cnt + 32); mh = h })
  unfolding decode_message_header ready
  decode_message_header-ready h hr = rw ((decode_message-encode_message d h r.mh rest cnt hr).0)

  decode_segment_header-ready :
      (h : SegmentHeader)
      → SegmentInRange h
      → decode_segment_header (record r { dec = ready d (encode_segment h [] ++ rest) cnt })
        ≡ returns tt
            (record r { dec = ready d rest (cnt + segment_header_size); sh = received h r.sh })
  unfolding decode_segment_header ready
  decode_segment_header-ready h hr = rw ((decode_segment-encode_segment d h r.sh rest cnt hr).0)

  -- The padding of the last part is what the message header announced and nobody read.
  skip_padding_last_part-ready :
      (n pad : ℕ)
      → n + pad ≡ r.mh.var_part_length
      → skip_padding_last_part n (record r { dec = ready d (replicate pad 0 ++ rest) cnt })
        ≡ returns tt (record r { dec = ready d rest (cnt + pad) })
  unfolding skip_padding_last_part
  skip_padding_last_part-ready n zero h = rw (
    ltb_of_le r.mh.var_part_length n (omega arith),
    sub_zero r.mh.var_part_length n (omega arith),
    add-zero,
  )
  skip_padding_last_part-ready n (suc pad) h =
      rw
        (
          ltb_of_le r.mh.var_part_length n (omega arith),
          sub_suc r.mh.var_part_length n pad (omega arith),
          sub_is r.mh.var_part_length n (suc pad) (omega arith),
        )
        (rw (skip_zeroes d r rest cnt (suc pad)))

  check_dec-ready :
      check_dec (record r { dec = ready d rest cnt })
      ≡ returns tt (record r { dec = ready d rest cnt })
  unfolding check_dec ready
  check_dec-ready = refl

-- One segment, whose header says how many parts follow.
module _ {ℓ} {S : Type ℓ} (fn : PartFn S) (note : ℤ → ℤ → S → S) (skips : Skips fn note) where
  pub read_segments-message :
      (d : Decoder) (r : Reader S) (rest : Bytes) (cnt : ℕ) (q : Progress) (sh : SegmentHeader)
      (n : ℕ)
      → SegmentInRange sh
      → (received sh r.sh).no_of_parts ≡ pos n
      → read_segments fn 1 q (record r { dec = ready d (encode_segment sh [] ++ rest) cnt })
        ≡ bind
            (read_parts fn n
              (record q { num_read_byte = q.num_read_byte + segment_header_size })
              (record r { dec = ready d rest (cnt + segment_header_size); sh = received sh r.sh }))
            (read_segments fn 0)
  unfolding read_segments
  read_segments-message d r rest cnt q sh n h e =
      rw (decode_segment_header-ready d r rest cnt sh h) (
        ap
          (λ (k : ℕ).
            bind
              (read_parts fn k (record q { num_read_byte = q.num_read_byte + segment_header_size })
                (record r {
                  dec = ready d rest (cnt + segment_header_size);
                  sh = received sh r.sh;
                }))
              (read_segments fn 0))
          {x = pos_part (received sh r.sh).no_of_parts} {y = n} (ap pos_part e))

module _ (w : Writer) (message_type : ℤ) (commit : Bool) (parts : List PartEncoder) where
  abbrev sh : SegmentHeader
  sh = segment_header w message_type commit parts

  message_header-InRange : IsSendable w message_type parts → MessageInRange (message_header w parts)
  unfolding set_message
  message_header-InRange s = record {
    session_id_in = s.session_id_in;
    packet_count_in = s.packet_count_in;
    var_part_length_in = omega (arith, s.size_in);
    var_part_size_in = omega (arith, s.size_in);
    no_of_segm_in = omega arith;
  }

  segment_header-InRange : IsSendable w message_type parts → SegmentInRange sh
  unfolding set_segment
  segment_header-InRange s = record {
    segment_length_in =
        signed-IsSigned (2 ^ 31) _ (wrap-lt (2 ^ 32) (pos (message_size parts)) (omega arith));
    segment_ofs_in = omega arith;
    no_of_parts_in =
        signed-IsSigned (2 ^ 15) _ (wrap-lt (2 ^ 16) (pos (length parts)) (omega arith));
    segment_no_in = omega arith;
    segment_kind_in = omega arith;
    message_type_in = s.message_type_in;
    command_options_in = s.command_options_in;
    function_code_in = s.function_code_in;
  }

  received-no_of_parts :
      (h₀ : SegmentHeader)
      → IsSendable w message_type parts
      → (received sh h₀).no_of_parts ≡ pos (length parts)
  unfolding set_segment
  received-no_of_parts h₀ s = convert-pos (2 ^ 15) (length parts) s.num_part_in

  message-regroup :
      (rest : Bytes)
      → message w message_type commit parts ++ rest
        ≡ encode_message (message_header w parts) []
          ++ (encode_segment sh []
              ++ (frames w.ph (pos (message_size parts) -ℤ pos segment_header_size) parts ++ rest))
  unfolding message
  message-regroup rest = simp append_assoc

-- What `IterateParts` comes to on a message: no rows and no error, the decoder exactly behind the
-- message, and the caller's notes of the parts in their order.
abbrev pub Delivers {ℓ} :
    {S : Type ℓ} → Decoder → Reader S → Bytes → ℕ → S → Result S (ℕ × Option IterError) → Type ℓ
Delivers {S = S} d r rest cnt seen result =
    (r' : Reader S) × (result ≡ returns (0, none) r')
    × (r'.dec ≡ ready d rest cnt)
    × (r'.caller ≡ seen)

module _ {ℓ} {S : Type ℓ} (fn : PartFn S) (note : ℤ → ℤ → S → S) (skips : Skips fn note)
    (w : Writer) (message_type : ℤ) (commit : Bool) (parts : List PartEncoder)
    (s : IsSendable w message_type parts) where
  -- `IterateParts` over the bytes that `_write` framed for a request that is sendable, whatever bytes
  -- follow, with a caller that skips every part: no rows, no error, the caller's notes of the parts in
  -- their order, and the decoder exactly behind the message.
  pub iterate_parts-message :
      (d : Decoder) (r : Reader S) (rest : Bytes) (cnt offset : ℕ)
      → let bytes = message w message_type commit parts in
        Delivers d r rest
          (cnt + length bytes)
          (noted note w.ph.part_attributes parts r.caller)
          (iterate_parts offset fn (record r { dec = ready d (bytes ++ rest) cnt }))
  unfolding iterate_parts set_message read_segments check_dec conclude ready
  iterate_parts-message d r rest cnt offset =
      let mh = message_header w parts in
      let sh' = segment_header w message_type commit parts in
      let size = message_size parts in
      let fs = frames w.ph (pos size -ℤ pos segment_header_size) parts in
      let start : Progress = record { num_read_byte = 0; errors_read = false; rows_read = false } in
      let r1 = record r { mh = mh } in
      let r2 = record r1 { sh = received sh' r.sh } in
      let (n, c, ph, walked, counted, read) =
        read_parts-frames fn note skips parts d r2 w.ph (pos size -ℤ pos segment_header_size) rest
          (cnt + 32 + segment_header_size) (record start { num_read_byte = segment_header_size })
          w.ph.part_attributes refl s.part_attributes_in s.parts_in in
      (
        record r2 {
          dec = ready d rest (c + last_pad parts);
          ph = ph;
          caller = noted note w.ph.part_attributes parts r.caller;
        },
        rw (message-regroup w message_type commit parts rest) (
            rw
              (decode_message_header-ready d r _ cnt mh
                (message_header-InRange w message_type commit parts s))
              (rw
                (read_segments-message fn note skips d r1 (fs ++ rest) (cnt + 32) start sh'
                  (length parts) (segment_header-InRange w message_type commit parts s)
                  (received-no_of_parts w message_type commit parts r.sh s))
                (rw walked (
                  rw
                    (skip_padding_last_part-ready d
                      (record r2 {
                        ph = ph;
                        caller = noted note w.ph.part_attributes parts r.caller;
                      })
                      rest c n (last_pad parts) (counted ∙ sym (message_size-frames_size parts)))
                    refl)))),
        ap (λ (k : ℕ). ready d rest k) {x = c + last_pad parts}
            {y = cnt + length (message w message_type commit parts)}
            (omega (
              arith,
              read,
              message_size-frames_size parts,
              length-message w message_type commit parts (All-IsPart parts s.parts_in),
            )),
        refl,
      )
