-- ===== src/Protocol/Reader/Iterate.antt =====
-- `IterateParts` of `Reader`.
use Prim.Native.String.{String}
use go_hdb.Prelude.{
  ℕ, zero, suc, ◌+◌, ◌-◌, Bool, true, false, not, Option, none, some, List, [], ◌∷◌, Outcome, ltb,
  ◌==◌, if◌then◌else◌, map_ok,
}
use go_hdb.Prelude.Int.{ℤ, pos, pos_part, eq_ℤ}
use go_hdb.Encoding.Decoder.{IoError, Decoding, skip}
use go_hdb.Protocol.Errors.{HdbErrors, set_stmt_no}
use go_hdb.Protocol.Errors
use go_hdb.Protocol.Headers.{segment_header_size, part_header_size}
use go_hdb.Protocol.Headers.Decode.{decode_message, decode_segment, decode_part}
use go_hdb.Protocol.Headers.NumArg.{num_arg}
use go_hdb.Protocol.Padding.{pad_bytes}
use go_hdb.Protocol.RowsAffected.{ra_execution_failed, total}
use go_hdb.Protocol.RowsAffected
use go_hdb.Protocol.Reader.{
  IterError, io_error, database_error, caller_error, returns, fails, panics, Method, ◌>>=◌, ◌>>◌,
  bind, pure, on_dec, check, skip_int, read_part,
}

-- pkError and pkRowsAffected
abbrev pub pk_error : ℤ
pk_error = pos 6

abbrev pub pk_rows_affected : ℤ
pk_rows_affected = pos 12

-- What the caller's function returns: nil, ErrSkipped or another error.
pub data Answer : Type 0 where
  handled skipped : Answer
  failed : String → Answer

-- The caller's function of a part's kind and attributes; nil as `none`.
abbrev pub PartFn {ℓ} : Type ℓ → Type ℓ
PartFn S = Option (ℤ → ℤ → Method S Answer)

-- The local variables: `numReadByte`, and whether `hdbErrors` and `rowsAffected` are set.
pub record Progress : Type 0 where
  pub num_read_byte : ℕ
  pub errors_read : Bool
  pub rows_read : Bool

-- `decodeNumArg` of a part, with the error that it returns.
abbrev with_error {ℓ} :
    {A : Type ℓ} → Decoding (Outcome A) → Decoding (Outcome (A × Option IoError))
with_error m d = let (o, d') = m d in (map_ok (λ a. (a, d'.err)) o, d')

module _ {ℓ} {S : Type ℓ} where
  unfoldable pub read_rows : Method S (Unit {0})
  read_rows = do
    (rows, e) ← read_part (λ ph. with_error (RowsAffected.decode_num_arg (num_arg ph)))
    λ r. check e (record r { rows_affected = rows })

  unfoldable pub read_errors : Method S (Unit {0})
  read_errors r =
      bind (read_part (λ ph. with_error (Errors.decode_num_arg r.hdb_errors (num_arg ph))) r)
        (λ (es, e) r'. check e (record r' { hdb_errors = es }))

  -- `r.dec.Skip(int(r.ph.bufferLength))`
  unfoldable pub skip_part : Method S (Unit {0})
  skip_part r = skip_int r.ph.buffer_length r

  unfoldable pub after_answer : Answer → Method S (Unit {0})
  after_answer handled r = pure tt r
  after_answer skipped r = skip_part r
  after_answer (failed x) r = fails (caller_error x) r

  unfoldable pub call_fn : PartFn S → Method S Answer
  call_fn none r = returns skipped r
  call_fn (some fn) r = fn r.ph.part_kind r.ph.part_attributes r

  -- The switch on the part's kind.
  unfoldable pub read_kind : PartFn S → Progress → Method S Progress
  read_kind fn p r =
      if eq_ℤ r.ph.part_kind pk_rows_affected
      then bind (read_rows r) (λ _. pure (record p { rows_read = true }))
      else if eq_ℤ r.ph.part_kind pk_error
      then bind (read_errors r) (λ _. pure (record p { errors_read = true }))
      else bind (call_fn fn r) (λ answer. do after_answer answer; pure p)

  -- `skipPadding`, which returns the bytes that it skipped.
  unfoldable pub skip_padding : Method S ℕ
  skip_padding r = let n = pad_bytes r.ph.buffer_length in bind (on_dec (skip n) r) (λ _. pure n)

  unfoldable pub decode_part_header : Method S (Unit {0})
  decode_part_header r =
      bind (on_dec (decode_part r.ph) r) (λ (ph, e) r'. check e (record r' { ph = ph }))

  -- `numReadByte += int64(r.dec.Cnt()) - int64(cntBefore)`
  abbrev counted : ℕ → Progress → Method S Progress
  counted cnt_before p r =
      returns (record p { num_read_byte = p.num_read_byte + (r.dec.cnt - cnt_before) }) r

  -- `if j != lastPart`; `left` is the number of parts behind this one.
  unfoldable pub pad_between : ℕ → Progress → Method S Progress
  pad_between zero p r = returns p r
  pad_between (suc left) p r =
      bind (skip_padding r) (λ n. pure (record p { num_read_byte = p.num_read_byte + n }))

  -- The loop over the parts of a segment.
  unfoldable pub read_parts : PartFn S → ℕ → Progress → Method S Progress
  read_parts fn zero p r = returns p r
  read_parts fn (suc left) p r =
      let rest = read_parts fn left in
      bind (decode_part_header r) (λ _ r1.
        bind (read_kind fn (record p { num_read_byte = p.num_read_byte + part_header_size }) r1)
          (λ p1 r2. bind (counted r1.dec.cnt p1 r2) (λ p2 r3. bind (pad_between left p2 r3) rest)))

  unfoldable pub decode_segment_header : Method S (Unit {0})
  decode_segment_header r =
      bind (on_dec (decode_segment r.sh) r) (λ (sh, e) r'. check e (record r' { sh = sh }))

  -- The loop over the segments; a count that is not positive makes no round.
  unfoldable pub read_segments : PartFn S → ℕ → Progress → Method S Progress
  read_segments fn zero p r = returns p r
  read_segments fn (suc left) p r =
      let rest = read_segments fn left in
      bind (decode_segment_header r) (λ _ r1.
        bind
          (read_parts fn (pos_part r1.sh.no_of_parts)
            (record p { num_read_byte = p.num_read_byte + segment_header_size }) r1)
          rest)

  unfoldable pub decode_message_header : Method S (Unit {0})
  decode_message_header r =
      bind (on_dec (decode_message r.mh) r) (λ (mh, e) r'. check e (record r' { mh = mh }))

  -- `skipPaddingLastPart`: what the message header announced and was not read yet.
  unfoldable pub skip_padding_last_part : ℕ → Method S (Unit {0})
  skip_padding_last_part num_read_byte r =
      if ltb r.mh.var_part_length num_read_byte
      then panics
      else (let n = r.mh.var_part_length - num_read_byte in
          if n == 0 then returns tt r else on_dec (skip n) r)

  -- `dec.Error()`, which is reset when it is returned.
  unfoldable pub check_dec : Method S (Unit {0})
  check_dec r = elim r.dec.err [
    | none ↦ returns tt r
    | some e ↦ fails (io_error e) (record r { dec = record r.dec { err = none } })
  ]

-- The j-th error belongs to the j-th row that failed; `i` is the number of rows before.
unfoldable pub link_errors : ℕ → ℕ → ℕ → List ℤ → HdbErrors → HdbErrors
link_errors offset j i [] es = es
link_errors offset j i (row ∷ rows) es =
    let failed_row = eq_ℤ row ra_execution_failed in
    link_errors offset (if failed_row then j + 1 else j) (i + 1) rows
      (if failed_row then set_stmt_no j (pos (offset + i)) es else es)

module _ {ℓ} {S : Type ℓ} where
  -- What is returned at the end: the number of rows, and the errors unless they are only warnings.
  unfoldable pub conclude : ℕ → Progress → Method S (ℕ × Option IterError)
  conclude offset p r =
      let num_row = if p.rows_read then total r.rows_affected else 0 in
      if not p.errors_read
      then returns (num_row, none) r
      else (let es =
            if p.rows_read
            then link_errors offset 0 0 r.rows_affected r.hdb_errors
            else r.hdb_errors in
          returns (num_row, if es.only_warnings then none else some (database_error es))
            (record r { hdb_errors = es }))

  unfoldable pub iterate_parts : ℕ → PartFn S → Method S (ℕ × Option IterError)
  iterate_parts offset fn r = bind (decode_message_header r) (λ _ r1.
      bind
        (read_segments fn (pos_part r1.mh.no_of_segm)
          (record { num_read_byte = 0; errors_read = false; rows_read = false }) r1)
        (λ p r2.
          bind (skip_padding_last_part p.num_read_byte r2)
            (λ _ r3. bind (check_dec r3) (λ _. conclude offset p))))
