-- ===== src/Protocol/Reader.antt =====
-- driver/internal/protocol/protocol.go: `Reader`, which walks through the parts of a message.
-- `protTrace` is off, so no part is read for logging; the prolog is not part of this.
pub mod Iterate
pub mod Skip
pub mod Framing
pub mod Message
pub mod Errors
use Prim.Native.String.{String}
use go_hdb.Prelude.{
  ℕ, zero, suc, ◌+◌, ◌-◌, Bool, true, false, Option, none, some, List, [], ◌∷◌, Outcome, ok, panic,
  ltb, ◌==◌, if◌then◌else◌,
}
use go_hdb.Prelude.Int.{ℤ, pos, negsuc, pos_part, ltb_ℤ, eq_ℤ, ◌-ℤ◌}
use go_hdb.Encoding.Decoder.{IoError, Decoder, Decoding, skip}
use go_hdb.Protocol.Headers.{
  MessageHeader, SegmentHeader, PartHeader, segment_header_size, part_header_size,
}
use go_hdb.Protocol.Errors.{HdbErrors}

-- The fields that change, and the variables S that the caller's function captures.
pub record Reader {ℓ} (S : Type ℓ) : Type ℓ where
  pub dec : Decoder
  pub mh : MessageHeader
  pub sh : SegmentHeader
  pub ph : PartHeader
  pub hdb_errors : HdbErrors
  pub rows_affected : List ℤ
  pub caller : S

-- The errors that `IterateParts` returns.
pub data IterError : Type 0 where
  io_error : IoError → IterError
  database_error : HdbErrors → IterError
  caller_error : String → IterError

-- A method of the reader returns a value, returns early with an error, or panics.
pub data Result {ℓ κ} (S : Type ℓ) (A : Type κ) : Type (ℓ ⊔ κ) where
  returns : A → Reader S → Result S A
  fails : IterError → Reader S → Result S A
  panics : Result S A

abbrev pub Method {ℓ κ} : Type ℓ → Type κ → Type (ℓ ⊔ κ)
Method S A = Reader S → Result S A

infixl 5 ◌>>=◌ ◌>>◌
abbrev pub bind {ℓ κ μ} :
    {S : Type ℓ} {A : Type κ} {B : Type μ} → Result S A → (A → Method S B) → Result S B
bind (returns a r) f = f a r
bind (fails e r) f = fails e r
bind panics f = panics

abbrev pub ◌>>=◌ {ℓ κ μ} :
    {S : Type ℓ} {A : Type κ} {B : Type μ} → Method S A → (A → Method S B) → Method S B
◌>>=◌ m f r = bind (m r) f

abbrev pub ◌>>◌ {ℓ μ} : {S : Type ℓ} {B : Type μ} → Method S (Unit {0}) → Method S B → Method S B
◌>>◌ m k r = bind (m r) (λ _. k)

module _ {ℓ} {S : Type ℓ} where
  abbrev pub pure {κ} : {A : Type κ} → A → Method S A
  pure a r = returns a r

  -- A read of the decoder, and one that may panic.
  abbrev pub on_dec {κ} : {A : Type κ} → Decoding A → Method S A
  on_dec m r = let (a, d) = m r.dec in returns a (record r { dec = d })

  abbrev pub of_outcome {κ} : {A : Type κ} → Reader S → Outcome A → Result S A
  of_outcome r (ok a) = returns a r
  of_outcome r panic = panics

  -- `if err != nil { return 0, err }`
  abbrev pub check : Option IoError → Method S (Unit {0})
  check none r = returns tt r
  check (some e) r = fails (io_error e) r

  -- `Skip` of an int: a negative one panics as it cuts the scratch buffer.
  unfoldable pub skip_int : ℤ → Method S (Unit {0})
  skip_int (pos n) r = on_dec (skip n) r
  skip_int (negsuc n) r = panics

  -- `ReadPart` behind the decoding that took `cnt` bytes.
  unfoldable pub skip_unread {κ} : {A : Type κ} → A → ℕ → Method S A
  skip_unread a cnt r =
      let buffer_len = r.ph.buffer_length in
      if ltb_ℤ (pos cnt) buffer_len
      then bind (skip_int (buffer_len -ℤ pos cnt) r) (λ _. pure a)
      else if ltb_ℤ buffer_len (pos cnt)
      then panics
      else returns a r

  -- `ReadPart` with the decoding of the part.
  unfoldable pub read_part {κ} : {A : Type κ} → (PartHeader → Decoding (Outcome A)) → Method S A
  read_part decode r =
      let (o, d) = decode r.ph r.dec in
      bind (of_outcome (record r { dec = d }) o) (λ a. skip_unread a (d.cnt - r.dec.cnt))
