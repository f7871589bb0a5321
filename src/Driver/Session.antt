-- ===== src/Driver/Session.antt =====
-- driver/session.go: writing large objects behind an execution. The exchange of a request for its reply is
-- a parameter, over a state W of the database and the connection.
pub mod Switching
pub mod Users
pub mod LobRounds
use go_hdb.Prelude.{
  ℕ, zero, suc, ◌+◌, Bool, true, false, not, ◌&&◌, ◌||◌, Option, none, some, List, [], ◌∷◌, ◌++◌,
  ltb, ◌==◌, if◌then◌else◌, length, get_elem?, Bytes,
}
use Prim.Native.String.{String}
use go_hdb.Prelude.Int.{pos}
use go_hdb.Driver.Identifier
use go_hdb.Protocol.Lob.{LobInDescr, WriteLobDescr, is_last_data, next_chunk}
use go_hdb.Protocol.Convert.Values.{Value, lob}
use go_hdb.Protocol.Parameter.Metadata.{ParameterField, is_lob_field}

-- What `writeLobs` returns: an error of its own, of a reader or of the exchange.
pub data LobError (E : Type 0) : Type 0 where
  lob_expected : LobError E
  invalid_number : LobError E
  id_mismatch : LobError E
  read_error : String → LobError E
  reply_error : E → LobError E

pub data LobsWritten (E : Type 0) (A : Type 0) : Type 0 where
  ok : A → LobsWritten E A
  err : LobError E → LobsWritten E A
  panic : LobsWritten E A
  stuck : LobsWritten E A

abbrev pub and_then : {E A B : Type 0} → LobsWritten E A → (A → LobsWritten E B) → LobsWritten E B
and_then (ok a) f = f a
and_then (err e) f = err e
and_then panic f = panic
and_then stuck f = stuck

abbrev pub new_descr : LobInDescr → ℕ → WriteLobDescr
new_descr d id = record { lob_in_descr = d; id = id; opt = pos 0; ofs = pos 0; b = [] }

-- `ids[j]` of an object that is not yet at its end.
abbrev id_at :
    {E : Type 0}
    → List ℕ
    → ℕ
    → (ℕ → LobsWritten E (List WriteLobDescr))
    → LobsWritten E (List WriteLobDescr)
id_at ids j f = elim (get_elem? ids j) [ none ↦ panic | some id ↦ f id ]

-- The large objects that are not at their end, with their ids; j of them stand before.
unfoldable pub collect_descrs :
    {E : Type 0}
    → ℕ
    → List ℕ
    → List ParameterField
    → List Value
    → LobsWritten E (List WriteLobDescr)
collect_descrs j ids [] [] = ok []
collect_descrs j ids [] (v ∷ vs) = panic
collect_descrs j ids (f ∷ fs) [] = panic
collect_descrs j ids (f ∷ fs) (Value.nil ∷ vs) = collect_descrs j ids fs vs
collect_descrs j ids (f ∷ fs) (lob d ∷ vs) =
    let rest = collect_descrs j ids fs vs in
    let more =
      id_at ids j
        λ id. and_then (collect_descrs (j + 1) ids fs vs) λ ds. ok (new_descr d id ∷ ds) in
    if not (is_lob_field f)
    then rest
    else if ltb (length ids) j
    then err invalid_number
    else if is_last_data d.opt
    then rest
    else more
collect_descrs j ids (f ∷ fs) (v ∷ vs) =
    let rest = collect_descrs j ids fs vs in if is_lob_field f then err lob_expected else rest

-- Ids and objects are in the same order.
unfoldable pub same_ids : List WriteLobDescr → List ℕ → Bool
same_ids [] [] = true
same_ids (d ∷ ds) (id ∷ ids) = d.id == id && same_ids ds ids
same_ids _ _ = false

unfoldable pub check_ids : {E : Type 0} → List WriteLobDescr → List ℕ → Option (LobError E)
unfolding same_ids
check_ids ds ids =
    if not (length ds == length ids)
    then some invalid_number
    else if same_ids ds ids
    then none
    else some id_mismatch

abbrev pub fetched_with :
    {E : Type 0}
    → Option String × WriteLobDescr
    → LobsWritten E (List WriteLobDescr)
    → LobsWritten E (List WriteLobDescr)
fetched_with (some x, d) rest = err (read_error x)
fetched_with (none, d) rest = and_then rest λ ds. ok (d ∷ ds)

unfoldable pub fetch_all :
    {E : Type 0} → ℕ → List WriteLobDescr → LobsWritten E (List WriteLobDescr)
fetch_all n [] = ok []
fetch_all n (d ∷ ds) = fetched_with (next_chunk n d) (fetch_all n ds)

-- Those that are not at their end.
unfoldable pub remove_done : List WriteLobDescr → List WriteLobDescr
remove_done [] = []
remove_done (d ∷ ds) = if is_last_data d.opt then remove_done ds else d ∷ remove_done ds

-- A request is answered by an error, or by new ids if there are any.
pub data Reply (E : Type 0) : Type 0 where
  failed : E → Reply E
  replied : Option (List ℕ) → Reply E

abbrev ids_after : List ℕ → Option (List ℕ) → List ℕ
ids_after ids none = ids
ids_after ids (some new) = new

module _ {W E : Type 0} (chunk_size : ℕ) (send : List WriteLobDescr → W → Reply E × W) where
  abbrev pub after_reply :
      (List WriteLobDescr → List ℕ → W → LobsWritten E W)
      → List WriteLobDescr
      → List ℕ
      → Reply E × W
      → LobsWritten E W
  after_reply again ds ids (failed x, w) = err (reply_error x)
  after_reply again ds ids (replied r, w) = again (remove_done ds) (ids_after ids r) w

  abbrev pub round :
      (List WriteLobDescr → List ℕ → W → LobsWritten E W)
      → List WriteLobDescr
      → List ℕ
      → W
      → Option (LobError E)
      → LobsWritten E W
  round again ds ids w (some x) = err x
  round again ds ids w none =
      and_then (fetch_all chunk_size ds) λ ds. after_reply again ds ids (send ds w)

  -- The rounds, of which the fuel is the number; `stuck` is what comes out if there are more.
  unfoldable pub write_rounds : ℕ → List WriteLobDescr → List ℕ → W → LobsWritten E W
  write_rounds fuel [] ids w = ok w
  write_rounds zero (d ∷ ds) ids w = stuck
  write_rounds (suc fuel) (d ∷ ds) ids w =
      round (write_rounds fuel) (d ∷ ds) ids w (check_ids (d ∷ ds) ids)

  unfoldable pub write_lobs : ℕ → List ℕ → List ParameterField → List Value → W → LobsWritten E W
  unfolding write_rounds
  write_lobs fuel ids fs vs w =
      and_then (collect_descrs 0 ids fs vs) λ ds. write_rounds fuel ds ids w
