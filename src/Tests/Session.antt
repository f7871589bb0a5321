-- ===== src/Tests/Session.antt =====
-- Sessions: switches of the user, and large objects in rounds.
use go_hdb.Prelude.{ℕ, ◌+◌, ◌≡◌, refl, arith, Bool, false, Option, none, some, List, [], ◌∷◌}
use go_hdb.Prelude.Int.{pos}
use go_hdb.Protocol.Lob.{WriteLobDescr}
use go_hdb.Driver.Session.Switching.{
  Text, SessionUser, Session, db_error, switch_user, prevent_switch_user, user_equal,
}
use go_hdb.Driver.Session.{ok, Reply, replied, remove_done, write_rounds}
use go_hdb.Driver.Session.Users.{switch_user_after_refusal, switch_user-schema}
use go_hdb.Driver.Session.LobRounds.{ids_of, write_rounds-ok}

abbrev guest : SessionUser
guest = record { username = b'A' ∷ []; password = b'x' ∷ []; schema = b'S' ∷ [] }

abbrev session : Session
session = record {
  user = none;
  in_tx = false;
  cancelled = false;
  has_error = false;
  default_schema = [];
}

-- The database refuses all statements, which are logged.
abbrev refuse : Text → Bool → List Text → Option ℕ × List Text
refuse query commit log = (some 10, query ∷ log)

abbrev unchanged : List Text → List Text
unchanged log = log

abbrev quoted : Text → Text
quoted t = t

switch_user_after_refusal_example :
    let (r, t, _) = switch_user quoted refuse unchanged (some guest) session [] in
    (r ≡ some (db_error 10))
    × (switch_user quoted refuse unchanged (some guest) t [] ≡ (none, t, []))
    × (prevent_switch_user {E = ℕ} (some guest) t ≡ none)
unfolding user_equal
switch_user_after_refusal_example =
    switch_user_after_refusal quoted refuse unchanged guest session [] [] 10 refl refl refl

switch_user-schema_example :
    switch_user quoted refuse unchanged (some (record guest { schema = [] })) session []
    ≡ switch_user quoted refuse unchanged (some guest) session []
switch_user-schema_example = switch_user-schema quoted refuse unchanged guest [] session []

-- Requests are counted.
abbrev answer : List WriteLobDescr → ℕ → Reply ℕ × ℕ
answer ds k = (replied (some (ids_of (remove_done ds))), k + 1)

abbrev object : ℕ → WriteLobDescr
object id = record {
  lob_in_descr = record {
    rd = record { bytes = 1 ∷ 2 ∷ 3 ∷ []; fault = none };
    opt = pos 2;
    position = 0;
    buf = [];
  };
  id = id;
  opt = pos 0;
  ofs = pos 0;
  b = [];
}

write_rounds-ok_example :
    (k : ℕ) × (write_rounds 2 answer 8 (object 7 ∷ object 8 ∷ []) (7 ∷ 8 ∷ []) 0 ≡ ok k)
write_rounds-ok_example =
    write_rounds-ok 2 answer (omega arith) (λ ds w. refl) 8 (object 7 ∷ object 8 ∷ []) 0
      (omega arith) (refl, (refl, tt))
