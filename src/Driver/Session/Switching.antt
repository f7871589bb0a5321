-- ===== src/Driver/Session/Switching.antt =====
-- driver/session.go: switching the user of a session. The exchange of a statement for its reply is a
-- parameter, over a state W of the database and the connection, as is the counting of connects.
use go_hdb.Prelude.{
  ℕ, Bool, true, false, not, ◌&&◌, ◌||◌, Option, none, some, List, [], ◌∷◌, ◌++◌, ◌==◌,
  if◌then◌else◌,
}
use go_hdb.Driver.Identifier

-- The texts of Go, as their runes.
abbrev pub Text : Type 0
Text = List ℕ

unfoldable pub text_eq : Text → Text → Bool
text_eq [] [] = true
text_eq [] (b ∷ bs) = false
text_eq (a ∷ as') [] = false
text_eq (a ∷ as') (b ∷ bs) = a == b && text_eq as' bs

pub record SessionUser : Type 0 where
  pub username : Text
  pub password : Text
  pub schema : Text

-- `equal`
unfoldable pub user_equal : SessionUser → Option SessionUser → Bool
unfolding text_eq
user_equal u none = false
user_equal u (some c) = text_eq u.username c.username && text_eq u.password c.password

unfoldable pub clone : SessionUser → SessionUser
clone u = record { username = u.username; password = u.password; schema = [] }

-- The session without its reader and writer; `has_error` is that of the writer.
pub record Session : Type 0 where
  pub user : Option SessionUser
  pub in_tx : Bool
  pub cancelled : Bool
  pub has_error : Bool
  pub default_schema : Text

unfoldable pub is_bad : Session → Bool
is_bad s = s.cancelled || s.has_error

unfoldable pub cancel : Session → Session
cancel s = record s { cancelled = true }

-- ErrSwitchUser, or the error of the database.
pub data SwitchError (E : Type 0) : Type 0 where
  switch_user_error : SwitchError E
  db_error : E → SwitchError E

abbrev pub connect_text : Text
connect_text = b'c' ∷ b'o' ∷ b'n' ∷ b'n' ∷ b'e' ∷ b'c' ∷ b't' ∷ b' ' ∷ []

abbrev pub password_text : Text
password_text = b' ' ∷ b'p' ∷ b'a' ∷ b's' ∷ b's' ∷ b'w' ∷ b'o' ∷ b'r' ∷ b'd' ∷ b' ' ∷ []

abbrev pub set_schema_text : Text
set_schema_text = b's' ∷ b'e' ∷ b't' ∷ b' ' ∷ b's' ∷ b'c' ∷ b'h' ∷ b'e' ∷ b'm' ∷ b'a' ∷ b' ' ∷ []

abbrev is_empty : Text → Bool
is_empty [] = true
is_empty (r ∷ rs) = false

unfoldable pub connect_statement : SessionUser → Text
connect_statement u = connect_text ++ (u.username ++ (password_text ++ u.password))

-- The schema to set, if there is one.
unfoldable pub schema_of : Session → Option Text
schema_of s =
    let rest = if is_empty s.default_schema then none else some s.default_schema in
    elim s.user [ none ↦ rest | some u ↦ if is_empty u.schema then rest else some u.schema ]

-- `quote` is strconv.Quote; a statement is sent with the flag that commits it.
module _ {W E : Type 0} (quote : Text → Text) (send : Text → Bool → W → Option E × W)
    (count_connect : W → W) where
  unfoldable pub exec_direct : Session → Text → W → Option E × W
  exec_direct s query w = send query (not s.in_tx) w

  unfoldable pub set_schema : Session → W → Option E × W
  unfolding exec_direct
  set_schema s w = elim (schema_of s) [
    | none ↦ (none, w)
    | some schema ↦ exec_direct s (set_schema_text ++ Identifier.to_string quote schema) w
  ]

  abbrev pub db_result : Session → Option E × W → Option (SwitchError E) × Session × W
  db_result s (none, w) = (none, s, w)
  db_result s (some e, w) = (some (db_error e), s, w)

  -- Behind the connect statement.
  unfoldable pub connected : Session → Option E × W → Option (SwitchError E) × Session × W
  unfolding set_schema
  connected s (some e, w) = (some (db_error e), s, w)
  connected s (none, w) = db_result s (set_schema s (count_connect w))

  unfoldable pub switch_to : SessionUser → Session → W → Option (SwitchError E) × Session × W
  unfolding connected exec_direct
  switch_to u s w =
      if user_equal u s.user
      then (none, s, w)
      else if s.in_tx
      then (some switch_user_error, s, w)
      else (let t = record s { user = some (clone u) } in
          connected t (exec_direct t (connect_statement u) w))

  -- The user is that of the context.
  unfoldable pub switch_user :
      Option SessionUser → Session → W → Option (SwitchError E) × Session × W
  unfolding switch_to
  switch_user none s w = (none, s, w)
  switch_user (some u) s w = switch_to u s w

unfoldable pub prevent_switch_user :
    {E : Type 0} → Option SessionUser → Session → Option (SwitchError E)
prevent_switch_user none s = none
prevent_switch_user (some u) s = if user_equal u s.user then none else some switch_user_error
