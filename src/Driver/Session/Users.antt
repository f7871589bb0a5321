-- ===== src/Driver/Session/Users.antt =====
-- session.go: what a switch of the user leaves behind.
use go_hdb.Prelude.{
  ◌≡◌, refl, ap, ◌∙◌, Bool, true, false, not, Option, none, some, [], ◌∷◌, arith, if◌then◌else◌,
}
use go_hdb.Driver.Session.Switching.{
  Text, SessionUser, Session, SwitchError, db_error, text_eq, user_equal, clone, connect_statement,
  exec_direct, connected, switch_to, switch_user, set_schema, db_result, prevent_switch_user,
}

text_eq_refl : (t : Text) → text_eq t t ≡ true
unfolding text_eq
text_eq_refl [] = refl
text_eq_refl (r ∷ rs) = ground (arith, text_eq_refl rs)

user_equal-clone : (u : SessionUser) → user_equal u (some (clone u)) ≡ true
unfolding user_equal clone
user_equal-clone u = rw (text_eq_refl u.username, text_eq_refl u.password)

if_false {ℓ} : {A : Type ℓ} (b : Bool) (x y : A) → b ≡ false → (if b then x else y) ≡ y
if_false true x y h = cc
if_false false x y h = refl

module _ {W E : Type 0} (quote : Text → Text) (send : Text → Bool → W → Option E × W)
    (count_connect : W → W) where
  -- The session that an attempt to connect leaves.
  abbrev tried : SessionUser → Session → Session
  tried u s = record s { user = some (clone u) }

  switch_other :
      (u : SessionUser) (s : Session) (w : W)
      → user_equal u s.user ≡ false
      → s.in_tx ≡ false
      → switch_user quote send count_connect (some u) s w
        ≡ connected quote send count_connect
            (tried u s)
            (exec_direct quote send count_connect (tried u s) (connect_statement u) w)
  unfolding switch_user switch_to
  switch_other u s w other out = if_false (user_equal u s.user) _ _ other ∙ if_false s.in_tx _ _ out

  switched_session :
      (t : Session) (r : Option E × W) → (connected quote send count_connect t r).1 ≡ t
  unfolding connected
  switched_session t (some e, w) = refl
  switched_session t (none, w) =
      result_session t (set_schema quote send count_connect t (count_connect w))
    where
      result_session :
          (t : Session) (r : Option E × W) → (db_result quote send count_connect t r).1 ≡ t
      result_session t (some e, w) = refl
      result_session t (none, w) = refl

  -- A switch to another user, outside of a transaction: whether it succeeds or not, the session has the
  -- user as its own, and nothing else of it has changed.
  pub switch_user-session :
      (u : SessionUser) (s : Session) (w : W)
      → user_equal u s.user ≡ false
      → s.in_tx ≡ false
      → (switch_user quote send count_connect (some u) s w).1 ≡ record s { user = some (clone u) }
  switch_user-session u s w other out =
      ap (λ (r : Option (SwitchError E) × Session × W). r.1) (switch_other u s w other out)
      ∙ switched_session (tried u s)
          (exec_direct quote send count_connect (tried u s) (connect_statement u) w)

  refused_result :
      (t : Session) (r : Option E × W) (e : E)
      → r.0 ≡ some e
      → (connected quote send count_connect t r).0 ≡ some (db_error e)
  unfolding connected
  refused_result t (some x, w) e h = cc
  refused_result t (none, w) e h = cc

  refusal :
      (u : SessionUser) (s : Session) (w : W) (e : E)
      → user_equal u s.user ≡ false
      → s.in_tx ≡ false
      → (send (connect_statement u) true w).0 ≡ some e
      → (switch_user quote send count_connect (some u) s w).0 ≡ some (db_error e)
  unfolding exec_direct
  refusal u s w e other out refused =
      ap (λ (r : Option (SwitchError E) × Session × W). r.0) (switch_other u s w other out)
      ∙ refused_result (tried u s) (send (connect_statement u) (not s.in_tx) w) e
          (ap (λ (b : Bool). (send (connect_statement u) (not b) w).0) out ∙ refused)

  not_prevented :
      (u : SessionUser) (s : Session)
      → user_equal u s.user ≡ true
      → prevent_switch_user {E = E} (some u) s ≡ none
  unfolding prevent_switch_user
  not_prevented u s h = rw h refl

  -- A session whose user is u: a switch to u is done, without an error, with nothing sent.
  same_user :
      (u : SessionUser) (s : Session) (w : W)
      → user_equal u s.user ≡ true
      → switch_user quote send count_connect (some u) s w ≡ (none, s, w)
  unfolding switch_user switch_to
  same_user u s w h = rw h refl

  -- Outside of a transaction, where the database refuses the connect of another user with an error: the
  -- switch returns that error, but the next switch to the user returns none and sends nothing, and the
  -- user is not prevented from statements that are prepared.
  pub switch_user_after_refusal :
      (u : SessionUser) (s : Session) (w w' : W) (e : E)
      → user_equal u s.user ≡ false
      → s.in_tx ≡ false
      → (send (connect_statement u) true w).0 ≡ some e
      → let (r, t, _) = switch_user quote send count_connect (some u) s w in
        (r ≡ some (db_error e))
        × (switch_user quote send count_connect (some u) t w' ≡ (none, t, w'))
        × (prevent_switch_user {E = E} (some u) t ≡ none)
  switch_user_after_refusal u s w w' e other out refused =
      let now : user_equal u (switch_user quote send count_connect (some u) s w).1.user ≡ true =
        rw (switch_user-session u s w other out) (user_equal-clone u) in
      (
        refusal u s w e other out refused,
        same_user u (switch_user quote send count_connect (some u) s w).1 w' now,
        not_prevented u (switch_user quote send count_connect (some u) s w).1 now,
      )

  -- The schema of the user makes no difference to a switch.
  pub switch_user-schema :
      (u : SessionUser) (schema : Text) (s : Session) (w : W)
      → switch_user quote send count_connect (some (record u { schema = schema })) s w
        ≡ switch_user quote send count_connect (some u) s w
  unfolding switch_user switch_to user_equal clone connect_statement
  switch_user-schema u schema s w = refl
