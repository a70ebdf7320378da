-- ===== src/Serv/Registry/Sessions.antt =====
-- The open connections and the number of a user's sessions, which the login's limit reads.
use sshserv.Prelude.{
  ℕ, ◌+◌, ◌≡◌, inl, inr, refl, Option, none, some, List, [], ◌∷◌, if◌then◌else◌, arith, Bool-cases,
  Option-cases,
}
use sshserv.Prelude.Text.{Text, text_eq, text_eq_refl}
use sshserv.Prelude.Assoc.{lookup, insert, erase, lookup-insert}
use sshserv.Serv.Registry.{
  Registry, Connection, of_user, count_sessions, get_active_sessions, add_connection,
  remove_connection, update_connection_activity,
}

module _ (u id : Text) where
  abbrev session_of : Option Connection → ℕ
  session_of none = 0
  session_of (some c) = if of_user u c then 1 else 0

  count_sessions-insert :
      (c : Connection) (cs : List (Text × Connection))
      → count_sessions u (insert id c cs) + session_of (lookup id cs)
        ≡ count_sessions u cs + (if of_user u c then 1 else 0)
  unfolding lookup insert
  count_sessions-insert c [] = omega arith
  count_sessions-insert c ((k, d) ∷ cs) = elim (Bool-cases (text_eq k id)) [
    | inl t ↦ rw (t) (omega arith)
    | inr f ↦ rw (f) (omega (arith, count_sessions-insert c cs))
  ]

  count_sessions-erase :
      (cs : List (Text × Connection))
      → count_sessions u (erase id cs) + session_of (lookup id cs) ≡ count_sessions u cs
  unfolding lookup erase
  count_sessions-erase [] = omega arith
  count_sessions-erase ((k, d) ∷ cs) = elim (Bool-cases (text_eq k id)) [
    | inl t ↦ rw (t) (omega arith)
    | inr f ↦ rw (f) (omega (arith, count_sessions-erase cs))
  ]

  get_active_sessions-remove :
      (s : Registry)
      → get_active_sessions u (remove_connection id s) + session_of (lookup id s.open_connections)
        ≡ get_active_sessions u s
  unfolding get_active_sessions remove_connection
  get_active_sessions-remove s = count_sessions-erase s.open_connections

  -- The activity's time changes nobody's sessions, and no connection's user.
  update_connection_activity-sessions :
      (now : ℕ) (s : Registry)
      → (get_active_sessions u (update_connection_activity id now s) ≡ get_active_sessions u s)
        × (session_of (lookup id (update_connection_activity id now s).open_connections)
            ≡ session_of (lookup id s.open_connections))
  unfolding get_active_sessions update_connection_activity
  update_connection_activity-sessions now s = elim (Option-cases (lookup id s.open_connections)) [
    | inl e ↦ rw (update_connection_activity, e) (refl, rw (e) refl)
    | inr (c, e) ↦
        let c' = record c { last_activity = now } in
        let moved = count_sessions-insert c' s.open_connections in
        let found = lookup-insert id id c' s.open_connections in
        rw (update_connection_activity, e)
          (omega (arith, rw (e) at moved), rw (found, text_eq_refl id) refl)
  ]

  -- A connection that is registered under a new identifier is one session more of its user until
  -- it is removed, and then every user has as many sessions as before, also if its activity has
  -- been noted in between.
  pub get_active_sessions-connection :
      (now : ℕ) (c : Connection) (s : Registry)
      → lookup id s.open_connections ≡ none
      → (get_active_sessions u (add_connection id c s)
          ≡ get_active_sessions u s + (if of_user u c then 1 else 0))
        × (get_active_sessions u
              (remove_connection id (update_connection_activity id now (add_connection id c s)))
            ≡ get_active_sessions u s)
  unfolding get_active_sessions add_connection
  get_active_sessions-connection now c s h =
      let added = count_sessions-insert c s.open_connections in
      let one = rw (h) at added in
      let found : lookup id (insert id c s.open_connections) ≡ some c =
        rw (text_eq_refl id) at (lookup-insert id id c s.open_connections) in
      let t = add_connection id c s in
      let (same, user) = update_connection_activity-sessions now t in
      let removed = get_active_sessions-remove (update_connection_activity id now t) in
      let here = rw (found) at user in (omega (arith, one), omega (arith, one, same, removed, here))
