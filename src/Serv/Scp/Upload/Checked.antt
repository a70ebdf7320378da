-- ===== src/Serv/Scp/Upload/Checked.antt =====
-- An scp upload without its permissions.
use sshserv.Prelude.{
  ℕ, zero, suc, ◌≡◌, refl, inl, inr, true, false, Option, none, some, [], Result, ok, err,
  Bool-cases, Option-cases, Result-cases,
}
use sshserv.Prelude.Int.{ℤ, pos, negsuc, add64, eqb_ℤ}
use sshserv.Prelude.Text.{Text, bytes, has_prefix}
use sshserv.Prelude.Assoc.{lookup}
use sshserv.Dataprovider.User.{has_perm, perm_upload, perm_create_dirs}
use sshserv.Serv.Registry.{update_connection_activity}
use sshserv.Serv.Env.{Env, Server, note_activity}
use sshserv.Serv.Scp.Session.{Channel, Stop, Command, Session, Run, return, continue, ◌>>=◌}
use sshserv.Serv.Scp.Protocol.{
  ok_msg, new_line, is_byte, send, send_error_message, refuse, read_line, whole_line,
  read_protocol_message, get_next_upload_protocol_message, send_confirmation_message,
}
use sshserv.Serv.Scp.Messages.{get_dest_path, parse_upload_message}
use sshserv.Serv.Scp.Upload.{
  handle_create_dir, handle_upload, upload_message, upload_loop, handle_recursive_upload,
}

module _ (env : Env) (ch : Channel) (cmd : Command) (clock : ℕ → ℕ) (fuel : ℕ)
    (P : Server env → Type 0) where
  -- A predicate of the server's state after a run, whichever way it ends.
  abbrev Leaves : {A : Type 0} → Result Stop A × Session env ch → Type 0
  Leaves r = P r.1.server

  continue-Leaves :
      {A B : Type 0} (r : Result Stop A × Session env ch) (next : A → Run (Session env ch) B)
      → Leaves r
      → ((a : A) (s : Session env ch) → P s.server → Leaves (next a s))
      → Leaves (continue next r)
  continue-Leaves (ok a, s) next h g = g a s h
  continue-Leaves (err e, s) next h g = h

  send-Leaves : (t : Text) (s : Session env ch) → P s.server → Leaves (send t s)
  unfolding send
  send-Leaves t s h = elim (Option-cases (ch.write t s.channel).0) [
    | inl e ↦ rw (send, e) h
    | inr (x, e) ↦ rw (send, e) h
  ]

  refuse-Leaves :
      (A : Type 0) (t : Text) (s : Session env ch) → P s.server → Leaves (refuse {A = A} t s)
  unfolding send_error_message
  refuse-Leaves A t s h = h

  read_line-Leaves : (f : ℕ) (t : Text) (s : Session env ch) → P s.server → Leaves (read_line f t s)
  unfolding read_line
  read_line-Leaves zero t s h = h
  read_line-Leaves (suc f) t s h = elim (Option-cases (ch.read 1 s.channel).0.1) [
    | inr (x, e) ↦ rw (e) h
    | inl e ↦ elim (Bool-cases (is_byte new_line (ch.read 1 s.channel).0.0)) [
      | inl y ↦ rw (e, y) h
      | inr n ↦ rw (e, n) (read_line-Leaves f _ _ h)
    ]
  ]

  whole_line-Leaves :
      (r : Text × Option Text) (s : Session env ch) → P s.server → Leaves (whole_line r s)
  whole_line-Leaves (t, some e) s h = h
  whole_line-Leaves (t, none) s h = h

  next_message-Leaves :
      (line f : ℕ) (s : Session env ch)
      → P s.server
      → Leaves (get_next_upload_protocol_message line f s)
  unfolding get_next_upload_protocol_message read_protocol_message
  next_message-Leaves line zero s h = h
  next_message-Leaves line (suc f) s h =
      continue-Leaves (read_protocol_message line s) _
        (continue-Leaves (read_line line [] s) _ (read_line-Leaves line [] s h) whole_line-Leaves)
        (λ command s' h'. elim (Bool-cases (has_prefix command (bytes "T"))) [
          | inr n ↦ rw (n) h'
          | inl y ↦ rw (y) (
              continue-Leaves (send_confirmation_message s') _ (send-Leaves ok_msg s' h')
                (λ u s'' h''. next_message-Leaves line f s'' h''))
        ])

  module _
      (noted : (now : ℕ) (s : Server env)
        → P s
        → P (note_activity env cmd.connection.id now s)) where
    create_dir-Leaves :
        (p : Text) (s : Session env ch)
        → has_perm cmd.connection.user perm_create_dirs ≡ false
        → P s.server
        → Leaves (handle_create_dir env ch cmd clock fuel p s)
    unfolding handle_create_dir
    create_dir-Leaves p s n h =
        rw (handle_create_dir, n) (refuse-Leaves (Unit {0}) _ _ (noted (clock s.time) s.server h))

    upload-Leaves :
        (p : Text) (size : ℤ) (s : Session env ch)
        → has_perm cmd.connection.user perm_upload ≡ false
        → P s.server
        → Leaves (handle_upload env ch cmd clock fuel p size s)
    unfolding handle_upload
    upload-Leaves p size s n h =
        rw (handle_upload, n) (refuse-Leaves (Unit {0}) _ _ (noted (clock s.time) s.server h))

    message-Leaves :
        (command : Text) (depth : ℤ) (path : Text) (s : Session env ch)
        → has_perm cmd.connection.user perm_upload ≡ false
        → has_perm cmd.connection.user perm_create_dirs ≡ false
        → P s.server
        → Leaves (upload_message env ch cmd clock fuel command depth path s)
    unfolding upload_message
    message-Leaves command depth path s nu nd h =
        elim (Bool-cases (has_prefix command (bytes "E"))) [
          | inl y ↦ elim (Bool-cases (eqb_ℤ (add64 depth (negsuc 0)) (pos 0))) [
            | inl z ↦
                rw (upload_message, y, z)
                  (continue-Leaves (send_confirmation_message s) _ (send-Leaves ok_msg s h)
                    (λ u s' h'. h'))
            | inr z ↦ rw (upload_message, y, z) h
          ]
          | inr d ↦ elim (Result-cases (parse_upload_message cmd command)) [
            | inl (t, r) ↦ rw (upload_message, d, r) (refuse-Leaves (ℤ × Text) _ _ h)
            | inr ((size, name), r) ↦ elim (Bool-cases (has_prefix command (bytes "D"))) [
              | inl y ↦
                  rw (upload_message, d, r, y)
                    (continue-Leaves _ _ (create_dir-Leaves _ s nd h) (λ u s' h'. h'))
              | inr c ↦
                  rw (upload_message, d, r, c)
                    (continue-Leaves _ _ (upload-Leaves _ size s nu h) (λ u s' h'. h'))
            ]
          ]
        ]

    loop-Leaves :
        (f : ℕ) (depth : ℤ) (path : Text) (s : Session env ch)
        → has_perm cmd.connection.user perm_upload ≡ false
        → has_perm cmd.connection.user perm_create_dirs ≡ false
        → P s.server
        → Leaves (upload_loop env ch cmd clock fuel f depth path s)
    unfolding upload_loop
    loop-Leaves zero depth path s nu nd h = h
    loop-Leaves (suc f) depth path s nu nd h =
        let Handler = Run (Session env ch) in
        let rest : ℤ × Text → Handler (Unit {0}) = λ r. elim (eqb_ℤ r.0 (pos 0)) [
          | true ↦ return tt
          | false ↦ upload_loop env ch cmd clock fuel f r.0 r.1
        ] in
        let on_command : Text → Handler (Unit {0}) =
          λ command. upload_message env ch cmd clock fuel command depth path >>= rest in
        continue-Leaves (send_confirmation_message s)
          (λ u. get_next_upload_protocol_message fuel fuel >>= on_command) (send-Leaves ok_msg s h)
          (λ u s' h'.
            continue-Leaves (get_next_upload_protocol_message fuel fuel s') on_command
              (next_message-Leaves fuel fuel s' h')
              (λ command s'' h''.
                continue-Leaves (upload_message env ch cmd clock fuel command depth path s'') rest
                  (message-Leaves command depth path s'' nu nd h'')
                  (λ r s3 h3. elim (Bool-cases (eqb_ℤ r.0 (pos 0))) [
                    | inl z ↦ rw (z) h3
                    | inr z ↦ rw (z) (loop-Leaves f r.0 r.1 s3 nu nd h3)
                  ])))

    recursive_upload-Leaves :
        (s : Session env ch)
        → has_perm cmd.connection.user perm_upload ≡ false
        → has_perm cmd.connection.user perm_create_dirs ≡ false
        → P s.server
        → Leaves (handle_recursive_upload env ch cmd clock fuel s)
    unfolding handle_recursive_upload
    recursive_upload-Leaves s nu nd h = elim (Option-cases (get_dest_path cmd.args)) [
      | inl e ↦ rw (handle_recursive_upload, e) h
      | inr (path, e) ↦ rw (handle_recursive_upload, e) (loop-Leaves fuel (pos 0) path s nu nd h)
    ]

-- A state with the files, the users and the active transfers of another one.
abbrev pub IsSpared : (env : Env) → Server env → Server env → Type 0
IsSpared env s s' =
    (s'.world ≡ s.world)
    × (s'.store ≡ s.store)
    × (s'.registry.active_transfers ≡ s.registry.active_transfers)

note_activity-IsSpared :
    (env : Env) (id : Text) (s : Server env) (now : ℕ) (s' : Server env)
    → IsSpared env s s'
    → IsSpared env s (note_activity env id now s')
unfolding update_connection_activity
note_activity-IsSpared env id s now s' (w, st, ts) =
    elim (Option-cases (lookup id s'.registry.open_connections)) [
      | inl e ↦ rw (update_connection_activity, e) (w, st, ts)
      | inr (c, e) ↦ rw (update_connection_activity, e) (w, st, ts)
    ]

-- Whatever a client sends in an scp upload, a user with neither the permission to upload nor the one
-- to create directories changes no file, no quota and no active transfer by it.
pub handle_recursive_upload-IsSpared :
    (env : Env) (ch : Channel) (cmd : Command) (clock : ℕ → ℕ) (fuel : ℕ) (s : Session env ch)
    → has_perm cmd.connection.user perm_upload ≡ false
    → has_perm cmd.connection.user perm_create_dirs ≡ false
    → IsSpared env s.server (handle_recursive_upload env ch cmd clock fuel s).1.server
handle_recursive_upload-IsSpared env ch cmd clock fuel s nu nd =
    recursive_upload-Leaves env ch cmd clock fuel (IsSpared env s.server)
      (note_activity-IsSpared env cmd.connection.id s.server) s nu nd (refl, refl, refl)
