-- ===== src/Serv/Shell/Allowed.antt =====
-- What the requests of a channel and the channels of a connection may start.
use sshserv.Prelude.{
  ℕ, ◌≡◌, ◌↔◌, refl, inl, inr, Bool, true, false, ◌&&◌, if◌then◌else◌, Option, none, some, List, [],
  ◌∷◌, All, ltb, leb, length, drop, Bool-cases, Option-cases, arith,
}
use sshserv.Prelude.Text.{Text, bytes, text_eq}
use sshserv.Dataprovider.User.{has_perm, perm_shell, perm_tcp_forward}
use sshserv.Serv.Registry.{Connection}
use sshserv.Serv.Shell.{
  Host, Features, SshRequest, Started, sftp, scp, command, shell, Session, goes_on, ends, panics,
  parse_dims, pty_dims, resize, exec_env, handle_ptr_req, handle_exec, Turn, window_change,
  new_session, subsystem_request, exec_parts, exec_command, exec_request, shell_request,
  pty_request, handle_request, hang_up, go_on, handle_ssh_request, forwards, iter_chans,
}

module _ (host : Host) (c : Features) (connection : Connection) where
  -- What allows a server or a process.
  pub data IsAllowed : Started → Type 0 where
    as_sftp : IsAllowed (sftp (record connection { protocol = bytes "SFTP" }))
    as_scp :
        (args : List Text)
        → c.is_scp_enabled ≡ true
        → IsAllowed (scp (record connection { protocol = bytes "SCP" }) args)
    as_command :
        (argv : List Text) → has_perm connection.user perm_shell ≡ true → IsAllowed (command argv)
    as_shell :
        c.full_func ≡ true
        → has_perm connection.user perm_shell ≡ true
        → IsAllowed (shell connection.user.home_dir)

  abbrev MayTerminal : Bool → Type 0
  MayTerminal pty = pty ≡ true → (c.full_func ≡ true) × (has_perm connection.user perm_shell ≡ true)

  -- Only what is allowed was started, and a terminal is open only if it may be.
  abbrev Sound : Session host → Type 0
  Sound s = All IsAllowed s.started × MayTerminal s.pty

  -- The state that a turn leaves.
  abbrev Leaves : Turn × Session host → Type 0
  Leaves r = Sound r.1

  if-Leaves :
      (b : Bool) (x y : Turn × Session host)
      → (b ≡ true → Leaves x)
      → Leaves y
      → Leaves (if b then x else y)
  if-Leaves true x y g h = g refl
  if-Leaves false x y g h = h

  resize-Leaves : (d : Option (ℕ × ℕ)) (s : Session host) → Sound s → Leaves (resize host d s)
  unfolding resize
  resize-Leaves none s h = h
  resize-Leaves (some (w, x)) s h = h

  handle_ptr_req-Leaves :
      (payload : Text) (s : Session host)
      → MayTerminal true
      → Sound s
      → Leaves (handle_ptr_req host payload s)
  unfolding handle_ptr_req resize
  handle_ptr_req-Leaves payload s may (a, p) = elim (Bool-cases (host.open_pty s.machine).0) [
    | inr n ↦ rw (handle_ptr_req, n) (a, (λ e. ground arith))
    | inl y ↦ elim (Option-cases (pty_dims payload)) [
      | inl e ↦ rw (handle_ptr_req, y, e) (a, p)
      | inr (d, e) ↦ rw (handle_ptr_req, y, e) (a, may)
    ]
  ]

  handle_exec-Sound :
      (argv : List Text) (home : Text) (s : Session host)
      → has_perm connection.user perm_shell ≡ true
      → Sound s
      → Sound (handle_exec host argv home s).1
  unfolding handle_exec
  handle_exec-Sound argv home s y (a, p) = elim (Bool-cases (host.open_pty s.machine).0) [
    | inr n ↦ rw (n) (a, p)
    | inl o ↦
        let m = (host.open_pty s.machine).1 in
        elim (Option-cases (host.pty_run argv (exec_env host home) home m).0) [
          | inl e ↦ rw (o, e) ((as_command argv y, a), p)
          | inr (x, e) ↦ rw (o, e) (a, p)
        ]
  ]

  subsystem_request-Leaves :
      (payload : Text) (s : Session host)
      → Sound s
      → Leaves (subsystem_request host c connection payload s)
  unfolding subsystem_request
  subsystem_request-Leaves payload s (a, p) =
      if-Leaves (ltb (length payload) 4) _ _ (λ e. (a, p))
        (if-Leaves (text_eq (drop 4 payload) (bytes "sftp")) _ _ (λ e. ((as_sftp, a), p)) (a, p))

  exec_parts-Leaves :
      (name : Text) (args : List Text) (s : Session host)
      → Sound s
      → Leaves (exec_parts host c connection name args s)
  unfolding exec_parts
  exec_parts-Leaves name args s (a, p) =
      if-Leaves (c.is_scp_enabled && (text_eq name (bytes "scp") && leb 2 (length args))) _ _
        (λ e. ((as_scp args (ground arith), a), p))
        (if-Leaves (has_perm connection.user perm_shell) _ _
          (λ y. handle_exec-Sound (name ∷ args) connection.user.home_dir s y (a, p)) (a, p))

  exec_command-Leaves :
      (parts : List Text × Option Text) (s : Session host)
      → Sound s
      → Leaves (exec_command host c connection parts s)
  unfolding exec_command
  exec_command-Leaves ([], e) s h = h
  exec_command-Leaves (name ∷ args, none) s h = exec_parts-Leaves name args s h
  exec_command-Leaves (name ∷ args, some e) s h = h

  exec_request-Leaves :
      (payload : Text) (s : Session host)
      → Sound s
      → Leaves (exec_request host c connection payload s)
  unfolding exec_request
  exec_request-Leaves payload s h = elim (Option-cases (host.unmarshal payload)) [
    | inl e ↦ rw (exec_request, e) h
    | inr (line, e) ↦ rw (exec_request, e) (exec_command-Leaves (host.split line) s h)
  ]

  shell_request-Leaves : (s : Session host) → Sound s → Leaves (shell_request host c connection s)
  unfolding shell_request
  shell_request-Leaves s (a, p) =
      if-Leaves s.pty _ _ (λ y. ((as_shell (p y).0 (p y).1, a), p)) (a, p)

  pty_request-Leaves :
      (payload : Text) (s : Session host)
      → Sound s
      → Leaves (pty_request host c connection payload s)
  unfolding pty_request
  pty_request-Leaves payload s h =
      if-Leaves (c.full_func && has_perm connection.user perm_shell) _ _
        (λ y. handle_ptr_req-Leaves payload s (λ e. ground arith) h) h

  window_change-Leaves :
      (payload : Text) (s : Session host) → Sound s → Leaves (window_change host payload s)
  unfolding window_change
  window_change-Leaves payload s h =
      if-Leaves s.pty _ _ (λ y. resize-Leaves (parse_dims payload) s h) h

  handle_request-Leaves :
      (r : SshRequest) (s : Session host) → Sound s → Leaves (handle_request host c connection r s)
  unfolding handle_request
  handle_request-Leaves r s h =
      if-Leaves (text_eq r.kind (bytes "subsystem")) _ _
        (λ e. subsystem_request-Leaves r.payload s h)
        (if-Leaves (text_eq r.kind (bytes "exec")) _ _ (λ e. exec_request-Leaves r.payload s h)
          (if-Leaves (text_eq r.kind (bytes "shell")) _ _ (λ e. shell_request-Leaves s h)
            (if-Leaves (text_eq r.kind (bytes "pty-req")) _ _
              (λ e. pty_request-Leaves r.payload s h)
              (if-Leaves (text_eq r.kind (bytes "window-change")) _ _
                (λ e. window_change-Leaves r.payload s h) h))))

  if-Sound : (b : Bool) (s s' : Session host) → Sound s → Sound s' → Sound (if b then s else s')
  if-Sound true s s' h h' = h
  if-Sound false s s' h h' = h'

  hang_up-Leaves : (s : Session host) → Sound s → Leaves (hang_up host c connection s)
  hang_up-Leaves s h = if-Sound s.pty _ _ h h

  go_on-Leaves :
      (next : Session host → Turn × Session host) (r : Turn × Session host)
      → ((s : Session host) → Sound s → Leaves (next s))
      → Leaves r
      → Leaves (go_on host c connection next r)
  go_on-Leaves next (goes_on, s) g h = g s h
  go_on-Leaves next (ends, s) g h = h
  go_on-Leaves next (panics, s) g h = h

  handle_ssh_request-Leaves :
      (rs : List SshRequest) (s : Session host)
      → Sound s
      → Leaves (handle_ssh_request host c connection rs s)
  unfolding handle_ssh_request
  handle_ssh_request-Leaves [] s h = hang_up-Leaves s h
  handle_ssh_request-Leaves (r ∷ rs) s h =
      go_on-Leaves (handle_ssh_request host c connection rs) (handle_request host c connection r s)
        (handle_ssh_request-Leaves rs) (handle_request-Leaves r s h)

  -- Whatever requests a client sends on a new channel, what is started is allowed: the sftp server
  -- and scp, the latter only if it is enabled, act for the user of the connection; a command runs
  -- only with the permission for a shell; a shell runs in the user's home and only if that
  -- permission is given and the full function is switched on, and so does a terminal that is left
  -- open.
  pub handle_ssh_request-IsAllowed :
      (rs : List SshRequest) (m : host.State)
      → let s' = (handle_ssh_request host c connection rs (new_session host m)).1 in
        All IsAllowed s'.started × MayTerminal s'.pty
  unfolding new_session
  handle_ssh_request-IsAllowed rs m =
      handle_ssh_request-Leaves rs (new_session host m) (tt, (λ e. ground arith))

-- A channel is forwarded over tcp exactly if it asks for that, the full function is switched on and
-- the user may forward.
pub iter_chans-forwards :
    (c : Features) (connection : Connection) (kind : Text) (accepted : Bool)
    → (iter_chans c connection kind accepted ≡ forwards) ↔ (
        (text_eq kind (bytes "direct-tcpip") ≡ true)
        × (c.full_func ≡ true)
        × (has_perm connection.user perm_tcp_forward ≡ true))
unfolding iter_chans
iter_chans-forwards c connection kind accepted = ground arith
