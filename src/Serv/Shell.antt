-- ===== src/Serv/Shell.antt =====
-- serv/shell_linux.go and the channels of serv/server.go: what a client may start over its
-- connection. `handleSSHRequest` reads the requests of a channel of golang.org/x/crypto/ssh one
-- after another; `iterChans` opens the channels. A program, a terminal and the splitting of a
-- command line are calls of a `Host`.
pub mod Allowed
use sshserv.Prelude.{
  ℕ, ◌+◌, ◌*◌, ◌-◌, ◌%◌, Bool, true, false, not, ◌&&◌, Option, none, some, List, [], ◌∷◌, ◌++◌,
  if◌then◌else◌, ltb, leb, length, get_elem?, drop, ◌^◌,
}
use sshserv.Prelude.Text.{Text, bytes, text_eq}
use sshserv.Dataprovider.User.{has_perm, perm_shell, perm_tcp_forward}
use sshserv.Serv.Registry.{Connection}

pub record Host : Type 1 where
  pub State : Type 0
  -- the environment of the server's process
  pub environ : List Text
  -- `ssh.Unmarshal` into an `execMsg`, and `shlex.Split` with its error
  pub unmarshal : Text → Option Text
  pub split : Text → List Text × Option Text
  -- `pty.Open`, the size of the terminal, and its close
  pub open_pty : State → Bool × State
  pub set_winsize : ℕ → ℕ → State → State
  pub close_pty : State → State
  -- `PtyRun` with a command line, an environment and a directory
  pub pty_run : List Text → List Text → Text → State → Option Text × State
  -- `handleShell`, in a home directory
  pub run_shell : Text → State → State

pub record Features : Type 0 where
  pub is_scp_enabled : Bool
  pub full_func : Bool

pub record SshRequest : Type 0 where
  pub kind : Text
  pub payload : Text

-- What a request starts: a server of a subsystem, or a process.
pub data Started : Type 0 where
  sftp : Connection → Started
  scp : Connection → List Text → Started
  command : List Text → Started
  shell : Text → Started

-- `pty` says that `fPty` is not nil. What was started, and the answers, have the last one first.
pub record Session (host : Host) : Type 0 where
  pub machine : host.State
  pub pty : Bool
  pub started : List Started
  pub replies : List Bool

-- What the loop does after a request.
pub data Turn : Type 0 where
  goes_on ends panics : Turn

-- `binary.BigEndian.Uint32`, which panics on fewer than four bytes.
unfoldable pub uint32 : Text → Option ℕ
uint32 (a ∷ b ∷ c ∷ d ∷ rest) = some (((a * 256 + b) * 256 + c) * 256 + d)
uint32 t = none

module _ {A B : Type 0} where
  infixl 5 ◌>>=◌
  -- Code that goes on unless it panics, which is none.
  abbrev ◌>>=◌ : Option A → (A → Option B) → Option B
  none >>= next = none
  some a >>= next = next a

-- The width and the height; none is a panic.
unfoldable pub parse_dims : Text → Option (ℕ × ℕ)
parse_dims b = do w ← uint32 b; h ← uint32 (drop 4 b); some (w, h)

-- The end of `payload[4 : termLen+4]`, in the arithmetic of a byte.
abbrev term_end : ℕ → ℕ
term_end term_len = (term_len + 4) % 256

abbrev dims_after : Text → ℕ → Option (ℕ × ℕ)
dims_after payload i =
    if leb 4 i && leb i (length payload) then parse_dims (drop i payload) else none

-- The sizes in the payload of a `pty-req`; none is a panic.
unfoldable pub pty_dims : Text → Option (ℕ × ℕ)
pty_dims payload = do term_len ← get_elem? payload 3; dims_after payload (term_end term_len)

-- The user's home as the process sees it.
abbrev pub exec_env : Host → Text → List Text
exec_env host home = host.environ ++ (bytes "TERM=vt100" ∷ (bytes "HOME=" ++ home) ∷ [])

module _ (host : Host) where
  abbrev pub start : Started → Session host → Session host
  start a s = record s { started = a ∷ s.started }

  -- `req.Reply(ok, nil)`
  abbrev pub reply : Bool → Session host → Session host
  reply b s = record s { replies = b ∷ s.replies }

  abbrev pub answer : Bool → Session host → Turn × Session host
  answer b s = (goes_on, reply b s)

  -- The loop's state before the first request.
  unfoldable pub new_session : host.State → Session host
  new_session m = record { machine = m; pty = false; started = []; replies = [] }

  -- `SetWinsize` truncates to 16 bits.
  unfoldable pub resize : Option (ℕ × ℕ) → Session host → Turn × Session host
  resize none s = (panics, s)
  resize (some (w, h)) s =
      (goes_on, record s { machine = host.set_winsize (w % 2 ^ 16) (h % 2 ^ 16) s.machine })

  -- The answer that follows a terminal's size.
  abbrev after_resize : Turn × Session host → Turn × Session host
  after_resize (goes_on, s) = answer true (record s { pty = true })
  after_resize (t, s) = (t, s)

  unfoldable pub window_change : Text → Session host → Turn × Session host
  window_change payload s = if s.pty then resize (parse_dims payload) s else (goes_on, s)

  unfoldable pub handle_ptr_req : Text → Session host → Turn × Session host
  handle_ptr_req payload s =
      let (opened, m) = host.open_pty s.machine in
      let s' = record s { machine = m } in
      if opened
      then after_resize (resize (pty_dims payload) s')
      else answer false (record s' { pty = false })

  -- Whether the program runs, and the state.
  abbrev run_command : List Text → Option Text × host.State → Session host → Bool × Session host
  run_command argv (none, m) s = (true, record (start (command argv) s) { machine = m })
  run_command argv (some e, m) s = (false, record s { machine = m })

  -- Whether `handleExec` returns without an error.
  unfoldable pub handle_exec : List Text → Text → Session host → Bool × Session host
  handle_exec argv home s =
      let (opened, m) = host.open_pty s.machine in
      if opened
      then run_command argv (host.pty_run argv (exec_env host home) home m) s
      else (false, record s { machine = m })

module _ (host : Host) (c : Features) (connection : Connection) where
  abbrev may_shell : Bool
  may_shell = has_perm connection.user perm_shell

  unfoldable pub subsystem_request : Text → Session host → Turn × Session host
  subsystem_request payload s =
      if ltb (length payload) 4
      then (panics, s)
      else if text_eq (drop 4 payload) (bytes "sftp")
      then answer host true (start host (sftp (record connection { protocol = bytes "SFTP" })) s)
      else answer host false s

  -- The session ends, whether the program runs or not.
  abbrev end_with : Bool × Session host → Turn × Session host
  end_with (started, s) = (ends, reply host started s)

  -- A split command line without an error.
  unfoldable pub exec_parts : Text → List Text → Session host → Turn × Session host
  exec_parts name args s =
      if c.is_scp_enabled && (text_eq name (bytes "scp") && leb 2 (length args))
      then answer host true (start host (scp (record connection { protocol = bytes "SCP" }) args) s)
      else if may_shell
      then end_with (handle_exec host (name ∷ args) connection.user.home_dir s)
      else answer host false s

  unfoldable pub exec_command : List Text × Option Text → Session host → Turn × Session host
  exec_command ([], e) s = (panics, s)
  exec_command (name ∷ args, none) s = exec_parts name args s
  exec_command (name ∷ args, some e) s = answer host false s

  unfoldable pub exec_request : Text → Session host → Turn × Session host
  exec_request payload s = elim (host.unmarshal payload) [
    | none ↦ answer host false s
    | some line ↦ exec_command (host.split line) s
  ]

  unfoldable pub shell_request : Session host → Turn × Session host
  shell_request s =
      let home = connection.user.home_dir in
      if s.pty
      then answer host true
          (record (start host (shell home) s) { machine = host.run_shell home s.machine })
      else answer host false s

  unfoldable pub pty_request : Text → Session host → Turn × Session host
  pty_request payload s =
      if c.full_func && may_shell then handle_ptr_req host payload s else answer host false s

  unfoldable pub handle_request : SshRequest → Session host → Turn × Session host
  handle_request r s =
      if text_eq r.kind (bytes "subsystem")
      then subsystem_request r.payload s
      else if text_eq r.kind (bytes "exec")
      then exec_request r.payload s
      else if text_eq r.kind (bytes "shell")
      then shell_request s
      else if text_eq r.kind (bytes "pty-req")
      then pty_request r.payload s
      else if text_eq r.kind (bytes "window-change")
      then window_change host r.payload s
      else answer host false s

  -- The terminal is closed after the last request.
  abbrev pub hang_up : Session host → Turn × Session host
  hang_up s = (ends, if s.pty then record s { machine = host.close_pty s.machine } else s)

  -- The requests after the first, where the loop goes on.
  abbrev pub go_on :
      (Session host → Turn × Session host) → Turn × Session host → Turn × Session host
  go_on next (goes_on, s) = next s
  go_on next (ends, s) = (ends, s)
  go_on next (panics, s) = (panics, s)

  unfoldable pub handle_ssh_request : List SshRequest → Session host → Turn × Session host
  handle_ssh_request [] s = hang_up s
  handle_ssh_request (r ∷ rs) s = go_on (handle_ssh_request rs) (handle_request r s)

-- What `iterChans` does with a new channel of a type, given whether it can be accepted.
pub data Opening : Type 0 where
  forwards serves denied rejected unaccepted : Opening

unfoldable pub iter_chans : Features → Connection → Text → Bool → Opening
iter_chans c connection kind accepted =
    if text_eq kind (bytes "direct-tcpip")
    then if c.full_func && has_perm connection.user perm_tcp_forward then forwards else denied
    else if not (text_eq kind (bytes "session"))
    then rejected
    else if accepted
    then serves
    else unaccepted
