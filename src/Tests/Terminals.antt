-- ===== src/Tests/Terminals.antt =====
-- The witness on what a channel may start: the requests of bob, who may do everything.
use sshserv.Prelude.{◌≡◌, refl, true, none, some, List, All, [], ◌∷◌}
use sshserv.Prelude.Text.{bytes, text_eq}
use sshserv.Dataprovider.User.{has_perm, perm_shell}
use sshserv.Utils.{is_string_in_slice}
use sshserv.Serv.Shell.{
  Host, Features, SshRequest, Session, handle_ssh_request, new_session, handle_request, pty_request,
  handle_ptr_req, resize, pty_dims, parse_dims, uint32, shell_request, exec_request, exec_command,
  exec_parts, handle_exec, subsystem_request, window_change,
}
use sshserv.Serv.Shell.Allowed.{IsAllowed, handle_ssh_request-IsAllowed}
use sshserv.Tests.Data.{bob}
use sshserv.Tests.Machine.{client_of}

-- A machine where everything starts, and where a command line is one word.
abbrev willing : Host
willing = record {
  State = Unit;
  environ = [];
  unmarshal = λ t. some t;
  split = λ t. (t ∷ [], none);
  open_pty = λ m. (true, m);
  set_winsize = λ w h m. m;
  close_pty = λ m. m;
  pty_run = λ argv env dir m. (none, m);
  run_shell = λ home m. m;
}

abbrev everything : Features
everything = record { is_scp_enabled = true; full_func = true }

-- A terminal of 80 by 24 under the name `vt`, a shell in it, and a command.
abbrev requests : List SshRequest
requests =
    record {
      kind = bytes "pty-req";
      payload = 0 ∷ 0 ∷ 0 ∷ 2 ∷ 118 ∷ 116 ∷ 0 ∷ 0 ∷ 0 ∷ 80 ∷ 0 ∷ 0 ∷ 0 ∷ 24 ∷ [];
    }
    ∷ record { kind = bytes "shell"; payload = [] }
    ∷ record { kind = bytes "exec"; payload = bytes "ls" }
    ∷ []

abbrev left : Session willing
left = (handle_ssh_request willing everything (client_of bob) requests (new_session willing tt)).1

handle_ssh_request-IsAllowed_example :
    All (IsAllowed willing everything (client_of bob)) left.started
    × (left.pty ≡ true
        → (everything.full_func ≡ true) × (has_perm (client_of bob).user perm_shell ≡ true))
handle_ssh_request-IsAllowed_example =
    handle_ssh_request-IsAllowed willing everything (client_of bob) requests tt

-- The shell and the command are started.
started_both : left.replies ≡ true ∷ true ∷ true ∷ []
unfolding handle_ssh_request handle_request text_eq pty_request has_perm is_string_in_slice
    handle_ptr_req resize pty_dims parse_dims uint32 shell_request exec_request exec_command
    exec_parts handle_exec new_session subsystem_request window_change
started_both = refl
