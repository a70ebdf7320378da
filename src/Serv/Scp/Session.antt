-- ===== src/Serv/Scp/Session.antt =====
-- A run of an scp command: what it sees of the channel of golang.org/x/crypto/ssh, the state that
-- it threads, and how it ends. A handler that returns an error stops.
use sshserv.Prelude.{ℕ, Option, none, some, List, Result, ok, err}
use sshserv.Prelude.Text.{Text}
use sshserv.Serv.Registry.{Connection}
use sshserv.Serv.Env.{Env, Server, World}
use sshserv.Serv.Paths.{PathError}

-- `ssh.Channel`: a read of up to some bytes gives the bytes and the error, a write its error.
pub record Channel : Type 1 where
  pub State : Type 0
  pub read : ℕ → State → (Text × Option Text) × State
  pub write : Text → State → Option Text × State
  pub close : State → State
  -- `SendRequest("exit-status", false, …)` with a status
  pub send_exit : ℕ → State → State

-- How a run ends early: with an error of a text, by a panic, or out of fuel.
pub data Stop : Type 0 where
  failed : Text → Stop
  panicked exhausted : Stop

-- `scpCommand`, and the texts of the errors of the system, of `buildPath` and of
-- `strconv.ParseInt` on a text.
pub record Command : Type 0 where
  pub connection : Connection
  pub args : List Text
  pub error_text : PathError → Text
  pub parse_error_text : Text → Text

-- `time` counts the readings of the clock.
pub record Session (env : Env) (ch : Channel) : Type 0 where
  pub server : Server env
  pub channel : ch.State
  pub time : ℕ

-- A handler over a state, with what it answers.
abbrev pub Run : Type 0 → Type 0 → Type 0
Run S A = S → Result Stop A × S

module _ {S A : Type 0} where
  abbrev pub return : A → Run S A
  return a s = (ok a, s)

  abbrev pub stop : Stop → Run S A
  stop e s = (err e, s)

  -- An error that a handler was given, or nil.
  abbrev pub stop_if : Option Text → Run S A → Run S A
  stop_if (some e) m = stop (failed e)
  stop_if none m = m

module _ {S A B : Type 0} where
  abbrev pub continue : (A → Run S B) → Result Stop A × S → Result Stop B × S
  continue next (err e, s) = (err e, s)
  continue next (ok a, s) = next a s

  infixl 5 ◌>>=◌
  -- `if err != nil { return err }`, and on.
  abbrev pub ◌>>=◌ : Run S A → (A → Run S B) → Run S B
  (m >>= next) s = continue next (m s)

  -- What a handler returns after it runs another one, for its error or its answer.
  abbrev pub finish : (Result Stop A → Run S B) → Result Stop A × S → Result Stop B × S
  finish next (r, s) = next r s

  abbrev pub after : Run S A → (Result Stop A → Run S B) → Run S B
  after m next s = finish next (m s)

module _ {S A B : Type 0} where
  infixl 5 ◌>>◌
  abbrev pub ◌>>◌ : Run S A → Run S B → Run S B
  m >> next = m >>= (λ _. next)

module _ {env : Env} {ch : Channel} where
  abbrev pub with_server : Server env → Session env ch → Session env ch
  with_server server s = record s { server = server }

  -- A change of the server's state.
  abbrev pub modify : (Server env → Server env) → Run (Session env ch) (Unit {0})
  modify f s = (ok tt, with_server (f s.server) s)

  abbrev pub get : {A : Type 0} → (Server env → A) → Run (Session env ch) A
  get f s = (ok (f s.server), s)

  -- A call of the system.
  abbrev pub call : {A : Type 0} → (World env → A × World env) → Run (Session env ch) A
  call f s =
      let (a, w) = f s.server.world in (ok a, with_server (record (s.server) { world = w }) s)
