-- ===== src/Serv/Scp/Protocol.antt =====
-- The messages of the scp protocol over the channel: `readConfirmationMessage`,
-- `readProtocolMessage`, `sendErrorMessage`, `sendConfirmationMessage`, `sendProtocolMessage`,
-- `sendExitStatus` and `getNextUploadProtocolMessage`. A loop that reads runs on fuel.
pub mod Reading
use sshserv.Prelude.{
  ℕ, zero, suc, ◌==◌, Bool, true, false, ◌||◌, Option, none, some, List, [], ◌∷◌, ◌++◌, Result, ok,
  err, if◌then◌else◌, length,
}
use sshserv.Prelude.Text.{Text, bytes, has_prefix}
use sshserv.Serv.Env.{Env}
use sshserv.Serv.Scp.Session.{
  Channel, Stop, failed, exhausted, Session, Run, return, stop, stop_if, ◌>>=◌, ◌>>◌,
}

abbrev pub ok_msg : Text
ok_msg = 0 ∷ []

abbrev pub warn_msg : ℕ
warn_msg = 1

abbrev pub err_msg : ℕ
err_msg = 2

abbrev pub new_line : ℕ
new_line = 10

-- Whether the bytes that were read are one byte, and that one.
abbrev pub is_byte : ℕ → Text → Bool
is_byte b (c ∷ []) = c == b
is_byte b _ = false

abbrev exit_status : Option Text → ℕ
exit_status none = 0
exit_status (some e) = 1

module _ {env : Env} {ch : Channel} where
  abbrev pub with_channel : ch.State → Session env ch → Session env ch
  with_channel channel s = record s { channel = channel }

  abbrev pub read : ℕ → Run (Session env ch) (Text × Option Text)
  read n s = let (r, c) = ch.read n s.channel in (ok r, with_channel c s)

  abbrev pub write : Text → Run (Session env ch) (Option Text)
  write msg s = let (e, c) = ch.write msg s.channel in (ok e, with_channel c s)

  abbrev pub close_channel : Run (Session env ch) (Unit {0})
  close_channel s = (ok tt, with_channel (ch.close s.channel) s)

  -- `sendErrorMessage`
  unfoldable pub send_error_message : Text → Run (Session env ch) (Unit {0})
  send_error_message error = do
    write (err_msg ∷ [])
    write error
    write (new_line ∷ [])
    close_channel

  -- Where a handler sends the text of an error and returns the error.
  abbrev pub refuse : {A : Type 0} → Text → Run (Session env ch) A
  refuse error = do send_error_message error; stop (failed error)

  -- A write whose error closes the channel.
  unfoldable pub send : Text → Run (Session env ch) (Unit {0})
  send msg = write msg >>= λ e. elim e [
    | none ↦ return tt
    | some text ↦ close_channel >> stop (failed text)
  ]

  -- `sendConfirmationMessage`
  abbrev pub send_confirmation_message : Run (Session env ch) (Unit {0})
  send_confirmation_message = send ok_msg

  -- `sendProtocolMessage`
  abbrev pub send_protocol_message : Text → Run (Session env ch) (Unit {0})
  send_protocol_message message = send message

  -- The loop of `readProtocolMessage`: what has been read, and the error.
  unfoldable pub read_line : ℕ → Text → Run (Session env ch) (Text × Option Text)
  read_line zero command = stop exhausted
  read_line (suc fuel) command = read 1 >>= λ r. elim r.1 [
    | some e ↦ return (command, some e)
    | none ↦ elim (is_byte new_line r.0) [
      | true ↦ return (command, none)
      | false ↦ read_line fuel (command ++ r.0)
    ]
  ]

  abbrev pub whole_line : Text × Option Text → Run (Session env ch) Text
  whole_line (command, some e) = close_channel >> stop (failed e)
  whole_line (command, none) = return command

  -- `readProtocolMessage`; its callers drop the text beside an error.
  unfoldable pub read_protocol_message : ℕ → Run (Session env ch) Text
  read_protocol_message fuel = read_line fuel [] >>= whole_line

  -- `readConfirmationMessage`: a message after a warning or an error is read to the end of its line
  -- or of the channel, and it is the error.
  unfoldable pub read_confirmation_message : ℕ → Run (Session env ch) (Unit {0})
  read_confirmation_message fuel = read 1 >>= λ r. elim r.1 [
    | some e ↦ close_channel >> stop (failed e)
    | none ↦ elim (is_byte warn_msg r.0 || is_byte err_msg r.0) [
      | true ↦ read_line fuel [] >>= λ m. close_channel >> stop (failed m.0)
      | false ↦ return tt
    ]
  ]

  -- `getNextUploadProtocolMessage`
  unfoldable pub get_next_upload_protocol_message : ℕ → ℕ → Run (Session env ch) Text
  get_next_upload_protocol_message line zero = stop exhausted
  get_next_upload_protocol_message line (suc fuel) = do
    command ← read_protocol_message line
    elim (has_prefix command (bytes "T")) [
      | true ↦ send_confirmation_message >> get_next_upload_protocol_message line fuel
      | false ↦ return command
    ]

  -- `sendExitStatus`, for an error or nil.
  unfoldable pub send_exit_status : Option Text → Run (Session env ch) (Unit {0})
  send_exit_status e s = (ok tt, with_channel (ch.close (ch.send_exit (exit_status e) s.channel)) s)
