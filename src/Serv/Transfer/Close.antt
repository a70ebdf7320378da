-- ===== src/Serv/Transfer/Close.antt =====
-- `Close` of serv/transfer.go: the end of an upload or a download, where the quota is updated.
pub mod Accounts
use sshserv.Prelude.{
  ℕ, Bool, true, false, not, ◌&&◌, Option, none, some, List, [], Result, if◌then◌else◌,
}
use sshserv.Prelude.Int.{ℤ, pos}
use sshserv.Prelude.Text.{Text, bytes, text_eq}
use sshserv.Serv.Registry.{
  TransferType, transfer_upload, transfer_download, Transfer, Registry, remove_transfer,
}
use sshserv.Serv.Os.{OsError}
use sshserv.Serv.Env.{Env, Server, World, act, charge}

abbrev pub is_upload : TransferType → Bool
is_upload transfer_upload = true
is_upload transfer_download = false

abbrev pub operation_download : Text
operation_download = bytes "download"

abbrev pub operation_upload : Text
operation_upload = bytes "upload"

abbrev pub operation_of : TransferType → Text
operation_of transfer_download = operation_download
operation_of transfer_upload = operation_upload

module _ (env : Env) where
  open env use {os}

  -- The file is closed, and the one of an atomic upload takes its place; the error that `Close`
  -- returns.
  unfoldable pub close_file : ℕ → Transfer → World env → Option OsError × World env
  close_file a t w =
      let closed = os.close a w in
      if is_upload t.transfer_type && not (text_eq (os.file_name a closed.1) t.path)
      then os.rename (os.file_name a closed.1) t.path closed.1
      else closed

  -- What an upload adds to the quota.
  abbrev pub charge_upload : Transfer → Server env → Server env
  charge_upload t s =
      if is_upload t.transfer_type
      then charge env t.user (if t.is_new_file then pos 1 else pos 0) t.bytes_received s
      else s

  -- `Close`
  unfoldable pub close : ℕ → Server env → Option OsError × Server env
  close a s =
      let t = s.registry.transfers a in
      let closed = close_file a t s.world in
      let acted =
        act env (operation_of t.transfer_type) t.user.username t.path []
          (record s { world = closed.1 }) in
      let removed = record acted { registry = (remove_transfer a acted.registry).1 } in
      (closed.0, charge_upload t removed)
