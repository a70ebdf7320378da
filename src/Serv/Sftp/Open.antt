-- ===== src/Serv/Sftp/Open.antt =====
-- `Fileread`, `Filewrite`, `handleSFTPUploadToNewFile` and `handleSFTPUploadToExistingFile`. A
-- request is answered with the address of its transfer. The clock is given as it is read: at the
-- activity's note, at the transfer's start and at its last activity. `Fileread` also sets a size
-- on a copy of the request's attributes, which nobody reads.
pub mod Checked
use sshserv.Prelude.{
  ℕ, zero, suc, ◌+◌, ◌==◌, Bool, true, false, not, ◌&&◌, Option, none, some, List, [], ◌∷◌, ◌++◌,
  Result, ok, err, if◌then◌else◌,
}
use Prim.Native.Nat.{bit_and}
use sshserv.Prelude.Int.{ℤ, pos, neg64}
use sshserv.Prelude.Text.{Text, bytes}
use sshserv.Dataprovider.User.{User, has_perm, perm_download, perm_upload, perm_create_dirs}
use sshserv.Serv.Registry.{Connection, Transfer, TransferType, transfer_upload, transfer_download}
use sshserv.Serv.Quota.{has_space}
use sshserv.Serv.Os.{OsError, is_not_exist, FileInfo, Os}
use sshserv.Serv.Env.{
  UploadMode, standard, atomic, Env, Server, World, charge, note_activity, set_path_permissions,
  start_transfer,
}
use sshserv.Serv.Paths.{is_missing, build_path, create_missing_dirs}
use sshserv.Serv.Sftp.Types.{
  Status, permission_denied, no_such_file, failure, op_unsupported, panic, FileOpenFlags, Request,
  o_trunc, get_os_open_flags,
}

-- The transfer that a handler allocates.
abbrev pub new_transfer : Connection → Text → TransferType → Bool → ℕ → ℕ → Transfer
new_transfer c path type is_new start last_activity = record {
  path = path;
  start = start;
  bytes_sent = pos 0;
  bytes_received = pos 0;
  user = c.user;
  connection_id = c.id;
  transfer_type = type;
  last_activity = last_activity;
  is_new_file = is_new;
  protocol = c.protocol;
}

abbrev pub is_atomic : UploadMode → Bool
is_atomic standard = false
is_atomic atomic = true

module _ (env : Env) (c : Connection) (clock : ℕ → ℕ) where
  open env use {os, config, provider, upload_mode}

  -- What a handler answers and leaves.
  abbrev pub Reply : Type 0
  Reply = Result Status ℕ × Server env

  abbrev pub set_world : World env → Server env → Server env
  set_world w s = record s { world = w }

  -- The end of each handler that opens a file: the transfer is allocated and added.
  abbrev pub open_transfer : Text → TransferType → Bool → Server env → Reply
  open_transfer path type is_new s =
      (ok s.next, start_transfer env (new_transfer c path type is_new (clock 1) (clock 2)) s)

  -- `Fileread` once its path is built. An error of `Stat` other than a missing file leaves a nil
  -- `st1`, which is used if the file then opens.
  unfoldable pub read_path : Text → Server env → Reply
  read_path p s =
      let opened = os.open_read s.next p s.world in
      elim (os.stat p s.world) [
        | err e ↦ if is_not_exist e then (err no_such_file, s) else elim opened.0 [
          | some _ ↦ (err failure, set_world opened.1 s)
          | none ↦ (err panic, set_world opened.1 s)
        ]
        | ok info ↦ elim opened.0 [
          | some _ ↦ (err failure, set_world opened.1 s)
          | none ↦ open_transfer p transfer_download false (set_world opened.1 s)
        ]
      ]

  -- `Fileread`
  unfoldable pub fileread : Request → Server env → Reply
  fileread request s =
      let s' = note_activity env c.id (clock 0) s in
      if not (has_perm c.user perm_download)
      then (err permission_denied, s')
      else elim (build_path env c.user request.filepath s'.world) [
        | err _ ↦ (err no_such_file, s')
        | ok p ↦ read_path p s'
      ]

  -- `getUploadTempFilePath`
  unfoldable pub get_upload_temp_file_path : Text → World env → Text × World env
  get_upload_temp_file_path path w =
      let (guid, w') = os.new_guid w in
      (os.join (os.dir path) (bytes ".sftpgo-upload." ++ (guid ++ (bytes "." ++ os.base path))), w')

  -- The path that is written to, which is another one in the atomic mode.
  abbrev pub written_path : Text → World env → Text × World env
  written_path p w = if is_atomic upload_mode then get_upload_temp_file_path p w else (p, w)

  -- `handleSFTPUploadToNewFile` from the creation of the file on.
  unfoldable pub create_file : Text → Text → Server env → Reply
  create_file request_path file_path s =
      let created = os.create s.next file_path s.world in
      elim created.0 [
        | some _ ↦ (err failure, set_world created.1 s)
        | none ↦
            open_transfer request_path transfer_upload true
              (set_world (set_path_permissions env file_path c.user created.1) s)
      ]

  -- `handleSFTPUploadToNewFile`
  unfoldable pub upload_to_new_file : Text → Text → Server env → Reply
  upload_to_new_file request_path file_path s =
      let made = create_missing_dirs env c.user request_path s.world in
      if not (has_space config provider true c.user s.store)
      then (err failure, s)
      else if is_missing (os.stat (os.dir request_path) s.world)
          && not (has_perm c.user perm_create_dirs)
      then (err permission_denied, s)
      else elim made.0 [
        | some _ ↦ (err failure, set_world made.1 s)
        | none ↦ create_file request_path file_path (set_world made.1 s)
      ]

  -- `handleSFTPUploadToExistingFile` from `OpenFile` on.
  unfoldable pub truncate_file : FileOpenFlags → Text → Text → ℤ → Server env → Reply
  truncate_file pflags request_path file_path file_size s =
      let opened = os.open_file s.next file_path (get_os_open_flags pflags) s.world in
      elim opened.0 [
        | some _ ↦ (err failure, set_world opened.1 s)
        | none ↦
            let charged = charge env c.user (pos 0) (neg64 file_size) (set_world opened.1 s) in
            open_transfer request_path transfer_upload false
              (set_world (set_path_permissions env file_path c.user charged.world) charged)
      ]

  -- `handleSFTPUploadToExistingFile`
  unfoldable pub upload_to_existing_file : FileOpenFlags → Text → Text → ℤ → Server env → Reply
  upload_to_existing_file pflags request_path file_path file_size s =
      let moved = os.rename request_path file_path s.world in
      if not (has_space config provider false c.user s.store)
      then (err failure, s)
      else if bit_and (get_os_open_flags pflags) o_trunc == 0
      then (err op_unsupported, s)
      else if is_atomic upload_mode
      then elim moved.0 [
        | some _ ↦ (err failure, set_world moved.1 s)
        | none ↦ truncate_file pflags request_path file_path file_size (set_world moved.1 s)
      ]
      else truncate_file pflags request_path file_path file_size s

  -- `Filewrite` once its paths are built.
  unfoldable pub write_path : FileOpenFlags → Text → Text → Server env → Reply
  write_path pflags p file_path s = elim (os.stat p s.world) [
    | err e ↦ if is_not_exist e then upload_to_new_file p file_path s else (err failure, s)
    | ok stat ↦
        if stat.is_dir
        then (err op_unsupported, s)
        else upload_to_existing_file pflags p file_path stat.size s
  ]

  -- `Filewrite`
  unfoldable pub filewrite : Request → Server env → Reply
  filewrite request s =
      let s' = note_activity env c.id (clock 0) s in
      if not (has_perm c.user perm_upload)
      then (err permission_denied, s')
      else elim (build_path env c.user request.filepath s'.world) [
        | err _ ↦ (err no_such_file, s')
        | ok p ↦
            let target = written_path p s'.world in
            write_path request.pflags p target.0 (set_world target.1 s')
      ]
