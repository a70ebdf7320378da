-- ===== src/Serv/Sftp/Commands.antt =====
-- `Filecmd`, `getSFTPCmdTargetPath`, `handleSFTPSetstat`, `handleSFTPRename`, `handleSFTPRmdir`,
-- `handleSFTPSymlink`, `handleSFTPMkdir` and `handleSFTPRemove`. A handler that returns nil is
-- `done`, which differs from the `ErrSshFxOk` that others return; `Filecmd` only goes on after a
-- nil.
pub mod Permitted
pub mod Removal
use sshserv.Prelude.{
  ℕ, Bool, true, false, not, ◌&&◌, Option, none, some, List, [], ◌∷◌, Result, ok, err,
  if◌then◌else◌, length, ltb,
}
use sshserv.Prelude.Int.{ℤ, pos, negsuc, neg64}
use sshserv.Prelude.Text.{Text, bytes, text_eq}
use sshserv.Dataprovider.User.{
  User, has_perm, perm_rename, perm_delete, perm_create_dirs, perm_create_symlinks,
}
use sshserv.Serv.Registry.{Connection}
use sshserv.Serv.Os.{OsError, FileInfo, Os}
use sshserv.Serv.Env.{
  Env, Server, World, charge, note_activity, set_path_permissions, act, scan_dir_contents,
}
use sshserv.Serv.Paths.{PathError, build_path, create_missing_dirs}
use sshserv.Serv.Sftp.Types.{
  Status, permission_denied, no_such_file, failure, op_unsupported, ok_status, Request,
}

-- A handler's answer: nil, or one of the status errors.
pub data Answer : Type 0 where
  done : Answer
  status : Status → Answer

abbrev pub operation_delete : Text
operation_delete = bytes "delete"

abbrev pub operation_rename : Text
operation_rename = bytes "rename"

module _ (env : Env) (c : Connection) where
  open env use {os}

  abbrev pub Outcome : Type 0
  Outcome = Answer × Server env

  abbrev pub with_world : World env → Server env → Server env
  with_world w s = record s { world = w }

  -- A handler that ends with a call of the system: `failure` on its error.
  abbrev pub finish : Option OsError × World env → Server env → Outcome
  finish (none, w) s = (done, with_world w s)
  finish (some e, w) s = (status failure, with_world w s)

  -- `handleSFTPSetstat`
  unfoldable pub handle_setstat : Text → Request → Server env → Outcome
  handle_setstat path request s =
      if request.has_permissions
      then finish (os.chmod path request.file_mode s.world) s
      else if request.has_uid_gid
      then finish (os.chown path request.uid request.gid s.world) s
      else if request.has_acmodtime
      then finish (os.chtimes path request.atime request.mtime s.world) s
      else (done, s)

  -- `handleSFTPRename`
  unfoldable pub handle_rename : Text → Text → Server env → Outcome
  handle_rename source target s =
      let moved = os.rename source target s.world in
      if not (has_perm c.user perm_rename) then (status permission_denied, s) else elim moved.0 [
        | some _ ↦ (status failure, with_world moved.1 s)
        | none ↦
            (done, act env operation_rename c.user.username source target (with_world moved.1 s))
      ]

  -- The loop over the files that a removed directory held.
  abbrev pub act_on_each : List Text → Server env → Server env
  act_on_each [] s = s
  act_on_each (p ∷ ps) s = act_on_each ps (act env operation_delete c.user.username p [] s)

  -- `handleSFTPRmdir`
  unfoldable pub handle_rmdir : Text → Server env → Outcome
  handle_rmdir path s =
      let (num_files, size, file_list, failed) = scan_dir_contents env path s.world in
      let removed = os.remove_all path s.world in
      if not (has_perm c.user perm_delete) then (status permission_denied, s) else elim failed [
        | some _ ↦ (status failure, s)
        | none ↦ elim removed.0 [
          | some _ ↦ (status failure, with_world removed.1 s)
          | none ↦ (
            status ok_status,
            act_on_each file_list
                (charge env c.user (neg64 num_files) (neg64 size) (with_world removed.1 s)),
          )
        ]
      ]

  -- `handleSFTPSymlink`
  unfoldable pub handle_symlink : Text → Text → Server env → Outcome
  handle_symlink source target s =
      if not (has_perm c.user perm_create_symlinks)
      then (status permission_denied, s)
      else finish (os.symlink source target s.world) s

  -- `handleSFTPMkdir`
  unfoldable pub handle_mkdir : Text → Server env → Outcome
  handle_mkdir path s =
      let made = create_missing_dirs env c.user (os.join path (bytes "testfile")) s.world in
      if not (has_perm c.user perm_create_dirs)
      then (status permission_denied, s)
      else elim made.0 [
        | some _ ↦ (status failure, with_world made.1 s)
        | none ↦ (done, with_world made.1 s)
      ]

  -- The quota after a file or a symlink is removed.
  abbrev pub uncharge_file : FileInfo → Server env → Server env
  uncharge_file fi s =
      if not fi.is_symlink then charge env c.user (negsuc 0) (neg64 fi.size) s else s

  -- `handleSFTPRemove`
  unfoldable pub handle_remove : Text → Server env → Outcome
  handle_remove path s =
      let removed = os.remove path s.world in
      if not (has_perm c.user perm_delete)
      then (status permission_denied, s)
      else elim (os.lstat path s.world) [
        | err _ ↦ (status failure, s)
        | ok fi ↦ elim removed.0 [
          | some _ ↦ (status failure, with_world removed.1 s)
          | none ↦ (
            status ok_status,
            act env operation_delete c.user.username path []
                (uncharge_file fi (with_world removed.1 s)),
          )
        ]
      ]

  -- `getSFTPCmdTargetPath`
  unfoldable pub get_sftp_cmd_target_path : Text → World env → Result PathError Text
  get_sftp_cmd_target_path request_target w =
      if ltb 0 (length request_target) then build_path env c.user request_target w else ok []

  -- The end of `Filecmd`, after a nil.
  abbrev pub settle : Text → Text → Outcome → Outcome
  settle p target (status e, s) = (status e, s)
  settle p target (done, s) =
      let location = if ltb 0 (length target) then target else p in
      (status ok_status, with_world (set_path_permissions env location c.user s.world) s)

  -- The methods of `Filecmd`.
  unfoldable pub run_method : Request → Text → Text → Server env → Outcome
  run_method request p target s =
      if text_eq request.method (bytes "Setstat")
      then handle_setstat p request s
      else if text_eq request.method (bytes "Rename")
      then settle p target (handle_rename p target s)
      else if text_eq request.method (bytes "Rmdir")
      then handle_rmdir p s
      else if text_eq request.method (bytes "Mkdir")
      then settle p target (handle_mkdir p s)
      else if text_eq request.method (bytes "Symlink")
      then settle p target (handle_symlink p target s)
      else if text_eq request.method (bytes "Remove")
      then handle_remove p s
      else (status op_unsupported, s)

  -- `Filecmd`, at an instant.
  unfoldable pub filecmd : ℕ → Request → Server env → Outcome
  filecmd now request s =
      let s' = note_activity env c.id now s in
      elim (build_path env c.user request.filepath s'.world) [
        | err _ ↦ (status no_such_file, s')
        | ok p ↦ elim (get_sftp_cmd_target_path request.target s'.world) [
          | err _ ↦ (status op_unsupported, s')
          | ok target ↦ run_method request p target s'
        ]
      ]
