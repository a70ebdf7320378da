-- ===== src/Serv/Sftp/Listing.antt =====
-- `Filelist`: the listings of directories, and the information on one file.
use sshserv.Prelude.{ℕ, not, List, [], ◌∷◌, Result, ok, err, if◌then◌else◌}
use sshserv.Prelude.Text.{Text, bytes, text_eq}
use sshserv.Dataprovider.User.{has_perm, perm_list_items}
use sshserv.Serv.Registry.{Connection}
use sshserv.Serv.Os.{OsError, is_not_exist, FileInfo}
use sshserv.Serv.Env.{Env, Server, World, note_activity}
use sshserv.Serv.Paths.{build_path}
use sshserv.Serv.Sftp.Types.{
  Status, permission_denied, no_such_file, failure, op_unsupported, Request,
}

abbrev or_failure : Result OsError (List FileInfo) → Result Status (List FileInfo)
or_failure (ok files) = ok files
or_failure (err e) = err failure

abbrev one_or_missing : Result OsError FileInfo → Result Status (List FileInfo)
one_or_missing (ok info) = ok (info ∷ [])
one_or_missing (err e) = if is_not_exist e then err no_such_file else err failure

module _ (env : Env) (c : Connection) where
  open env use {os}

  -- The methods of `Filelist`.
  unfoldable pub list_method : Text → Text → World env → Result Status (List FileInfo)
  list_method method p w =
      if text_eq method (bytes "List")
      then if not (has_perm c.user perm_list_items)
        then err permission_denied
        else or_failure (os.read_dir p w)
      else if text_eq method (bytes "Stat")
      then if not (has_perm c.user perm_list_items)
        then err permission_denied
        else one_or_missing (os.stat p w)
      else err op_unsupported

  -- `Filelist`, at an instant.
  unfoldable pub filelist : ℕ → Request → Server env → Result Status (List FileInfo) × Server env
  filelist now request s =
      let s' = note_activity env c.id now s in
      elim (build_path env c.user request.filepath s'.world) [
        | err _ ↦ (err no_such_file, s')
        | ok p ↦ (list_method request.method p s'.world, s')
      ]
