-- ===== src/Serv/Env.antt =====
-- What a request of serv/ sees: the configuration, and the state that it may change. Here stand
-- `executeAction` of serv/sftpd.go, and `SetPathPermissions` and `ScanDirContents` of
-- utils/utils.go.
use sshserv.Prelude.{
  ℕ, suc, false, not, ◌&&◌, Option, none, some, List, [], ◌∷◌, ◌++◌, ok, err, if◌then◌else◌, ltb,
  length,
}
use sshserv.Prelude.Int.{ℤ, pos, add64}
use sshserv.Prelude.Text.{Text, bytes}
use sshserv.Utils.{is_string_in_slice}
use sshserv.Dataprovider.User.{User, get_uid, get_gid}
use sshserv.Dataprovider.Validate.{is_abs}
use sshserv.Dataprovider.Facade.{Config, Provider, update_user_quota}
use sshserv.Serv.Registry.{Registry, Transfer, add_transfer, update_connection_activity}
use sshserv.Serv.Os.{Os, OsError, FileInfo}
use sshserv.Serv.Transfer.{set_transfer}

pub data UploadMode : Type 0 where
  standard atomic : UploadMode

pub record Actions : Type 0 where
  pub execute_on : List Text
  pub command : Text
  pub http_notification_url : Text

pub record Env : Type 1 where
  pub os : Os
  pub Store : Type 0
  pub config : Config
  pub provider : Provider Store
  pub upload_mode : UploadMode
  pub actions : Actions

-- `next` is the address of the next transfer that is allocated.
pub record Server (env : Env) : Type 0 where
  pub registry : Registry
  pub world : env.os.World
  pub store : env.Store
  pub next : ℕ

module _ (env : Env) where
  open env use {os, config, provider, actions}

  abbrev pub World : Type 0
  World = os.World

  -- The first half of `executeAction`.
  unfoldable pub run_command : List Text → World → Option OsError × World
  run_command arguments w =
      if ltb 0 (length actions.command) && is_abs actions.command
      then elim (os.stat actions.command w) [
        | err e ↦ (some e, w)
        | ok _ ↦ os.start_command (actions.command ∷ arguments) w
      ]
      else (none, w)

  abbrev target_query : Text → List (Text × Text)
  target_query target = if ltb 0 (length target) then (bytes "target_path", target) ∷ [] else []

  -- The second half, after an error of the first.
  unfoldable pub notify_url :
      Text → Text → Text → Text → Option OsError × World → Option OsError × World
  notify_url operation username path target (e, w) =
      if ltb 0 (length actions.http_notification_url)
      then elim (os.url_parse actions.http_notification_url) [
        | some failed ↦ (some failed, w)
        | none ↦ (
          none,
          os.notify actions.http_notification_url
              ((bytes "action", operation)
                ∷ (bytes "username", username)
                ∷ (bytes "path", path)
                ∷ target_query target)
              w,
        )
      ]
      else (e, w)

  -- `executeAction`
  unfoldable pub execute_action : Text → Text → Text → Text → World → Option OsError × World
  execute_action operation username path target w =
      if not (is_string_in_slice operation actions.execute_on)
      then (none, w)
      else notify_url operation username path target
          (run_command (operation ∷ username ∷ path ∷ target ∷ []) w)

  -- Its call where the result is dropped.
  abbrev pub act : Text → Text → Text → Text → Server env → Server env
  act operation username path target s = record s {
    world = (execute_action operation username path target s.world).1;
  }

  -- `SetPathPermissions` on unix, for the ids of a user.
  abbrev pub set_path_permissions : Text → User → World → World
  set_path_permissions path user w = (os.chown path (get_uid user) (get_gid user) w).1

  -- The callback that `ScanDirContents` hands to `filepath.Walk`, on each entry in turn.
  abbrev pub scan_entries : ℤ → ℤ → List Text → List (Text × FileInfo) → ℤ × ℤ × List Text
  scan_entries num_files size file_list [] = (num_files, size, file_list)
  scan_entries num_files size file_list ((path, info) ∷ rest) =
      let regular =
        scan_entries (add64 num_files (pos 1)) (add64 size info.size) (file_list ++ path ∷ [])
          rest in
      let other = scan_entries num_files size file_list rest in
      if info.is_regular then regular else other

  abbrev walked : ℤ × ℤ × List Text → Option OsError → ℤ × ℤ × List Text × Option OsError
  walked (n, size, files) e = (n, size, files, e)

  -- `ScanDirContents`
  unfoldable pub scan_dir_contents : Text → World → ℤ × ℤ × List Text × Option OsError
  scan_dir_contents path w = elim (os.stat path w) [
    | err e ↦ (pos 0, pos 0, [], some e)
    | ok info ↦
        if info.is_dir
        then walked (scan_entries (pos 0) (pos 0) [] (os.walk path w).0) (os.walk path w).1
        else (pos 0, pos 0, [], none)
  ]

  -- `UpdateUserQuota` where the result is dropped.
  abbrev pub charge : User → ℤ → ℤ → Server env → Server env
  charge user files size s = record s {
    store = (update_user_quota config provider user files size false s.store).1;
  }

  abbrev pub note_activity : Text → ℕ → Server env → Server env
  note_activity id now s = record s { registry = update_connection_activity id now s.registry }

  -- A transfer is allocated and `addTransfer` is called on it.
  abbrev pub start_transfer : Transfer → Server env → Server env
  start_transfer t s = record s {
    registry = add_transfer s.next (set_transfer s.next t s.registry);
    next = suc s.next;
  }
