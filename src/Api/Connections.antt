-- ===== src/Api/Connections.antt =====
-- api/quota.go and api/router.go: the quota scans and the connections over HTTP.
pub mod Scanned
use sshserv.Prelude.{
  ℕ, Bool, true, false, not, Option, none, some, List, [], Result, ok, err, if◌then◌else◌, length,
  ltb,
}
use sshserv.Prelude.Int.{ℤ}
use sshserv.Prelude.Text.{Text, bytes}
use sshserv.Dataprovider.User.{User, zero_user}
use sshserv.Dataprovider.Errors.{ProviderError}
use sshserv.Dataprovider.Facade.{update_user_quota}
use sshserv.Serv.Registry.{
  Registry, ActiveQuotaScan, add_quota_scan, remove_quota_scan, close_active_connection,
}
use sshserv.Serv.Os.{OsError}
use sshserv.Serv.Env.{Env, Server, scan_dir_contents}
use sshserv.Api.{Response, failed, message, not_decoded, Decode}

-- `GetQuotaScans`, which copies the list.
abbrev pub get_quota_scans : Registry → List ActiveQuotaScan
get_quota_scans r = r.active_quota_scans

-- `handleCloseConnection`
unfoldable pub handle_close_connection : Text → Registry → Response × Registry
handle_close_connection connection_id r =
    if not (ltb 0 (length connection_id))
    then (message (bytes "connectionID is mandatory") 400, r)
    else let (found, r') = close_active_connection connection_id r in
      if found
      then (message (bytes "Connection closed") 200, r')
      else (message (bytes "Not Found") 404, r')

module _ (env : Env) where
  open env use {config, provider}

  -- `startQuotaScan` at an instant: the answer, and the user whose scan has been started.
  unfoldable pub start_quota_scan :
      Decode → ℕ → Text → Server env → (Response × Option User) × Server env
  start_quota_scan decode now body s = elim (decode body zero_user) [
    | none ↦ ((not_decoded, none), s)
    | some u ↦ elim (provider.user_exists u.username s.store) [
      | err e ↦ ((failed e 404, none), s)
      | ok user ↦
          let (started, r) = add_quota_scan user.username now s.registry in
          if started
          then ((message (bytes "Scan started") 201, some user), record s { registry = r })
          else ((message (bytes "Another scan is already in progress") 409, none), s)
    ]
  ]

  -- The store after a scan of a user's home directory.
  abbrev pub store_scan : User → ℤ × ℤ × List Text × Option OsError → Server env → Server env
  store_scan user (files, size, paths, some e) s = s
  store_scan user (files, size, paths, none) s = record s {
    store = (update_user_quota config provider user files size true s.store).1;
  }

  -- The goroutine of `startQuotaScan`.
  unfoldable pub run_scan : User → Server env → Server env
  run_scan user s =
      let stored = store_scan user (scan_dir_contents env user.home_dir s.world) s in
      record stored { registry = (remove_quota_scan user.username stored.registry).1 }
