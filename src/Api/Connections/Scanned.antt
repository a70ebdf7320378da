-- ===== src/Api/Connections/Scanned.antt =====
-- What a quota scan that the API has started leaves.
use sshserv.Prelude.{◌≡◌, ◌≤◌, ◌∙◌, ap, true, Option, none, List, ok, length}
use sshserv.Prelude.Int.{ℤ, pos}
use sshserv.Prelude.Text.{Text}
use sshserv.Dataprovider.User.{User}
use sshserv.Dataprovider.Errors.{ProviderError}
use sshserv.Dataprovider.Validate.{Hashing}
use sshserv.Dataprovider.Password.{Checking}
use sshserv.Dataprovider.Facade.{Config, bolt_provider, update_user_quota, get_used_quota}
use sshserv.Dataprovider.Bolt.Store.{KeyValue, Json}
use sshserv.Dataprovider.Bolt.Provider as Bolt
use sshserv.Dataprovider.Bolt.Linked.{IsConsistent}
use sshserv.Serv.Registry.Scans.{scans_of, remove_quota_scan_lem}
use sshserv.Serv.Quota.Scan.{used-after_reset}
use sshserv.Serv.Os.{Os, FileInfo}
use sshserv.Serv.Env.{UploadMode, Actions, Env, Server}
use sshserv.Serv.Sftp.Commands.Removal.{Fits, regular_paths, total_size, scan_dir_contents_lem}
use sshserv.Serv.Transfer.Close.Accounts.{bolt_env}
use sshserv.Api.Connections.{run_scan}

module _ (kv : KeyValue) (json : Json) (hashing : Hashing) (checking : Checking) (now : ℤ)
    (cfg : Config) (os : Os) (mode : UploadMode) (actions : Actions) where
  abbrev pub scan_env : Env
  scan_env = bolt_env kv json hashing checking now cfg os mode actions

  -- A scan of a user's home directory that meets no error, and whose result is stored without one,
  -- leaves as the used quota the number of the regular files that the walk has visited and the sum of
  -- their sizes, if both are below 2^63 and no size is negative; and no scan of the user is running
  -- any more, if each user had one at most.
  pub run_scan_lem :
      (user : User) (info : FileInfo) (entries : List (Text × FileInfo)) (s : Server scan_env)
      (db' : Bolt.State kv json)
      → os.stat user.home_dir s.world ≡ ok info
      → info.is_dir ≡ true
      → os.walk user.home_dir s.world ≡ (entries, none)
      → Fits 0 0 entries
      → IsConsistent kv json s.store
      → update_user_quota cfg
          (bolt_provider kv json hashing checking now)
          user
          (pos (length (regular_paths entries)))
          (pos (total_size entries))
          true
          s.store
        ≡ (none, db')
      → ((v : Text) → scans_of v s.registry ≤ 1)
      → (get_used_quota cfg
            (bolt_provider kv json hashing checking now)
            user.username
            (run_scan scan_env user s).store
          ≡ ok (pos (length (regular_paths entries)), pos (total_size entries)))
        × (scans_of user.username (run_scan scan_env user s).registry ≡ 0)
  unfolding run_scan
  run_scan_lem user info entries s db' found dir walk fits consistent stored once =
      let scanned =
        scan_dir_contents_lem scan_env user.home_dir info entries none s.world found dir walk
          fits in
      let used =
        used-after_reset kv json hashing checking now cfg user _ _ s.store db' consistent stored in
      let removed = (remove_quota_scan_lem user.username s.registry once).1 in
      rw (run_scan, scanned)
        (
          ap (get_used_quota cfg (bolt_provider kv json hashing checking now) user.username)
                (ap (λ (p : Option ProviderError × Bolt.State kv json). p.1) stored)
              ∙ used,
          removed,
        )
