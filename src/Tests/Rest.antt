-- ===== src/Tests/Rest.antt =====
-- The witnesses on the REST API.
use sshserv.Prelude.{◌≡◌, refl, none, some, ok, true, List, [], ◌∷◌, arith, length}
use sshserv.Prelude.Int.{pos}
use sshserv.Prelude.Text.{Text, bytes, text_eq, has_prefix}
use sshserv.Prelude.Strings.{index_byte}
use sshserv.Prelude.Assoc.{lookup, insert}
use sshserv.Utils.{is_string_in_slice, is_string_prefix_in_slice}
use sshserv.Dataprovider.Validate.{
  validate_user, is_abs, check_permissions, stored_password, check_keys,
}
use sshserv.Dataprovider.Facade.{bolt_provider, get_used_quota, update_user_quota}
use sshserv.Dataprovider.Bolt.Provider.{State, add_user, update_quota}
use sshserv.Serv.Registry.Scans.{scans_of}
use sshserv.Serv.Os.{FileInfo}
use sshserv.Serv.Env.{standard}
use sshserv.Serv.Sftp.Commands.Removal.{regular_paths, total_size}
use sshserv.Api.{Query}
use sshserv.Api.Users.{get_users}
use sshserv.Api.Users.Listed.{IsListing, get_users-IsListing}
use sshserv.Api.Connections.{run_scan}
use sshserv.Api.Connections.Scanned.{run_scan_lem}
use sshserv.Tests.Buckets.{bolt}
use sshserv.Tests.Codec.{codec}
use sshserv.Tests.Data.{hashing, checking, bob, with_both}
use sshserv.Tests.Store.{with_both-IsConsistent}
use sshserv.Tests.Machine.{file_info, dir_info, machine, tracking, no_actions, server_env, running}

-- More users than are listed at once.
abbrev greedy : Query
greedy = record {
  limit = some (bytes "900");
  offset = none;
  order = some (bytes "DESC");
  username = none;
}

get_users-IsListing_example :
    IsListing bolt codec
      (get_users tracking (bolt_provider bolt codec hashing checking (pos 9)) greedy with_both)
get_users-IsListing_example =
    get_users-IsListing bolt codec hashing checking (pos 9) tracking greedy with_both

abbrev home_of_bob : List (Text × FileInfo)
home_of_bob = (bytes "/b", dir_info) ∷ (bytes "/b/d/f", file_info) ∷ []

abbrev scanned : State bolt codec
scanned =
    (update_user_quota tracking (bolt_provider bolt codec hashing checking (pos 9)) bob (pos 1)
      (pos 7) true with_both).1

scan_stored :
    update_user_quota tracking
      (bolt_provider bolt codec hashing checking (pos 9))
      bob
      (pos 1)
      (pos 7)
      true
      with_both
    ≡ (none, scanned)
unfolding update_user_quota bolt_provider update_quota add_user validate_user is_abs has_prefix
    check_permissions is_string_in_slice text_eq index_byte stored_password check_keys
    is_string_prefix_in_slice lookup insert
scan_stored = refl

run_scan_lem_example :
    (get_used_quota tracking
        (bolt_provider bolt codec hashing checking (pos 9))
        (bytes "bob")
        (run_scan server_env bob running).store
      ≡ ok (pos (length (regular_paths home_of_bob)), pos (total_size home_of_bob)))
    × (scans_of (bytes "bob") (run_scan server_env bob running).registry ≡ 0)
unfolding text_eq
run_scan_lem_example =
    run_scan_lem bolt codec hashing checking (pos 9) tracking machine standard no_actions bob
      dir_info home_of_bob running scanned refl refl refl
      ((refl, (refl, tt)), omega arith, omega arith) with_both-IsConsistent scan_stored
      (λ v. omega arith)
