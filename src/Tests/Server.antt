-- ===== src/Tests/Server.antt =====
-- The witnesses on the shared state of the server and on the listings.
use sshserv.Prelude.{ℕ, ◌+◌, ◌≤◌, ◌≡◌, refl, false, some, List, [], ◌∷◌, arith, if◌then◌else◌}
use sshserv.Prelude.Int.{pos}
use sshserv.Prelude.Text.{Text, bytes, text_eq}
use sshserv.Prelude.Assoc.{lookup}
use sshserv.Serv.Registry.{
  transfer_download, Transfer, Connection, Registry, add_quota_scan, get_active_sessions,
  add_connection, remove_connection, update_connection_activity, of_user, check_idle_connections,
}
use sshserv.Serv.Registry.Scans.{add, done, more, scans_of, quota_scan_once}
use sshserv.Serv.Registry.Idle.{Closes, check_idle_connections-Closes}
use sshserv.Serv.Registry.Stats.{Paths}
use sshserv.Serv.Registry.Sessions.{get_active_sessions-connection}
use sshserv.Serv.Lister.{read_pages, read_pages_all}
use sshserv.Tests.Data.{alice}

abbrev download : Transfer
download = record {
  path = bytes "/a/f";
  start = 10;
  bytes_sent = pos 0;
  bytes_received = pos 0;
  user = alice;
  connection_id = bytes "c1";
  transfer_type = transfer_download;
  last_activity = 50;
  is_new_file = false;
  protocol = bytes "SFTP";
}

abbrev client : Connection
client = record {
  id = bytes "c1";
  user = alice;
  client_version = bytes "v";
  remote_addr = bytes "r";
  start_time = 5;
  last_activity = 20;
  protocol = bytes "SFTP";
  ssh_conn = 3;
}

-- One connection that downloads two files.
abbrev busy : Registry
busy = record {
  open_connections = (bytes "c1", client) ∷ [];
  active_transfers = 1 ∷ 2 ∷ [];
  transfers = λ a. download;
  idle_timeout = 30;
  active_quota_scans = [];
  closed = [];
}

abbrev scanning : Registry
scanning = (add_quota_scan (bytes "alice") 9 busy).1

quota_scan_once_example :
    scans_of (bytes "alice") (add_quota_scan (bytes "alice") 12 scanning).1 ≤ 1
quota_scan_once_example =
    quota_scan_once
      (more (add (bytes "alice") 9 busy) (
        more (add (bytes "alice") 12 scanning)
          (done (add_quota_scan (bytes "alice") 12 scanning).1)))
      (λ v. omega arith) (bytes "alice")

scanning-once : (v : Text) → scans_of v scanning ≤ 1
scanning-once v =
    quota_scan_once (more (add (bytes "alice") 9 busy) (done scanning)) (λ u. omega arith) v

check_idle_connections-Closes_example :
    (closed : List ℕ) × Closes 90 busy ((bytes "c1", client) ∷ []) [] closed
    × (check_idle_connections 90 busy ≡ record busy { closed = closed })
check_idle_connections-Closes_example = check_idle_connections-Closes 90 busy

-- The client is disconnected by then, but not a while earlier.
closed_then : (check_idle_connections 90 busy).closed ≡ 3 ∷ []
unfolding check_idle_connections text_eq
closed_then = refl

open_before : (check_idle_connections 70 busy).closed ≡ []
unfolding check_idle_connections text_eq
open_before = refl

abbrev second : Connection
second = record client { id = bytes "c2"; ssh_conn = 4 }

get_active_sessions-connection_example :
    (get_active_sessions (bytes "alice") (add_connection (bytes "c2") second busy)
      ≡ get_active_sessions (bytes "alice") busy
        + (if of_user (bytes "alice") second then 1 else 0))
    × (get_active_sessions (bytes "alice") (
          remove_connection
            (bytes "c2")
            (update_connection_activity (bytes "c2") 99 (add_connection (bytes "c2") second busy)))
        ≡ get_active_sessions (bytes "alice") busy)
unfolding lookup text_eq
get_active_sessions-connection_example =
    get_active_sessions-connection (bytes "alice") (bytes "c2") 99 second busy refl

abbrev listing : List ℕ
listing = 4 ∷ 5 ∷ 6 ∷ []

read_pages_all_example : read_pages 4 listing 2 0 ≡ listing
read_pages_all_example = read_pages_all listing 2 4 (omega arith) (omega arith)

-- Paths that are taken as they are.
abbrev plain_paths : Paths
plain_paths = record { clean = λ p. p; rel = λ base p. some p }
