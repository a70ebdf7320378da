-- ===== src/Tests/Moves.antt =====
-- The witnesses on transfers.
use sshserv.Prelude.{
  ℕ, suc, ◌+◌, ◌*◌, ◌-◌, ◌/◌, ◌<◌, ◌≤◌, ◌≡◌, ◌⊎◌, refl, false, none, [], ◌∷◌, arith, length,
}
use sshserv.Prelude.Int.{pos}
use sshserv.Prelude.Text.{bytes}
use sshserv.Serv.Registry.{transfer_download, Transfer, Connection, Registry, is_idle}
use sshserv.Serv.Transfer.{Files, read_at, write_at, handle_throttle}
use sshserv.Serv.Transfer.Activity.{transfer-keeps_alive}
use sshserv.Serv.Transfer.Throttle.{downloads, handle_throttle_rate}
use sshserv.Tests.Data.{alice}

-- Files that move every byte asked for.
abbrev files : Files
files = record {
  World = Unit;
  read_at = λ a size off w. ((size, none), w);
  write_at = λ a p off w. ((length p, none), w);
}

-- A download of 5000 bytes at 10 kilobytes a second.
abbrev slow : Transfer
slow = record {
  path = bytes "/a/f";
  start = 10;
  bytes_sent = pos 5000;
  bytes_received = pos 0;
  user = record alice { download_bandwidth = pos 10 };
  connection_id = bytes "c1";
  transfer_type = transfer_download;
  last_activity = 50;
  is_new_file = false;
  protocol = bytes "SFTP";
}

abbrev slow_client : Connection
slow_client = record {
  id = bytes "c1";
  user = alice;
  client_version = bytes "v";
  remote_addr = bytes "r";
  start_time = 5;
  last_activity = 20;
  protocol = bytes "SFTP";
  ssh_conn = 3;
}

abbrev moving : Registry
moving = record {
  open_connections = (bytes "c1", slow_client) ∷ [];
  active_transfers = 1 ∷ [];
  transfers = λ a. slow;
  idle_timeout = 30;
  active_quota_scans = [];
  closed = [];
}

transfer-keeps_alive_example :
    (is_idle 120 (read_at files 1 8 (pos 0) 100 101 tt moving).registry slow_client ≡ false)
    × (is_idle 120 (write_at files 1 (bytes "x") (pos 0) 100 101 tt moving).registry slow_client
        ≡ false)
transfer-keeps_alive_example =
    transfer-keeps_alive files 1 8 (bytes "x") (pos 0) 100 101 120 tt slow_client moving
      (omega arith) refl (omega arith)

handle_throttle_rate_example :
    (ms : ℕ) × (handle_throttle slow 2000010 ≡ pos (ms * 1000000))
    × (5000 / 1000 * 1000 < ((2000010 - 10) / 1000000 + ms + 1) * suc 9)
    × ((ms ≡ 0) ⊎ (((2000010 - 10) / 1000000 + ms) * suc 9 ≤ 5000))
handle_throttle_rate_example =
    handle_throttle_rate slow 5000 9 2000010 (downloads refl refl refl) (omega arith)
