-- ===== src/Serv/Registry.antt =====
-- serv/sftpd.go and the records it keeps of serv/filehandler.go and serv/transfer.go: the open
-- connections, the active transfers and the active quota scans, which one mutex guards. An
-- operation holds the mutex from its first statement to its last, so it is one step of the state.
-- A pointer is its address. An instant is its nanoseconds; the instants of one process have
-- monotonic readings, so a later one is not smaller.
pub mod Scans
pub mod Transfers
pub mod Idle
pub mod Sessions
pub mod Stats
use sshserv.Prelude.{
  ℕ, ◌+◌, ◌-◌, ◌/◌, ◌==◌, Bool, true, false, not, Option, none, some, List, [], ◌∷◌, ◌++◌,
  if◌then◌else◌, ltb,
}
use sshserv.Prelude.Int.{ℤ}
use sshserv.Prelude.Text.{Text, bytes, text_eq}
use sshserv.Prelude.SwapRemove.{find_index, swap_remove}
use sshserv.Prelude.Assoc.{lookup, insert, erase}
use sshserv.Dataprovider.User.{User}

pub data TransferType : Type 0 where
  transfer_upload transfer_download : TransferType

-- The open file of a transfer is left to the operating system.
pub record Transfer : Type 0 where
  pub path : Text
  pub start : ℕ
  pub bytes_sent : ℤ
  pub bytes_received : ℤ
  pub user : User
  pub connection_id : Text
  pub transfer_type : TransferType
  pub last_activity : ℕ
  pub is_new_file : Bool
  pub protocol : Text

pub record Connection : Type 0 where
  pub id : Text
  pub user : User
  pub client_version : Text
  pub remote_addr : Text
  pub start_time : ℕ
  pub last_activity : ℕ
  pub protocol : Text
  pub ssh_conn : ℕ

pub record ActiveQuotaScan : Type 0 where
  pub username : Text
  pub start_time : ℕ

-- `closed` lists the `Close` calls on the clients' connections, the last one first.
pub record Registry : Type 0 where
  pub open_connections : List (Text × Connection)
  pub active_transfers : List ℕ
  pub transfers : ℕ → Transfer
  pub idle_timeout : ℕ
  pub active_quota_scans : List ActiveQuotaScan
  pub closed : List ℕ

-- `GetTimeAsMsSinceEpoch`
abbrev pub get_time_as_ms_since_epoch : ℕ → ℕ
get_time_as_ms_since_epoch t = t / 1000000

abbrev pub of_user : Text → Connection → Bool
of_user username c = text_eq c.user.username username

abbrev pub count_sessions : Text → List (Text × Connection) → ℕ
count_sessions username [] = 0
count_sessions username ((k, c) ∷ rest) =
    (if of_user username c then 1 else 0) + count_sessions username rest

-- `getActiveSessions`
unfoldable pub get_active_sessions : Text → Registry → ℕ
get_active_sessions username s = count_sessions username s.open_connections

abbrev pub scans_user : Text → ActiveQuotaScan → Bool
scans_user username q = text_eq q.username username

-- `AddQuotaScan`, at an instant.
unfoldable pub add_quota_scan : Text → ℕ → Registry → Bool × Registry
add_quota_scan username now s = elim (find_index (scans_user username) s.active_quota_scans) [
  | some i ↦ (false, s)
  | none ↦ (
    true,
    record s {
      active_quota_scans =
          s.active_quota_scans
          ++ (record { username = username; start_time = get_time_as_ms_since_epoch now } ∷ []);
    },
  )
]

-- The errors of this file, by their texts.
abbrev pub quota_scan_not_found : Text
quota_scan_not_found = bytes "quota scan to remove not found for user: "

abbrev pub transfer_not_found : Text
transfer_not_found = bytes "transfer to remove not found"

-- `RemoveQuotaScan`
unfoldable pub remove_quota_scan : Text → Registry → Option Text × Registry
remove_quota_scan username s = elim (find_index (scans_user username) s.active_quota_scans) [
  | some i ↦ (none, record s { active_quota_scans = swap_remove s.active_quota_scans i })
  | none ↦ (some (quota_scan_not_found ++ username), s)
]

abbrev pub close_first : Text → List (Text × Connection) → Registry → Bool × Registry
close_first connection_id [] s = (false, s)
close_first connection_id ((k, c) ∷ rest) s =
    let later = close_first connection_id rest s in
    if text_eq c.id connection_id
    then (true, record s { closed = c.ssh_conn ∷ s.closed })
    else later

-- `CloseActiveConnection`
unfoldable pub close_active_connection : Text → Registry → Bool × Registry
close_active_connection connection_id s = close_first connection_id s.open_connections s

-- `addConnection`
unfoldable pub add_connection : Text → Connection → Registry → Registry
add_connection id conn s = record s { open_connections = insert id conn s.open_connections }

-- `removeConnection`
unfoldable pub remove_connection : Text → Registry → Registry
remove_connection id s = record s { open_connections = erase id s.open_connections }

-- `addTransfer`
unfoldable pub add_transfer : ℕ → Registry → Registry
add_transfer transfer s = record s { active_transfers = s.active_transfers ++ (transfer ∷ []) }

abbrev pub is_transfer : ℕ → ℕ → Bool
is_transfer transfer v = v == transfer

-- `removeTransfer`
unfoldable pub remove_transfer : ℕ → Registry → Option Text × Registry
remove_transfer transfer s = elim (find_index (is_transfer transfer) s.active_transfers) [
  | some i ↦ (none, record s { active_transfers = swap_remove s.active_transfers i })
  | none ↦ (some transfer_not_found, s)
]

-- `updateConnectionActivity`, at an instant.
unfoldable pub update_connection_activity : Text → ℕ → Registry → Registry
update_connection_activity id now s = elim (lookup id s.open_connections) [
  | none ↦ s
  | some c ↦ record s {
    open_connections = insert id (record c { last_activity = now }) s.open_connections;
  }
]

-- One round of the loop over the transfers: an own transfer that has been idle for less counts.
abbrev pub shorter : Bool → ℕ → ℕ → ℕ
shorter own transfer_idle idle =
    if own then (if ltb transfer_idle idle then transfer_idle else idle) else idle

-- The shortest idle time of a connection and its transfers, at an instant.
abbrev pub idle_with : ℕ → Text → (ℕ → Transfer) → List ℕ → ℕ → ℕ
idle_with now id heap [] idle = idle
idle_with now id heap (a ∷ rest) idle =
    idle_with now id heap rest
      (shorter (text_eq (heap a).connection_id id) (now - (heap a).last_activity) idle)

abbrev pub is_idle : ℕ → Registry → Connection → Bool
is_idle now s c =
    ltb s.idle_timeout (idle_with now c.id s.transfers s.active_transfers (now - c.last_activity))

abbrev pub close_idle : ℕ → Registry → List (Text × Connection) → List ℕ → List ℕ
close_idle now s [] closed = closed
close_idle now s ((k, c) ∷ rest) closed =
    close_idle now s rest (if is_idle now s c then c.ssh_conn ∷ closed else closed)

-- `CheckIdleConnections`, at an instant.
unfoldable pub check_idle_connections : ℕ → Registry → Registry
check_idle_connections now s = record s { closed = close_idle now s s.open_connections s.closed }
