-- ===== src/Serv/Registry/Stats.antt =====
-- serv/sftpd.go: `GetConnectionsStats`, with `GetRelativePath` of dataprovider/user.go.
use sshserv.Prelude.{
  ℕ, suc, ◌+◌, ◌≤◌, ◌≡◌, refl, ap, ◌∙◌, Bool, Option, none, some, List, [], ◌∷◌, ◌++◌,
  if◌then◌else◌, ltb, ltb→lt, arith, inl, inr, Bool-cases, length, length-append,
}
use sshserv.Prelude.Int.{ℤ}
use sshserv.Prelude.Text.{Text, bytes, text_eq}
use sshserv.Prelude.SwapRemove.{count}
use sshserv.Dataprovider.User.{User}
use sshserv.Serv.Registry.{
  transfer_upload, transfer_download, Transfer, Connection, Registry, get_time_as_ms_since_epoch,
}

-- `filepath.Clean` and `filepath.Rel`; `none` is an error.
pub record Paths : Type 0 where
  pub clean : Text → Text
  pub rel : Text → Text → Option Text

pub record ConnectionTransfer : Type 0 where
  pub operation_type : Text
  pub start_time : ℕ
  pub size : ℤ
  pub last_activity : ℕ
  pub path : Text

pub record ConnectionStatus : Type 0 where
  pub username : Text
  pub connection_id : Text
  pub client_version : Text
  pub remote_address : Text
  pub connection_time : ℕ
  pub last_activity : ℕ
  pub protocol : Text
  pub transfers : List ConnectionTransfer

zero_add : (n : ℕ) → 0 + n ≡ n
zero_add n = omega arith

module _ (paths : Paths) where
  -- `GetHomeDir`
  abbrev pub get_home_dir : User → Text
  get_home_dir u = paths.clean u.home_dir

  -- `GetRelativePath` on a unix system, where `filepath.ToSlash` changes nothing.
  abbrev pub get_relative_path : User → Text → Text
  get_relative_path u path = elim (paths.rel (get_home_dir u) path) [
    | none ↦ []
    | some rel ↦ bytes "/" ++ rel
  ]

  abbrev pub connection_transfer : Connection → Transfer → ConnectionTransfer
  connection_transfer c t = record {
    operation_type = elim t.transfer_type [
      | transfer_upload ↦ bytes "upload"
      | transfer_download ↦ bytes "download"
    ];
    start_time = get_time_as_ms_since_epoch t.start;
    size = elim t.transfer_type [
      | transfer_upload ↦ t.bytes_received
      | transfer_download ↦ t.bytes_sent
    ];
    last_activity = get_time_as_ms_since_epoch t.last_activity;
    path = get_relative_path c.user t.path;
  }

  -- `conn.LastActivity` after one own transfer.
  abbrev pub activity_shown : Connection → Transfer → ℕ → ℕ
  activity_shown c t last =
      if ltb c.last_activity t.last_activity
      then get_time_as_ms_since_epoch t.last_activity
      else last

  -- The loop over the transfers, with `conn.LastActivity` and `conn.Transfers` so far.
  abbrev pub add_transfers :
      Connection
      → (ℕ → Transfer)
      → List ℕ
      → ℕ
      → List ConnectionTransfer
      → ℕ × List ConnectionTransfer
  add_transfers c heap [] last ts = (last, ts)
  add_transfers c heap (a ∷ rest) last ts =
      if text_eq (heap a).connection_id c.id
      then add_transfers c heap rest (activity_shown c (heap a) last)
          (ts ++ connection_transfer c (heap a) ∷ [])
      else add_transfers c heap rest last ts

  abbrev pub connection_status : Registry → Connection → ConnectionStatus
  connection_status s c =
      let (last, ts) =
        add_transfers c s.transfers s.active_transfers (get_time_as_ms_since_epoch c.last_activity)
          [] in
      record {
        username = c.user.username;
        connection_id = c.id;
        client_version = c.client_version;
        remote_address = c.remote_addr;
        connection_time = get_time_as_ms_since_epoch c.start_time;
        last_activity = last;
        protocol = c.protocol;
        transfers = ts;
      }

  abbrev status_list : Registry → List (Text × Connection) → List ConnectionStatus
  status_list s [] = []
  status_list s ((k, c) ∷ cs) = connection_status s c ∷ status_list s cs

  -- `GetConnectionsStats`
  unfoldable pub get_connections_stats : Registry → List ConnectionStatus
  get_connections_stats s = status_list s s.open_connections

  abbrev pub own_transfer : Connection → (ℕ → Transfer) → ℕ → Bool
  own_transfer c heap a = text_eq (heap a).connection_id c.id

  add_transfers-length :
      (c : Connection) (heap : ℕ → Transfer) (active : List ℕ) (last : ℕ)
      (ts : List ConnectionTransfer)
      → length (add_transfers c heap active last ts).1
        ≡ length ts + count (own_transfer c heap) active
  add_transfers-length c heap [] last ts = omega arith
  add_transfers-length c heap (a ∷ rest) last ts = elim (Bool-cases (own_transfer c heap a)) [
    | inl y ↦
        let one = connection_transfer c (heap a) in
        rw (y) (
          omega (
            arith,
            add_transfers-length c heap rest (activity_shown c (heap a) last) (ts ++ one ∷ []),
            length-append ts (one ∷ []),
          ))
    | inr n ↦ rw (n) (omega (arith, add_transfers-length c heap rest last ts))
  ]

  activity_shown-later :
      (c : Connection) (t : Transfer) (last : ℕ)
      → get_time_as_ms_since_epoch c.last_activity ≤ last
      → get_time_as_ms_since_epoch c.last_activity ≤ activity_shown c t last
  activity_shown-later c t last h = elim (Bool-cases (ltb c.last_activity t.last_activity)) [
    | inl y ↦ rw (y) (omega (arith, ltb→lt c.last_activity t.last_activity y))
    | inr n ↦ rw (n) h
  ]

  add_transfers-later :
      (c : Connection) (heap : ℕ → Transfer) (active : List ℕ) (last : ℕ)
      (ts : List ConnectionTransfer)
      → get_time_as_ms_since_epoch c.last_activity ≤ last
      → get_time_as_ms_since_epoch c.last_activity ≤ (add_transfers c heap active last ts).0
  add_transfers-later c heap [] last ts h = h
  add_transfers-later c heap (a ∷ rest) last ts h = elim (Bool-cases (own_transfer c heap a)) [
    | inl y ↦ rw (y) (
        add_transfers-later c heap rest (activity_shown c (heap a) last)
          (ts ++ connection_transfer c (heap a) ∷ []) (activity_shown-later c (heap a) last h))
    | inr n ↦ rw (n) (add_transfers-later c heap rest last ts h)
  ]

  status_list-length :
      (s : Registry) (cs : List (Text × Connection)) → length (status_list s cs) ≡ length cs
  status_list-length s [] = refl
  status_list-length s ((k, c) ∷ cs) = ap suc (status_list-length s cs)

  -- There is one status for each open connection. The status of a connection lists as many
  -- transfers as are active for it, and its last activity is not before the connection's own.
  pub get_connections_stats_lem :
      (s : Registry) (c : Connection)
      → (length (get_connections_stats s) ≡ length s.open_connections)
        × (length (connection_status s c).transfers
            ≡ count (own_transfer c s.transfers) s.active_transfers)
        × (get_time_as_ms_since_epoch c.last_activity ≤ (connection_status s c).last_activity)
  unfolding get_connections_stats
  get_connections_stats_lem s c =
      let start = get_time_as_ms_since_epoch c.last_activity in
      (
        status_list-length s s.open_connections,
        add_transfers-length c s.transfers s.active_transfers start [] ∙ zero_add _,
        add_transfers-later c s.transfers s.active_transfers start [] (omega arith),
      )
