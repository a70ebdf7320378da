-- ===== src/Serv/Sftp/Open/Checked.antt =====
-- What has been checked of a file when a transfer of it starts.
use sshserv.Prelude.{
  ◌∙◌, ℕ, ◌<◌, ◌==◌, ==_iff, ◌≡◌, inl, inr, refl, ap, Bool, true, false, not, ◌&&◌, ok, err, arith,
  Bool-cases, Option-cases, Result-cases,
}
use Prim.Native.Nat.{bit_and}
use sshserv.Prelude.Int.{ℤ}
use sshserv.Prelude.Text.{Text}
use sshserv.Dataprovider.User.{has_perm, perm_download, perm_upload, perm_create_dirs}
use sshserv.Serv.Registry.{
  Connection, Transfer, TransferType, transfer_upload, transfer_download, Registry, add_transfer,
}
use sshserv.Serv.Registry.Transfers.{listed, listed-add_transfer}
use sshserv.Serv.Quota.{has_space}
use sshserv.Serv.Os.{is_not_exist}
use sshserv.Serv.Env.{World, Env, Server, note_activity}
use sshserv.Serv.Transfer.{set_transfer}
use sshserv.Serv.Paths.{is_missing, build_path, create_missing_dirs}
use sshserv.Serv.Sftp.Types.{FileOpenFlags, Request, o_trunc, get_os_open_flags}
use sshserv.Serv.Sftp.Open.{
  Reply, is_atomic, set_world, new_transfer, open_transfer, read_path, fileread, written_path,
  create_file, upload_to_new_file, truncate_file, upload_to_existing_file, write_path, filewrite,
}

-- The transfer behind an address that has just been started, which is listed.
started :
    (a : ℕ) (t : Transfer) (r : Registry) → (add_transfer a (set_transfer a t r)).transfers a ≡ t
unfolding add_transfer
started a t r = rw ((==_iff a a).1 refl) refl

started_listed :
    (a : ℕ) (t : Transfer) (r : Registry) → 0 < listed a (add_transfer a (set_transfer a t r))
started_listed a t r = ground (arith, listed-add_transfer a a (set_transfer a t r), ==_iff a a)

module _ (env : Env) (c : Connection) (clock : ℕ → ℕ) where
  open env use {os, config, provider, upload_mode}

  -- An active transfer of the connection, of a path.
  pub record IsOpened (path : Text) (type : TransferType) (a : ℕ) (s : Server env) : Type 0 where
    pub path_is : (s.registry.transfers a).path ≡ path
    pub owner : (s.registry.transfers a).connection_id ≡ c.id
    pub type_is : (s.registry.transfers a).transfer_type ≡ type
    pub active : 0 < listed a s.registry

  -- A reply that starts no transfer but one of that path, and none unless a condition holds.
  abbrev pub Opens : Type 0 → Text → TransferType → Reply env c clock → Type 0
  Opens P path type (err e, s) = Unit
  Opens P path type (ok a, s) = P × IsOpened path type a s

  open_transfer-Opens :
      (P : Type 0) (path : Text) (type : TransferType) (is_new : Bool) (s : Server env)
      → P
      → Opens P path type (open_transfer env c clock path type is_new s)
  open_transfer-Opens P path type is_new s p =
      let t = new_transfer c path type is_new (clock 1) (clock 2) in
      let at = started s.next t s.registry in
      (
        p,
        record {
          path_is = ap (λ (u : Transfer). u.path) at;
          owner = ap (λ (u : Transfer). u.connection_id) at;
          type_is = ap (λ (u : Transfer). u.transfer_type) at;
          active = omega (arith, started_listed s.next t s.registry);
        },
      )

  read_path-Opens :
      (path : Text) (s : Server env)
      → Opens Unit path transfer_download (read_path env c clock path s)
  unfolding read_path
  read_path-Opens path s = elim (Result-cases (os.stat path s.world)) [
    | inl (e, failed) ↦ elim (Bool-cases (is_not_exist e)) [
      | inl y ↦ rw (read_path, failed, y) tt
      | inr n ↦ elim (Option-cases (os.open_read s.next path s.world).0) [
        | inl o ↦ rw (read_path, failed, n, o) tt
        | inr (f, o) ↦ rw (read_path, failed, n, o) tt
      ]
    ]
    | inr (info, found) ↦ elim (Option-cases (os.open_read s.next path s.world).0) [
      | inl o ↦
          rw (read_path, found, o) (open_transfer-Opens Unit path transfer_download false _ tt)
      | inr (f, o) ↦ rw (read_path, found, o) tt
    ]
  ]

  create_file-Opens :
      (P : Type 0) (path file_path : Text) (s : Server env)
      → P
      → Opens P path transfer_upload (create_file env c clock path file_path s)
  unfolding create_file
  create_file-Opens P path file_path s p =
      elim (Option-cases (os.create s.next file_path s.world).0) [
        | inl e ↦ rw (create_file, e) (open_transfer-Opens P path transfer_upload true _ p)
        | inr (f, e) ↦ rw (create_file, e) tt
      ]

  -- The quota has space, for one more file if the path is missing in a state of the system.
  abbrev pub HasSpace : Server env → World env → Text → Type 0
  HasSpace s w path = has_space config provider (is_missing (os.stat path w)) c.user s.store ≡ true

  upload_to_new_file-Opens :
      (P : Type 0) (path file_path : Text) (s : Server env)
      → (has_space config provider true c.user s.store ≡ true → P)
      → Opens P path transfer_upload (upload_to_new_file env c clock path file_path s)
  unfolding upload_to_new_file
  upload_to_new_file-Opens P path file_path s spaced =
      elim (Bool-cases (has_space config provider true c.user s.store)) [
        | inr n ↦ rw (upload_to_new_file, n) tt
        | inl y ↦
            elim (Bool-cases (
              is_missing (os.stat (os.dir path) s.world)
              && not (has_perm c.user perm_create_dirs))) [
                | inl d ↦ rw (upload_to_new_file, y, d) tt
                | inr d ↦ elim (Option-cases (create_missing_dirs env c.user path s.world).0) [
                  | inr (f, e) ↦ rw (upload_to_new_file, y, d, e) tt
                  | inl e ↦
                      rw (upload_to_new_file, y, d, e)
                        (create_file-Opens P path file_path _ (spaced y))
                ]
              ]
      ]

  truncate_file-Opens :
      (P : Type 0) (f : FileOpenFlags) (path file_path : Text) (size : ℤ) (s : Server env)
      → P
      → Opens P path transfer_upload (truncate_file env c clock f path file_path size s)
  unfolding truncate_file
  truncate_file-Opens P f path file_path size s p =
      elim (Option-cases (os.open_file s.next file_path (get_os_open_flags f) s.world).0) [
        | inl e ↦ rw (truncate_file, e) (open_transfer-Opens P path transfer_upload false _ p)
        | inr (g, e) ↦ rw (truncate_file, e) tt
      ]

  upload_to_existing_file-Opens :
      (P : Type 0) (f : FileOpenFlags) (path file_path : Text) (size : ℤ) (s : Server env)
      → (has_space config provider false c.user s.store ≡ true → P)
      → Opens P path transfer_upload (upload_to_existing_file env c clock f path file_path size s)
  unfolding upload_to_existing_file
  upload_to_existing_file-Opens P f path file_path size s spaced =
      elim (Bool-cases (has_space config provider false c.user s.store)) [
        | inr n ↦ rw (upload_to_existing_file, n) tt
        | inl y ↦ elim (Bool-cases (bit_and (get_os_open_flags f) o_trunc == 0)) [
          | inl z ↦ rw (upload_to_existing_file, y, z) tt
          | inr z ↦ elim (Bool-cases (is_atomic upload_mode)) [
            | inr a ↦
                rw (upload_to_existing_file, y, z, a)
                  (truncate_file-Opens P f path file_path size s (spaced y))
            | inl a ↦ elim (Option-cases (os.rename path file_path s.world).0) [
              | inr (g, e) ↦ rw (upload_to_existing_file, y, z, a, e) tt
              | inl e ↦
                  rw (upload_to_existing_file, y, z, a, e)
                    (truncate_file-Opens P f path file_path size _ (spaced y))
            ]
          ]
        ]
      ]

  write_path-Opens :
      (P : Type 0) (f : FileOpenFlags) (path file_path : Text) (s : Server env)
      → (HasSpace s s.world path → P)
      → Opens P path transfer_upload (write_path env c clock f path file_path s)
  unfolding write_path
  write_path-Opens P f path file_path s spaced = elim (Result-cases (os.stat path s.world)) [
    | inl (e, failed) ↦ elim (Bool-cases (is_not_exist e)) [
      | inl y ↦
          let missing = ap is_missing failed ∙ y in
          rw (write_path, failed, y)
            (upload_to_new_file-Opens P path file_path s (λ h. spaced (rw (missing) h)))
      | inr n ↦ rw (write_path, failed, n) tt
    ]
    | inr (info, found) ↦ elim (Bool-cases info.is_dir) [
      | inl y ↦ rw (write_path, found, y) tt
      | inr n ↦
          let there = ap is_missing found in
          rw (write_path, found, n)
            (upload_to_existing_file-Opens P f path file_path info.size s
              (λ h. spaced (rw (there) h)))
    ]
  ]

  -- There is space when `Filewrite` has chosen the path that it writes to.
  abbrev pub SpaceFor : Server env → Text → Type 0
  SpaceFor s path = HasSpace s (written_path env c clock path s.world).1 path

  -- A reply that starts a transfer of the path that `buildPath` gives for the request's, by the
  -- permission and the condition.
  abbrev pub Serves :
      Text → (Text → Type 0) → TransferType → Request → Server env → Reply env c clock → Type 0
  Serves perm P type request s (err e, s') = Unit
  Serves perm P type request s (ok a, s') =
      (has_perm c.user perm ≡ true)
      × (path : Text) × (build_path env c.user request.filepath s.world ≡ ok path)
      × P path
      × IsOpened path type a s'

  serves :
      (perm : Text) (P : Text → Type 0) (type : TransferType) (request : Request) (s : Server env)
      (path : Text) (r : Reply env c clock)
      → has_perm c.user perm ≡ true
      → build_path env c.user request.filepath s.world ≡ ok path
      → Opens (P path) path type r
      → Serves perm P type request s r
  serves perm P type request s path (err e, s') y b o = tt
  serves perm P type request s path (ok a, s') y b o = (y, path, b, o.0, o.1)

  -- `Fileread` answers with a transfer only to a user with the permission to download, for a path
  -- that `buildPath` accepts; the transfer is a download of just that path, it belongs to the
  -- connection, and it is among the active transfers.
  pub fileread_checked :
      (request : Request) (s : Server env)
      → Serves perm_download
          (λ p. Unit)
          transfer_download
          request
          s
          (fileread env c clock request s)
  unfolding fileread
  fileread_checked request s = elim (Bool-cases (has_perm c.user perm_download)) [
    | inr n ↦ rw (fileread, n) tt
    | inl y ↦ elim (Result-cases (build_path env c.user request.filepath s.world)) [
      | inl (e, b) ↦ rw (fileread, y, b) tt
      | inr (p, b) ↦
          let s' = note_activity env c.id (clock 0) s in
          rw (fileread, y, b)
            (serves perm_download (λ p. Unit) transfer_download request s p
              (read_path env c clock p s') y b (read_path-Opens p s'))
    ]
  ]

  -- `Filewrite` answers with a transfer only to a user with the permission to upload, for a path
  -- that `buildPath` accepts, and only while the user's quota has space, where the number of files
  -- counts if the file is new; the transfer is an upload of just that path, it belongs to the
  -- connection, and it is among the active transfers.
  pub filewrite_checked :
      (request : Request) (s : Server env)
      → Serves perm_upload (SpaceFor s) transfer_upload request s (filewrite env c clock request s)
  unfolding filewrite
  filewrite_checked request s = elim (Bool-cases (has_perm c.user perm_upload)) [
    | inr n ↦ rw (filewrite, n) tt
    | inl y ↦ elim (Result-cases (build_path env c.user request.filepath s.world)) [
      | inl (e, b) ↦ rw (filewrite, y, b) tt
      | inr (p, b) ↦
          let s' = note_activity env c.id (clock 0) s in
          let target = written_path env c clock p s'.world in
          let s'' = set_world env c clock target.1 s' in
          rw (filewrite, y, b)
            (serves perm_upload (SpaceFor s) transfer_upload request s p
              (write_path env c clock request.pflags p target.0 s'') y b
              (write_path-Opens (SpaceFor s p) request.pflags p target.0 s'' (λ h. h)))
    ]
  ]
