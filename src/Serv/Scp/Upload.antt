-- ===== src/Serv/Scp/Upload.antt =====
-- The uploads of serv/scp.go: `createDir`, `handleCreateDir`, `getUploadFileData`,
-- `handleUploadFile`, `handleUpload`, `getFileUploadDestPath` and `handleRecursiveUpload`.
-- `path.Join` and `filepath.Join` are the same here. The clock is given by its readings.
pub mod Checked
pub mod Ending
use sshserv.Prelude.{
  ℕ, zero, suc, ◌-◌, ◌+◌, Bool, true, false, not, ◌&&◌, Option, none, some, List, [], ◌∷◌, ◌++◌,
  Result, ok, err, if◌then◌else◌, ltb, leb, length,
}
use Prim.Native.Nat.{min}
use sshserv.Prelude.Int.{ℤ, pos, negsuc, add64, neg64, eqb_ℤ}
use sshserv.Prelude.Text.{Text, bytes, has_prefix}
use sshserv.Dataprovider.User.{has_perm, perm_upload, perm_create_dirs}
use sshserv.Serv.Registry.{transfer_upload}
use sshserv.Serv.Quota.{has_space}
use sshserv.Serv.Transfer.{write_at}
use sshserv.Serv.Transfer.Close.{close}
use sshserv.Serv.Os.{OsError, is_not_exist, FileInfo, files_of}
use sshserv.Serv.Env.{
  Env, Server, World, charge, note_activity, set_path_permissions, start_transfer,
}
use sshserv.Serv.Paths.{PathError, os_error, is_missing, build_path}
use sshserv.Serv.Sftp.Open.{new_transfer, is_atomic, get_upload_temp_file_path}
use sshserv.Serv.Scp.Session.{
  Channel, Stop, failed, panicked, exhausted, Command, Session, Run, return, stop, ◌>>=◌, ◌>>◌,
  after, modify, get, call, with_server,
}
use sshserv.Serv.Scp.Protocol.{
  read, refuse, send_error_message, send_confirmation_message, read_confirmation_message,
  get_next_upload_protocol_message,
}
use sshserv.Serv.Scp.Messages.{get_dest_path, is_recursive, parse_upload_message}

abbrev pub permission_denied : Text
permission_denied = bytes "Permission denied"

-- `strings.HasSuffix(s, "/")`
abbrev pub ends_with_slash : Text → Bool
ends_with_slash [] = false
ends_with_slash (c ∷ []) = has_prefix (c ∷ []) (bytes "/")
ends_with_slash (c ∷ d ∷ s) = ends_with_slash (d ∷ s)

module _ (env : Env) (ch : Channel) (cmd : Command) (clock : ℕ → ℕ) (fuel : ℕ) where
  open env use {os, config, provider, upload_mode}
  open cmd use {connection, error_text}

  abbrev pub Scp : Type 0 → Type 0
  Scp A = Run (Session env ch) A

  -- A reading of the clock.
  abbrev pub tick : Scp ℕ
  tick s = (ok (clock s.time), record s { time = suc s.time })

  abbrev pub active : Scp (Unit {0})
  active = tick >>= λ now. modify (note_activity env connection.id now)

  -- What `buildPath` says of a path.
  abbrev pub built : Text → Scp (Result PathError Text)
  built path = get (λ s. build_path env connection.user path s.world)

  -- `createDir`
  unfoldable pub create_dir : Text → Scp (Unit {0})
  create_dir dir_path = call (os.mkdir dir_path) >>= λ e. elim e [
    | some e ↦ refuse (error_text (os_error e))
    | none ↦ call (λ w. (tt, set_path_permissions env dir_path connection.user w))
  ]

  -- `handleCreateDir`
  unfoldable pub handle_create_dir : Text → Scp (Unit {0})
  handle_create_dir dir_path = active >> elim (has_perm connection.user perm_create_dirs) [
    | false ↦ refuse permission_denied
    | true ↦ built dir_path >>= λ r. elim r [ err e ↦ refuse (error_text e) | ok p ↦ create_dir p ]
  ]

  -- The transfer at an address is closed.
  unfoldable pub close_transfer : ℕ → Scp (Option OsError)
  close_transfer a s = let (e, server) = close env a s.server in (ok e, with_server server s)

  -- A handler on whose error the transfer is closed.
  abbrev pub or_close : {A : Type 0} → ℕ → Scp A → Scp A
  or_close a m = after m (λ r. elim r [ err e ↦ close_transfer a >> stop e | ok x ↦ return x ])

  -- `WriteAt` on the transfer; its results are dropped.
  unfoldable pub write_data : ℕ → Text → ℕ → Scp (Unit {0})
  write_data a text offset = tick >>= λ now. tick >>= λ later. modify (λ s.
      let moved = write_at (files_of os) a text (pos offset) now later s.world s.registry in
      record s { world = moved.world; registry = moved.registry })

  -- The loop of `getUploadFileData`; a read gives no more than what remains, so the counter stops
  -- at 0.
  unfoldable pub copy_data : ℕ → ℕ → ℕ → ℕ → ℕ → Scp (Unit {0})
  copy_data zero a size remaining buf = stop exhausted
  copy_data (suc f) a size remaining buf = read buf >>= λ r. elim r.1 [
    | some e ↦ send_error_message e >> stop (failed e)
    | none ↦
        write_data a r.0 (size - remaining)
        >> (let left = remaining - length r.0 in
            elim (leb left 0) [
              | true ↦ return tt
              | false ↦ copy_data f a size left (if ltb left buf then left else buf)
            ])
  ]

  -- The bytes of the file; a size that is not positive has none.
  abbrev pub receive_data : ℕ → ℤ → Scp (Unit {0})
  receive_data a (negsuc n) = return tt
  receive_data a (pos n) =
      if ltb 0 n then or_close a (copy_data fuel a n n (min 32768 n)) else return tt

  -- `getUploadFileData`
  unfoldable pub get_upload_file_data : ℤ → ℕ → Scp (Unit {0})
  get_upload_file_data size_to_read a = do
    or_close a send_confirmation_message
    receive_data a size_to_read
    or_close a (read_confirmation_message fuel)
    closed ← close_transfer a
    elim closed [ some e ↦ refuse (error_text (os_error e)) | none ↦ send_confirmation_message ]

  abbrev allocate : Text → Bool → Scp ℕ
  allocate path is_new = tick >>= λ start. tick >>= λ last. get (λ s. s.next) >>= λ a.
      modify (start_transfer env (new_transfer connection path transfer_upload is_new start last))
      >> return a

  -- `handleUploadFile` from the creation of the file on.
  unfoldable pub create_and_receive : Text → Text → ℤ → Scp (Unit {0})
  create_and_receive request_path file_path size_to_read = get (λ s. s.next) >>= λ a.
      call (os.create a file_path) >>= λ e. elim e [
        | some e ↦ refuse (error_text (os_error e))
        | none ↦ do
          call (λ w. (tt, set_path_permissions env file_path connection.user w))
          a ← allocate request_path true
          get_upload_file_data size_to_read a
      ]

  -- `handleUploadFile`
  unfoldable pub handle_upload_file : Text → Text → ℤ → Scp (Unit {0})
  handle_upload_file request_path file_path size_to_read =
      get (λ s. has_space config provider true connection.user s.store) >>= λ space.
      get (λ s. is_missing (os.stat (os.dir request_path) s.world)) >>= λ missing.
      if not space
      then refuse (bytes "denying file write due to space limit")
      else if missing && not (has_perm connection.user perm_create_dirs)
      then refuse permission_denied
      else create_and_receive request_path file_path size_to_read

  -- `handleUpload` on an existing file of a size, once it is out of the way.
  abbrev pub replace_file : Text → Text → ℤ → ℤ → Scp (Unit {0})
  replace_file p file_path size size_to_read = do
    modify (charge env connection.user (pos 0) (neg64 size))
    handle_upload_file p file_path size_to_read

  -- `handleUpload` once its paths are built. An error of `Stat` other than a missing file is
  -- answered with the text of another error, which is nil.
  unfoldable pub upload_to : Text → Text → ℤ → Scp (Unit {0})
  upload_to p file_path size_to_read = get (λ s. os.stat p s.world) >>= λ r. elim r [
    | err e ↦ if is_not_exist e then handle_upload_file p file_path size_to_read else stop panicked
    | ok stat ↦
        if stat.is_dir
        then refuse (bytes "Attempted to open a directory for writing: " ++ p)
        else if is_atomic upload_mode
        then call (os.rename p file_path) >>= (λ e. elim e [
          | some e ↦ refuse (error_text (os_error e))
          | none ↦ replace_file p file_path stat.size size_to_read
        ])
        else replace_file p file_path stat.size size_to_read
  ]

  abbrev pub temp_path : Text → Scp Text
  temp_path p =
      if is_atomic upload_mode
      then call (get_upload_temp_file_path env connection clock p)
      else return p

  -- `handleUpload`
  unfoldable pub handle_upload : Text → ℤ → Scp (Unit {0})
  handle_upload upload_file_path size_to_read =
      active >> elim (has_perm connection.user perm_upload) [
        | false ↦ refuse permission_denied
        | true ↦ built upload_file_path >>= λ r. elim r [
          | err e ↦ refuse (error_text e)
          | ok p ↦ temp_path p >>= λ file_path. upload_to p file_path size_to_read
        ]
      ]

  abbrev is_directory : Result OsError FileInfo → Bool
  is_directory (err e) = false
  is_directory (ok stat) = stat.is_dir

  -- `getFileUploadDestPath`
  unfoldable pub get_file_upload_dest_path : Text → Text → World env → Text
  get_file_upload_dest_path scp_dest_path file_name w =
      if not (is_recursive cmd.args) && not (ends_with_slash scp_dest_path)
      then elim (build_path env connection.user scp_dest_path w) [
        | err _ ↦ scp_dest_path
        | ok p ↦
            if is_directory (os.stat p w) then os.join scp_dest_path file_name else scp_dest_path
      ]
      else os.join scp_dest_path file_name

  -- What one message of `handleRecursiveUpload` leaves of the depth and the path.
  unfoldable pub upload_message : Text → ℤ → Text → Scp (ℤ × Text)
  upload_message command num_dirs dest_path = elim (has_prefix command (bytes "E")) [
    | true ↦
        let depth = add64 num_dirs (negsuc 0) in
        if eqb_ℤ depth (pos 0)
        then send_confirmation_message >> return (depth, dest_path)
        else return (depth, os.join dest_path (bytes ".."))
    | false ↦ elim (parse_upload_message cmd command) [
      | err text ↦ refuse text
      | ok (size, name) ↦
          if has_prefix command (bytes "D")
          then handle_create_dir (os.join dest_path name)
            >> return (add64 num_dirs (pos 1), os.join dest_path name)
          else get (λ s. get_file_upload_dest_path dest_path name s.world)
            >>= (λ target. handle_upload target size >> return (num_dirs, dest_path))
    ]
  ]

  -- The loop of `handleRecursiveUpload`.
  unfoldable pub upload_loop : ℕ → ℤ → Text → Scp (Unit {0})
  upload_loop zero num_dirs dest_path = stop exhausted
  upload_loop (suc f) num_dirs dest_path = do
    send_confirmation_message
    command ← get_next_upload_protocol_message fuel fuel
    (depth, path) ← upload_message command num_dirs dest_path
    elim (eqb_ℤ depth (pos 0)) [ true ↦ return tt | false ↦ upload_loop f depth path ]

  -- `handleRecursiveUpload`
  unfoldable pub handle_recursive_upload : Scp (Unit {0})
  handle_recursive_upload = elim (get_dest_path cmd.args) [
    | none ↦ stop panicked
    | some dest_path ↦ upload_loop fuel (pos 0) dest_path
  ]
