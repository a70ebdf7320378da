-- ===== src/Serv/Scp/Download.antt =====
-- The downloads of serv/scp.go: `sendDownloadProtocolMessages`, `getDirContents`,
-- `handleRecursiveDownload`, `sendDownloadFileData` and `handleDownload`; and `handle`, where a
-- command starts. A directory below another one takes one unit of fuel.
use sshserv.Prelude.{
  ℕ, zero, suc, ◌+◌, ◌/◌, Bool, true, false, ◌||◌, Option, none, some, List, [], ◌∷◌, ◌++◌, map,
  Result, ok, err, if◌then◌else◌, length,
}
use sshserv.Prelude.Int.{pos}
use sshserv.Prelude.Text.{Text, bytes, text_eq}
use sshserv.Prelude.Format.{format_int64}
use sshserv.Dataprovider.User.{has_perm, perm_download}
use sshserv.Serv.Registry.{transfer_download, add_connection, remove_connection}
use sshserv.Serv.Registry.Stats.{Paths, get_relative_path}
use sshserv.Serv.Transfer.{read_at}
use sshserv.Serv.Os.{OsError, is_not_exist, FileInfo, files_of}
use sshserv.Serv.Env.{Env, start_transfer}
use sshserv.Serv.Paths.{os_error}
use sshserv.Serv.Sftp.Open.{new_transfer}
use sshserv.Serv.Scp.Session.{
  Channel, failed, panicked, exhausted, Command, return, stop, ◌>>=◌, ◌>>◌, after, modify, get,
  call, with_server,
}
use sshserv.Serv.Scp.Protocol.{
  write, refuse, send_confirmation_message, send_protocol_message, read_confirmation_message,
  send_exit_status,
}
use sshserv.Serv.Scp.Messages.{
  get_dest_path, get_command_type, send_file_time, is_recursive, get_file_mode_as_string,
  print_args,
}
use sshserv.Serv.Scp.Upload.{
  Scp, permission_denied, tick, active, built, close_transfer, handle_recursive_upload,
}

-- `err == nil || err == io.EOF`, where the error goes by its text.
abbrev pub nil_or_eof : Option Text → Bool
nil_or_eof none = true
nil_or_eof (some e) = text_eq e (bytes "EOF")

-- The names of the files that a recursive download sends at once, and of the directories.
abbrev pub file_names : List FileInfo → List Text
file_names [] = []
file_names (file ∷ rest) =
    let later = file_names rest in
    if file.is_regular || file.is_symlink then file.name ∷ later else later

abbrev pub dir_names : List FileInfo → List Text
dir_names [] = []
dir_names (file ∷ rest) =
    let later = dir_names rest in
    if file.is_regular || file.is_symlink
    then later
    else if file.is_dir
    then file.name ∷ later
    else later

module _ (env : Env) (ch : Channel) (cmd : Command) (clock : ℕ → ℕ) (fuel : ℕ) where
  open env use {os}
  open cmd use {connection, error_text}

  abbrev pub Handler : Type 0
  Handler = Scp env ch cmd clock fuel (Unit {0})

  -- The time of a file, if it is asked for.
  unfoldable pub send_time : FileInfo → Handler
  send_time stat =
      let mod_time = format_int64 (pos (stat.mod_time / 1000000000)) in
      if send_file_time cmd.args
      then send_protocol_message
          (b'T' ∷ (mod_time ++ (bytes " 0 " ++ (mod_time ++ (bytes " 0" ++ (10 ∷ []))))))
        >> read_confirmation_message fuel
      else return tt

  -- `sendDownloadProtocolMessages`
  unfoldable pub send_download_protocol_messages : Text → FileInfo → Handler
  send_download_protocol_messages dir_path stat = do
    send_time stat
    send_protocol_message (
        b'D'
        ∷ (get_file_mode_as_string stat.mode stat.is_dir
            ++ (bytes " 0 " ++ (os.base dir_path ++ (10 ∷ [])))))
    read_confirmation_message fuel

  abbrev paths : Paths
  paths = record { clean = os.clean; rel = os.rel }

  -- `getDirContents`; its caller drops the files beside an error.
  unfoldable pub get_dir_contents :
      Text → Scp env ch cmd clock fuel (Result OsError (List FileInfo))
  get_dir_contents path = get (λ s. s.next) >>= λ a. call (os.open_read a path) >>= λ e. elim e [
    | some e ↦ return (err e)
    | none ↦ call (os.readdir a) >>= λ r.
        call (os.close a) >>= λ _. elim r.1 [ some e ↦ return (err e) | none ↦ return (ok r.0) ]
  ]

  -- A loop over paths; an error ends it, and its text is sent.
  abbrev send_each : (Text → Handler) → List Text → Handler
  send_each download [] = return tt
  send_each download (path ∷ paths) = after (download path) (λ r. elim r [
    | ok _ ↦ send_each download paths
    | err e ↦ elim e [
      | failed text ↦ refuse text
      | panicked ↦ stop panicked
      | exhausted ↦ stop exhausted
    ]
  ])

  -- `handleRecursiveDownload`, where a path is downloaded by `download`.
  unfoldable pub handle_recursive_download : (Text → Handler) → Text → FileInfo → Handler
  handle_recursive_download download dir_path stat =
      let path_of =
        λ (name : Text). get_relative_path paths connection.user (os.join dir_path name) in
      elim (is_recursive cmd.args) [
        | false ↦ refuse (bytes "Unable to send directory for non recursive copy")
        | true ↦
            send_download_protocol_messages dir_path stat
            >> (get_dir_contents dir_path >>= λ r. elim r [
              | err e ↦ refuse (error_text (os_error e))
              | ok files ↦ do
                send_each download (map path_of (file_names files))
                send_each download (map path_of (dir_names files))
                send_protocol_message (b'E' ∷ 10 ∷ [])
                read_confirmation_message fuel
            ])
      ]

  -- `ReadAt` on the transfer, and the bytes that it has read.
  unfoldable pub read_data : ℕ → ℕ → Scp env ch cmd clock fuel (Text × Option Text)
  read_data a offset s =
      let moved =
        read_at (files_of os) a 32768 (pos offset) (clock s.time) (clock (suc s.time))
          s.server.world s.server.registry in
      let server = record (s.server) { world = moved.world; registry = moved.registry } in
      (
        ok (os.data_at a (pos offset) moved.count moved.world, moved.error),
        record s { server = server; time = suc (suc s.time) },
      )

  -- The write of what was read, and the error that the turn is left with.
  unfoldable pub send_data : Text → Option Text → Scp env ch cmd clock fuel (Option Text)
  send_data [] e = return e
  send_data (c ∷ s) e = if nil_or_eof e then write (c ∷ s) else return e

  -- The loop of `sendDownloadFileData`, which ends at an error. The error is another variable than
  -- the one that is tested after the loop, so it is dropped.
  unfoldable pub send_loop : ℕ → ℕ → ℕ → Handler
  send_loop zero a offset = stop exhausted
  send_loop (suc f) a offset = read_data a offset >>= λ r. send_data r.0 r.1 >>= λ e. elim e [
    | some _ ↦ return tt
    | none ↦ send_loop f a (offset + length r.0)
  ]

  -- `sendDownloadFileData`
  unfoldable pub send_download_file_data : Text → FileInfo → ℕ → Handler
  send_download_file_data file_path stat a = do
    send_time stat
    send_protocol_message (
        b'C'
        ∷ (get_file_mode_as_string stat.mode stat.is_dir
            ++ (b' ' ∷ (format_int64 stat.size ++ (b' ' ∷ (os.base file_path ++ (10 ∷ [])))))))
    read_confirmation_message fuel
    send_loop fuel a 0
    send_confirmation_message
    read_confirmation_message fuel

  -- The end of `handleDownload`: the transfer is closed, and its error counts if there is no other.
  abbrev close_after : ℕ → Handler → Handler
  close_after a m = after m (λ r. close_transfer env ch cmd clock fuel a >>= λ closed. elim r [
    | err e ↦ stop e
    | ok _ ↦ elim closed [ some e ↦ stop (failed (error_text (os_error e))) | none ↦ return tt ]
  ])

  -- `handleDownload` on a file, from `Open` on.
  unfoldable pub send_file : Text → FileInfo → Handler
  send_file p stat = get (λ s. s.next) >>= λ a. call (os.open_read a p) >>= λ e. elim e [
    | some e ↦ refuse (error_text (os_error e))
    | none ↦ do
      start ← tick env ch cmd clock fuel
      last ← tick env ch cmd clock fuel
      modify (start_transfer env (new_transfer connection p transfer_download false start last))
      close_after a (send_download_file_data p stat a)
  ]

  -- `handleDownload` once its path is built. An error of `Stat` other than a missing file leaves a
  -- nil `stat`, which is used.
  unfoldable pub download_path : (Text → Handler) → Text → Handler
  download_path download p = get (λ s. os.stat p s.world) >>= λ r. elim r [
    | err e ↦ if is_not_exist e then refuse (error_text (os_error e)) else stop panicked
    | ok stat ↦ if stat.is_dir then handle_recursive_download download p stat else send_file p stat
  ]

  -- `handleDownload`
  unfoldable pub handle_download : ℕ → Text → Handler
  handle_download zero file_path = stop exhausted
  handle_download (suc f) file_path =
      active env ch cmd clock fuel >> elim (has_perm connection.user perm_download) [
        | false ↦ refuse permission_denied
        | true ↦ built env ch cmd clock fuel file_path >>= λ r. elim r [
          | err _ ↦ refuse (bytes "Invalid file path")
          | ok p ↦ download_path (handle_download f) p
        ]
      ]

  -- The types of commands of `handle`. A handler that fails is not followed by an exit status.
  unfoldable pub run_command : Text → Text → Handler
  run_command command_type dest_path =
      let unsupported = bytes "scp command not supported, args: " ++ print_args cmd.args in
      if text_eq command_type (bytes "-t") || text_eq command_type (bytes "-pt")
      then handle_recursive_upload env ch cmd clock fuel >> send_exit_status none
      else if text_eq command_type (bytes "-f") || text_eq command_type (bytes "-pf")
      then read_confirmation_message fuel
        >> (handle_download fuel dest_path >> send_exit_status none)
      else send_exit_status (some unsupported) >> stop (failed unsupported)

  abbrev parse_command : Handler
  parse_command = elim (get_dest_path cmd.args) [
    | none ↦ stop panicked
    | some dest_path ↦ elim (get_command_type cmd.args) [
      | none ↦ stop panicked
      | some command_type ↦ run_command command_type dest_path
    ]
  ]

  -- `handle`: the connection is known while it runs.
  unfoldable pub handle : Handler
  handle =
      modify (λ s. record s { registry = add_connection connection.id connection s.registry })
      >> after parse_command (λ r s. (
        r,
        with_server
            (record (s.server) { registry = remove_connection connection.id s.server.registry }) s,
      ))
