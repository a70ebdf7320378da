-- ===== src/Tests/Machine.antt =====
-- A small machine: a home directory with a file in it, a client's channel, and the server on them.
use mathlib.Core.List.{reverse}
use sshserv.Prelude.{
  ◌≤◌, ◌<◌, ◌≡◌, ◌==◌, true, false, Option, none, some, [], ◌∷◌, ◌++◌, Result, ok, err,
  if◌then◌else◌, length, arith,
}
use sshserv.Prelude.Int.{pos}
use sshserv.Prelude.Text.{Text, bytes, text_eq}
use sshserv.Dataprovider.User.{User}
use sshserv.Dataprovider.Facade.{Config}
use sshserv.Serv.Registry.{Connection, Transfer, transfer_upload}
use sshserv.Serv.Os.{OsError, not_exist, FileInfo, Os}
use sshserv.Serv.Env.{standard, Actions, Env, Server}
use sshserv.Serv.Transfer.Close.Accounts.{bolt_env}
use sshserv.Serv.Sftp.Types.{Request}
use sshserv.Serv.Scp.Session.{Channel, Command, Session}
use sshserv.Serv.Scp.Protocol.Reading.{Drains}
use sshserv.Tests.Buckets.{bolt}
use sshserv.Tests.Codec.{codec}
use sshserv.Tests.Data.{hashing, checking, bob, with_both}

abbrev past_slash : Text → Text
past_slash [] = []
past_slash (c ∷ s) = if c == b'/' then s else past_slash s

abbrev or_root : Text → Text
or_root [] = bytes "/"
or_root (c ∷ s) = c ∷ s

abbrev dir_of : Text → Text
dir_of s = or_root (reverse (past_slash (reverse s)))

abbrev pub file_info : FileInfo
file_info = record {
  name = bytes "f";
  size = pos 7;
  mode = 420;
  is_dir = false;
  is_regular = true;
  is_symlink = false;
  mod_time = 0;
}

abbrev pub dir_info : FileInfo
dir_info = record {
  name = bytes "d";
  size = pos 0;
  mode = 493;
  is_dir = true;
  is_regular = false;
  is_symlink = false;
  mod_time = 0;
}

-- One path is missing, one is a file, every other one is a directory.
abbrev info_of : Text → Result OsError FileInfo
info_of p =
    if text_eq p (bytes "/b/new")
    then err not_exist
    else if text_eq p (bytes "/b/f")
    then ok file_info
    else ok dir_info

-- One path is a link out of the home directory, to one whose name goes on where that one's ends.
abbrev resolve : Text → Result OsError Text
resolve p =
    if text_eq p (bytes "/b/new")
    then err not_exist
    else if text_eq p (bytes "/b/link")
    then ok (bytes "/bc")
    else ok p

abbrev pub machine : Os
machine = record {
  World = Unit;
  clean = λ p. p;
  dir = dir_of;
  base = λ p. p;
  join = λ a b. a ++ (b'/' ∷ b);
  rel = λ a b. some b;
  eval_symlinks = λ p w. resolve p;
  walk = λ p w. ((p, dir_info) ∷ (bytes "/b/d/f", file_info) ∷ [], none);
  stat = λ p w. info_of p;
  lstat = λ p w. info_of p;
  read_dir = λ p w. ok (file_info ∷ []);
  mkdir = λ p w. (none, w);
  mkdir_all = λ p w. (none, w);
  create = λ a p w. (none, w);
  open_read = λ a p w. (none, w);
  open_file = λ a p n w. (none, w);
  rename = λ p q w. (none, w);
  symlink = λ p q w. (none, w);
  remove = λ p w. (none, w);
  remove_all = λ p w. (none, w);
  chmod = λ p m w. (none, w);
  chown = λ p u g w. (none, w);
  chtimes = λ p a m w. (none, w);
  read_at = λ a n off w. ((0, some (bytes "EOF")), w);
  write_at = λ a t off w. ((length t, none), w);
  close = λ a w. (none, w);
  readdir = λ a w. ((file_info ∷ [], none), w);
  data_at = λ a off n w. [];
  file_name = λ a w. bytes "/b/f";
  start_command = λ args w. (none, w);
  url_parse = λ t. none;
  notify = λ t q w. w;
  new_guid = λ w. (bytes "g", w);
}

-- Quotas are tracked for every user.
abbrev pub tracking : Config
tracking = record { manage_users = pos 1; track_quota = pos 1; default_user_expire = pos 0 }

abbrev pub no_actions : Actions
no_actions = record { execute_on = []; command = []; http_notification_url = [] }

abbrev pub server_env : Env
server_env = bolt_env bolt codec hashing checking (pos 9) tracking machine standard no_actions

abbrev pub client_of : User → Connection
client_of user = record {
  id = bytes "c1";
  user = user;
  client_version = bytes "v";
  remote_addr = bytes "r";
  start_time = 5;
  last_activity = 20;
  protocol = bytes "SFTP";
  ssh_conn = 3;
}

-- An upload of a new file of seven bytes.
abbrev pub uploaded : Transfer
uploaded = record {
  path = bytes "/b/f";
  start = 10;
  bytes_sent = pos 0;
  bytes_received = pos 7;
  user = bob;
  connection_id = bytes "c1";
  transfer_type = transfer_upload;
  last_activity = 50;
  is_new_file = true;
  protocol = bytes "SFTP";
}

abbrev pub running : Server server_env
running = record {
  registry = record {
    open_connections = (bytes "c1", client_of bob) ∷ [];
    active_transfers = 1 ∷ [];
    transfers = λ a. uploaded;
    idle_timeout = 30;
    active_quota_scans = [];
    closed = [];
  };
  world = tt;
  store = with_both;
  next = 5;
}

abbrev pub request_for : Text → Text → Request
request_for method path = record {
  method = method;
  filepath = path;
  target = [];
  pflags = record {
    read = false;
    write = true;
    append = false;
    creat = true;
    trunc = true;
    excl = false;
  };
  has_permissions = false;
  has_uid_gid = false;
  has_acmodtime = false;
  file_mode = 0;
  uid = pos 0;
  gid = pos 0;
  atime = 0;
  mtime = 0;
}

-- A channel that gives its text byte by byte.
abbrev next_byte : Text → (Text × Option Text) × Text
next_byte [] = (([], some (bytes "EOF")), [])
next_byte (c ∷ s) = ((c ∷ [], none), s)

abbrev pub script : Channel
script = record {
  State = Text;
  read = λ n s. next_byte s;
  write = λ t s. (none, s);
  close = λ s. s;
  send_exit = λ n s. s;
}

pub next_byte-Drains :
    (s : Text)
    → ((next_byte s).0.1 ≡ none → length (next_byte s).1 < length s)
      × (length (next_byte s).1 ≤ length s)
next_byte-Drains [] = ((λ e. cc), omega arith)
next_byte-Drains (c ∷ s) = ((λ e. omega arith), omega arith)

abbrev pub script-Drains : Drains script
script-Drains = record {
  left = length;
  by_read = λ n s. next_byte-Drains s;
  by_write = λ t s. omega arith;
  by_close = λ s. omega arith;
}

abbrev pub upload_command : User → Command
upload_command user = record {
  connection = client_of user;
  args = bytes "-t" ∷ bytes "/x" ∷ [];
  error_text = λ e. [];
  parse_error_text = λ t. [];
}

-- A client that sends one file.
abbrev pub copying : Session server_env script
copying = record {
  server = running;
  channel = bytes "C0644 2 f" ++ (10 ∷ bytes "hi" ++ (0 ∷ []));
  time = 0;
}
