-- ===== src/Serv/Sftp/Types.antt =====
-- What the handlers see of a request of pkg/sftp, and what they answer.
use sshserv.Prelude.{ℕ, Bool, if◌then◌else◌, ◌&&◌}
use sshserv.Prelude.Int.{ℤ}
use sshserv.Prelude.Text.{Text}
use Prim.Native.Nat.{bit_or}

-- The errors `sftp.ErrSshFx…` that the handlers use, and a panic of the handler.
pub data Status : Type 0 where
  permission_denied no_such_file failure op_unsupported ok_status : Status
  panic : Status

-- `sftp.FileOpenFlags`
pub record FileOpenFlags : Type 0 where
  pub read : Bool
  pub write : Bool
  pub append : Bool
  pub creat : Bool
  pub trunc : Bool
  pub excl : Bool

-- `sftp.Request`, with its flags and attributes decoded.
pub record Request : Type 0 where
  pub method : Text
  pub filepath : Text
  pub target : Text
  pub pflags : FileOpenFlags
  pub has_permissions : Bool
  pub has_uid_gid : Bool
  pub has_acmodtime : Bool
  pub file_mode : ℕ
  pub uid : ℤ
  pub gid : ℤ
  pub atime : ℕ
  pub mtime : ℕ

-- The flags of package os on linux.
abbrev pub o_wronly : ℕ
o_wronly = 1

abbrev pub o_rdwr : ℕ
o_rdwr = 2

abbrev pub o_create : ℕ
o_create = 64

abbrev pub o_excl : ℕ
o_excl = 128

abbrev pub o_trunc : ℕ
o_trunc = 512

abbrev pub o_append : ℕ
o_append = 1024

abbrev add_flag : Bool → ℕ → ℕ → ℕ
add_flag b flag flags = if b then bit_or flags flag else flags

-- `getOSOpenFlags`
unfoldable pub get_os_open_flags : FileOpenFlags → ℕ
get_os_open_flags f =
    let mode =
      if f.read && f.write then bit_or 0 o_rdwr else if f.write then bit_or 0 o_wronly else 0 in
    add_flag f.excl o_excl
      (add_flag f.trunc o_trunc (add_flag f.creat o_create (add_flag f.append o_append mode)))
