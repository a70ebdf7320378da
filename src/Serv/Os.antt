-- ===== src/Serv/Os.antt =====
-- What serv/ uses of the operating system and of Go's packages os, path/filepath, os/exec and
-- net/url, as operations on a world. An open file goes by the address of its transfer.
use sshserv.Prelude.{ℕ, Bool, true, false, Option, List, Result}
use sshserv.Prelude.Int.{ℤ}
use sshserv.Prelude.Text.{Text}
use sshserv.Serv.Transfer.{Files}

-- An error, by what `os.IsNotExist` says of it.
pub data OsError : Type 0 where
  not_exist other_error : OsError

abbrev pub is_not_exist : OsError → Bool
is_not_exist not_exist = true
is_not_exist other_error = false

-- `os.FileInfo`: its methods, and what the code asks of its mode. The time is in nanoseconds since
-- the epoch.
pub record FileInfo : Type 0 where
  pub name : Text
  pub size : ℤ
  pub mode : ℕ
  pub is_dir : Bool
  pub is_regular : Bool
  pub is_symlink : Bool
  pub mod_time : ℕ

pub record Os : Type 1 where
  pub World : Type 0
  -- path/filepath
  pub clean : Text → Text
  pub dir : Text → Text
  pub base : Text → Text
  pub join : Text → Text → Text
  -- `filepath.Rel`, where `none` is an error
  pub rel : Text → Text → Option Text
  pub eval_symlinks : Text → World → Result OsError Text
  -- what `filepath.Walk` visits, up to its first error
  pub walk : Text → World → List (Text × FileInfo) × Option OsError
  -- os
  pub stat : Text → World → Result OsError FileInfo
  pub lstat : Text → World → Result OsError FileInfo
  pub read_dir : Text → World → Result OsError (List FileInfo)
  pub mkdir : Text → World → Option OsError × World
  pub mkdir_all : Text → World → Option OsError × World
  pub create : ℕ → Text → World → Option OsError × World
  pub open_read : ℕ → Text → World → Option OsError × World
  pub open_file : ℕ → Text → ℕ → World → Option OsError × World
  pub rename : Text → Text → World → Option OsError × World
  pub symlink : Text → Text → World → Option OsError × World
  pub remove : Text → World → Option OsError × World
  pub remove_all : Text → World → Option OsError × World
  pub chmod : Text → ℕ → World → Option OsError × World
  pub chown : Text → ℤ → ℤ → World → Option OsError × World
  pub chtimes : Text → ℕ → ℕ → World → Option OsError × World
  -- the methods of an open file
  pub read_at : ℕ → ℕ → ℤ → World → (ℕ × Option Text) × World
  pub write_at : ℕ → Text → ℤ → World → (ℕ × Option Text) × World
  pub close : ℕ → World → Option OsError × World
  -- `Readdir(-1)`, and the bytes that a read from an offset has put into its buffer
  pub readdir : ℕ → World → (List FileInfo × Option OsError) × World
  pub data_at : ℕ → ℤ → ℕ → World → Text
  pub file_name : ℕ → World → Text
  -- os/exec, net/url, net/http in a goroutine, and xid
  pub start_command : List Text → World → Option OsError × World
  pub url_parse : Text → Option OsError
  pub notify : Text → List (Text × Text) → World → World
  pub new_guid : World → Text × World

-- The open files, as the transfers see them.
abbrev pub files_of : Os → Files
files_of os = record { World = os.World; read_at = os.read_at; write_at = os.write_at }
