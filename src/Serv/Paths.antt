-- ===== src/Serv/Paths.antt =====
-- serv/filehandler.go: how a request's path becomes a path of the file system, and the test that it
-- stays inside the user's home directory.
pub mod Contained
pub mod Ends
use sshserv.Prelude.{
  ℕ, zero, suc, ◌-◌, Bool, true, false, Option, none, some, List, [], ◌∷◌, ◌++◌, Result, ok, err,
  ◌>>=◌, ◌>>◌, guard, if◌then◌else◌, length,
}
use mathlib.Core.List.{reverse}
use sshserv.Prelude.Text.{Text, has_prefix}
use sshserv.Dataprovider.User.{User}
use sshserv.Serv.Os.{OsError, not_exist, is_not_exist, FileInfo, Os}
use sshserv.Serv.Env.{Env, World, set_path_permissions}

-- An error of the system, or one of `isSubDir` and `findFirstExistingDir`.
pub data PathError : Type 0 where
  os_error : OsError → PathError
  outside_home not_a_dir : PathError
  -- the search for an existing directory has run out of fuel
  endless : PathError

module _ {A : Type 0} where
  abbrev pub lift : Result OsError A → Result PathError A
  lift (ok a) = ok a
  lift (err e) = err (os_error e)

  -- Whether `os.IsNotExist` holds of the error of a call.
  abbrev pub is_missing : Result OsError A → Bool
  is_missing (ok a) = false
  is_missing (err e) = is_not_exist e

-- The last element, or a default.
abbrev pub last_or : Text → List Text → Text
last_or d [] = d
last_or d (x ∷ xs) = last_or x xs

module _ (env : Env) (user : User) where
  open env use {os}

  -- `isSubDir`
  unfoldable pub is_sub_dir : Text → World env → Result PathError (Unit {0})
  is_sub_dir sub w = do
    parent ← lift (os.eval_symlinks user.home_dir w)
    guard (has_prefix sub parent) outside_home

  -- The loop of `findNonexistentDirs` from `parent` on: the missing directories, and the first one
  -- that is there.
  unfoldable pub missing_above :
      ℕ → Text → List Text → World env → Result PathError (List Text × Text)
  missing_above zero parent results w = err endless
  missing_above (suc fuel) parent results w =
      let next = missing_above fuel (os.dir parent) (results ++ parent ∷ []) w in
      elim (os.stat parent w) [
        | ok _ ↦ ok (results, parent)
        | err e ↦ if is_not_exist e then next else err (os_error e)
      ]

  -- `findNonexistentDirs`; its callers drop the list beside an error.
  unfoldable pub find_nonexistent_dirs : Text → World env → Result PathError (List Text)
  find_nonexistent_dirs path w = do
    let parent = os.dir (os.clean path)
    (results, top) ← missing_above (suc (length parent)) parent [] w
    p ← lift (os.eval_symlinks top w)
    is_sub_dir p w
    ok results

  -- The directory that `findFirstExistingDir` resolves.
  abbrev pub above_missing : List Text → Text
  above_missing [] = os.clean user.home_dir
  above_missing (d ∷ ds) = os.dir (last_or d ds)

  -- `findFirstExistingDir`
  unfoldable pub find_first_existing_dir : Text → World env → Result PathError Text
  find_first_existing_dir path w = do
    results ← find_nonexistent_dirs path w
    p ← lift (os.eval_symlinks (above_missing results) w)
    info ← lift (os.stat p w)
    guard info.is_dir not_a_dir
    is_sub_dir p w
    ok p

  -- `buildPath`; its callers drop the path beside an error.
  unfoldable pub build_path : Text → World env → Result PathError Text
  build_path raw_path w =
      let r = os.clean (os.join user.home_dir raw_path) in
      elim (os.eval_symlinks r w) [
        | ok p ↦ is_sub_dir p w >>= (λ _. ok r)
        | err e ↦
            if is_not_exist e then find_first_existing_dir r w >>= (λ _. ok r) else err (os_error e)
      ]

  -- The loop of `createMissingDirs`.
  unfoldable pub make_dirs : List Text → World env → Option PathError × World env
  make_dirs [] w = (none, w)
  make_dirs (d ∷ ds) w =
      let w' = (os.mkdir d w).1 in
      let rest = make_dirs ds (set_path_permissions env d user w') in
      elim (os.mkdir d w).0 [ some e ↦ (some (os_error e), w') | none ↦ rest ]

  -- `createMissingDirs`
  unfoldable pub create_missing_dirs : Text → World env → Option PathError × World env
  create_missing_dirs file_path w = elim (find_nonexistent_dirs file_path w) [
    | err e ↦ (some e, w)
    | ok dirs_to_create ↦ make_dirs (reverse dirs_to_create) w
  ]
