-- ===== src/Serv/Paths/Ends.antt =====
-- The search for an existing directory ends.
use sshserv.Prelude.{
  ℕ, zero, suc, ◌<◌, ◌≡◌, ◌≢◌, true, List, [], ◌∷◌, ◌++◌, Result, ok, err, guard, arith, Bool-cases,
  Result-cases, length, inl, inr, >>=-eq-err,
}
use sshserv.Prelude.Text.{Text}
use sshserv.Dataprovider.User.{User}
use sshserv.Dataprovider.Validate.{is_abs}
use sshserv.Serv.Os.{OsError, is_not_exist}
use sshserv.Serv.Env.{Env, World}
use sshserv.Serv.Paths.{
  endless, lift, is_missing, is_sub_dir, missing_above, find_nonexistent_dirs,
  find_first_existing_dir, build_path, above_missing, not_a_dir,
}

module _ (env : Env) (user : User) (w : World env) where
  open env use {os}

  -- An absolute directory that is missing is not the root: its parent is absolute and shorter.
  abbrev pub DirShrinks : Type 0
  DirShrinks =
      (d : Text)
      → is_abs d ≡ true
      → is_missing (os.stat d w) ≡ true
      → (is_abs (os.dir d) ≡ true) × (length (os.dir d) < length d)

  missing_above_ends :
      DirShrinks
      → (fuel : ℕ) (parent : Text) (acc : List Text) → is_abs parent ≡ true
      → length parent < fuel
      → missing_above env user fuel parent acc w ≢ err endless
  unfolding missing_above
  missing_above_ends shrinks zero parent acc abs enough h = absurd (omega (arith, enough))
  missing_above_ends shrinks (suc fuel) parent acc abs enough h =
      elim (Result-cases (os.stat parent w)) [
        | inl (e, failed) ↦ elim (Bool-cases (is_not_exist e)) [
          | inl y ↦
              let (abs', less) = shrinks parent abs (rw (failed) y) in
              missing_above_ends shrinks fuel (os.dir parent) (acc ++ parent ∷ []) abs'
                (omega (arith, less, enough)) (rw (missing_above, failed, y) at h)
          | inr n ↦ cc (rw (missing_above, failed, n) at h)
        ]
        | inr (info, found) ↦ cc (rw (missing_above, found) at h)
      ]

  lift-ne-endless : {A : Type 0} (r : Result OsError A) → lift r ≢ err endless
  lift-ne-endless (ok a) h = cc
  lift-ne-endless (err e) h = cc

  is_sub_dir-ne-endless : (p : Text) → is_sub_dir env user p w ≢ err endless
  unfolding is_sub_dir
  is_sub_dir-ne-endless p h = elim (>>=-eq-err (lift (os.eval_symlinks user.home_dir w)) _ h) [
    | inl e ↦ lift-ne-endless (os.eval_symlinks user.home_dir w) e
    | inr (parent, _, e) ↦ ground (arith, e)
  ]

  find_nonexistent_dirs_ends :
      DirShrinks
      → (path : Text) → is_abs (os.dir (os.clean path)) ≡ true
      → find_nonexistent_dirs env user path w ≢ err endless
  unfolding find_nonexistent_dirs
  find_nonexistent_dirs_ends shrinks path abs h =
      let parent = os.dir (os.clean path) in
      elim (>>=-eq-err (missing_above env user (suc (length parent)) parent [] w) _ h) [
        | inl e ↦ missing_above_ends shrinks (suc (length parent)) parent [] abs (omega arith) e
        | inr (found, _, rest) ↦ elim (>>=-eq-err (lift (os.eval_symlinks found.1 w)) _ rest) [
          | inl e ↦ lift-ne-endless (os.eval_symlinks found.1 w) e
          | inr (p, _, inside) ↦ elim (>>=-eq-err (is_sub_dir env user p w) _ inside) [
            | inl e ↦ is_sub_dir-ne-endless p e
            | inr (_, _, e) ↦ cc
          ]
        ]
      ]

  find_first_existing_dir_ends :
      DirShrinks
      → (path : Text) → is_abs (os.dir (os.clean path)) ≡ true
      → find_first_existing_dir env user path w ≢ err endless
  unfolding find_first_existing_dir
  find_first_existing_dir_ends shrinks path abs h =
      elim (>>=-eq-err (find_nonexistent_dirs env user path w) _ h) [
        | inl e ↦ find_nonexistent_dirs_ends shrinks path abs e
        | inr (results, _, rest) ↦
            elim (>>=-eq-err (lift (os.eval_symlinks (above_missing env user results) w)) _ rest) [
              | inl e ↦ lift-ne-endless (os.eval_symlinks (above_missing env user results) w) e
              | inr (p, _, more) ↦ elim (>>=-eq-err (lift (os.stat p w)) _ more) [
                | inl e ↦ lift-ne-endless (os.stat p w) e
                | inr (info, _, last) ↦ elim (>>=-eq-err (guard info.is_dir not_a_dir) _ last) [
                  | inl e ↦ ground (arith, e)
                  | inr (_, _, e) ↦ elim (>>=-eq-err (is_sub_dir env user p w) _ e) [
                    | inl f ↦ is_sub_dir-ne-endless p f
                    | inr (_, _, f) ↦ cc
                  ]
                ]
              ]
            ]
      ]

  -- The climb from a path that does not exist to the first directory that does ends: the fuel, one
  -- more than the length of the path's directory, is enough. `filepath.Dir` is taken to give, for an
  -- absolute directory that is missing, a shorter absolute one.
  pub build_path_ends :
      DirShrinks
      → (raw_path : Text)
      → is_abs (os.dir (os.clean (os.clean (os.join user.home_dir raw_path)))) ≡ true
      → build_path env user raw_path w ≢ err endless
  unfolding build_path
  build_path_ends shrinks raw_path abs h =
      let r = os.clean (os.join user.home_dir raw_path) in
      elim (Result-cases (os.eval_symlinks r w)) [
        | inl (e, failed) ↦ elim (Bool-cases (is_not_exist e)) [
          | inl y ↦
              elim (>>=-eq-err (find_first_existing_dir env user r w) _
                (rw (build_path, failed, y) at h)) [
                  | inl f ↦ find_first_existing_dir_ends shrinks r abs f
                  | inr (_, _, f) ↦ cc
                ]
          | inr n ↦ cc (rw (build_path, failed, n) at h)
        ]
        | inr (p, found) ↦
            elim (>>=-eq-err (is_sub_dir env user p w) _ (rw (build_path, found) at h)) [
              | inl f ↦ is_sub_dir-ne-endless p f
              | inr (_, _, f) ↦ cc
            ]
      ]
