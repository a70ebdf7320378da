-- ===== src/Serv/Paths/Contained.antt =====
-- What `buildPath` has tested of a path that it returns.
use mathlib.Core.Path.{subst}
use sshserv.Prelude.{
  ℕ, zero, suc, ◌≡◌, inl, inr, sym, ap, ◌∙◌, true, List, [], ◌∷◌, ◌++◌, Result, ok, err, arith,
  Bool-cases, Result-cases, >>=-eq-ok, >>-eq-ok, ok-injective, length,
}
use sshserv.Prelude.Text.{Text, has_prefix, has_prefix-append}
use sshserv.Dataprovider.User.{User}
use sshserv.Serv.Os.{OsError, is_not_exist, FileInfo}
use sshserv.Serv.Env.{Env, World}
use sshserv.Serv.Paths.{
  lift, is_missing, is_sub_dir, missing_above, find_nonexistent_dirs, find_first_existing_dir,
  build_path,
}

lift-eq-ok : {A : Type 0} (r : Result OsError A) {a : A} → lift r ≡ ok a → r ≡ ok a
lift-eq-ok (ok b) h = ap ok (ok-injective h)
lift-eq-ok (err e) h = cc

module _ (env : Env) (user : User) (w : World env) where
  open env use {os}

  -- A resolved path begins with the resolved home directory.
  abbrev pub IsInside : Text → Type 0
  IsInside p =
      (parent : Text) × (os.eval_symlinks user.home_dir w ≡ ok parent)
      × (has_prefix p parent ≡ true)

  -- `top` is the first of a directory, its parent, the parent's parent and so on that is there.
  pub data FirstExisting : Text → Text → Type 0 where
    here : {d : Text} (info : FileInfo) → os.stat d w ≡ ok info → FirstExisting d d
    above :
        {d top : Text} (e : OsError)
        → os.stat d w ≡ err e
        → is_not_exist e ≡ true
        → FirstExisting (os.dir d) top
        → FirstExisting d top

  -- A path resolves to one inside the home directory; or it does not exist, and the first
  -- directory above it that exists resolves to one inside.
  pub data IsContained (r : Text) : Type 0 where
    resolved : (p : Text) → os.eval_symlinks r w ≡ ok p → IsInside p → IsContained r
    missing :
        (top p : Text)
        → is_missing (os.eval_symlinks r w) ≡ true
        → FirstExisting (os.dir (os.clean r)) top
        → os.eval_symlinks top w ≡ ok p
        → IsInside p
        → IsContained r

  is_sub_dir-IsInside : (p : Text) → is_sub_dir env user p w ≡ ok tt → IsInside p
  unfolding is_sub_dir
  is_sub_dir-IsInside p h =
      let (parent, found, tested) = >>=-eq-ok (lift (os.eval_symlinks user.home_dir w)) _ h in
      (parent, lift-eq-ok (os.eval_symlinks user.home_dir w) found, ground (arith, tested))

  missing_above-FirstExisting :
      (fuel : ℕ) (parent : Text) (acc results : List Text) (top : Text)
      → missing_above env user fuel parent acc w ≡ ok (results, top)
      → FirstExisting parent top
  unfolding missing_above
  missing_above-FirstExisting zero parent acc results top h = cc
  missing_above-FirstExisting (suc fuel) parent acc results top h =
      elim (Result-cases (os.stat parent w)) [
        | inl (e, failed) ↦ elim (Bool-cases (is_not_exist e)) [
          | inl y ↦ above e failed y (
              missing_above-FirstExisting fuel (os.dir parent) (acc ++ parent ∷ []) results top
                (rw (missing_above, failed, y) at h))
          | inr n ↦ cc (rw (missing_above, failed, n) at h)
        ]
        | inr (info, found) ↦
            let same = ok-injective (rw (missing_above, found) at h) in
            subst (FirstExisting parent) (ap (λ (q : List Text × Text). q.1) same) (here info found)
      ]

  find_nonexistent_dirs-FirstExisting :
      (path : Text) (results : List Text)
      → find_nonexistent_dirs env user path w ≡ ok results
      → (top : Text) × (p : Text) × FirstExisting (os.dir (os.clean path)) top
        × (os.eval_symlinks top w ≡ ok p)
        × IsInside p
  unfolding find_nonexistent_dirs
  find_nonexistent_dirs-FirstExisting path results h =
      let parent = os.dir (os.clean path) in
      let (found, first, rest) =
        >>=-eq-ok (missing_above env user (suc (length parent)) parent [] w) _ h in
      let (p, resolved', inside) = >>=-eq-ok (lift (os.eval_symlinks found.1 w)) _ rest in
      let (tested, _) = >>-eq-ok (is_sub_dir env user p w) _ inside in
      (
        found.1,
        p,
        missing_above-FirstExisting (suc (length parent)) parent [] found.0 found.1 first,
        lift-eq-ok (os.eval_symlinks found.1 w) resolved',
        is_sub_dir-IsInside p tested,
      )

  -- A path that a request may use is the cleaned join of the home directory and the path asked for.
  -- It resolves to a path that begins with the resolved home directory; or it does not exist, and
  -- the first directory above it that exists resolves to such a path.
  pub build_path-IsContained :
      (raw_path r : Text)
      → build_path env user raw_path w ≡ ok r
      → (r ≡ os.clean (os.join user.home_dir raw_path)) × IsContained r
  unfolding build_path find_first_existing_dir
  build_path-IsContained raw_path r h =
      let r' = os.clean (os.join user.home_dir raw_path) in
      elim (Result-cases (os.eval_symlinks r' w)) [
        | inl (e, failed) ↦ elim (Bool-cases (is_not_exist e)) [
          | inl y ↦
              let (p, first, same) =
                >>=-eq-ok (find_first_existing_dir env user r' w) _
                  (rw (build_path, failed, y) at h) in
              let (results, found, _) = >>=-eq-ok (find_nonexistent_dirs env user r' w) _ first in
              let (top, q, climb, resolved', inside) =
                find_nonexistent_dirs-FirstExisting r' results found in
              let gone = ap is_missing failed ∙ y in
              (
                sym (ok-injective same),
                subst IsContained (ok-injective same) (missing top q gone climb resolved' inside),
              )
          | inr n ↦ cc (rw (build_path, failed, n) at h)
        ]
        | inr (p, found) ↦
            let (_, tested, same) =
              >>=-eq-ok (is_sub_dir env user p w) _ (rw (build_path, found) at h) in
            (
              sym (ok-injective same),
              subst IsContained (ok-injective same)
                  (resolved p found (is_sub_dir-IsInside p tested)),
            )
      ]

  -- The test compares texts and not directories: a path that resolves to the resolved home directory
  -- followed by any text, a slash or not, is let through.
  pub build_path_sibling :
      (raw_path parent rest : Text)
      → os.eval_symlinks user.home_dir w ≡ ok parent
      → os.eval_symlinks (os.clean (os.join user.home_dir raw_path)) w ≡ ok (parent ++ rest)
      → build_path env user raw_path w ≡ ok (os.clean (os.join user.home_dir raw_path))
  unfolding build_path is_sub_dir
  build_path_sibling raw_path parent rest home found =
      rw (build_path, found) (rw (is_sub_dir, home) (ground (arith, has_prefix-append parent rest)))
