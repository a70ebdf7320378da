-- ===== src/Serv/Sftp/Commands/Removal.antt =====
-- The quota that removals give back.
use sshserv.Prelude.{
  ℕ, suc, ap, ◌≡◌, ◌+◌, ◌<◌, ◌^◌, ◌∙◌, inl, inr, refl, Bool, true, false, Option, List, [], ◌∷◌,
  ◌++◌, ok, Bool-cases, Option-cases, if◌then◌else◌, length, All, arith,
}
use mathlib.Core.List.{append_assoc, append-nil}
use sshserv.Prelude.Int.{ℤ, pos, pos_part, neg_part, neg64, add64, wrap64, neg, ◌+ℤ◌}
use sshserv.Prelude.Text.{Text}
use sshserv.Dataprovider.User.{has_perm, perm_delete}
use sshserv.Dataprovider.Facade.{update_user_quota}
use sshserv.Serv.Registry.{Connection}
use sshserv.Serv.Os.{OsError, FileInfo}
use sshserv.Serv.Env.{Env, Server, World, scan_entries, scan_dir_contents}
use sshserv.Serv.Sftp.Types.{ok_status}
use sshserv.Serv.Sftp.Commands.{Answer, status, Outcome, act_on_each, handle_rmdir, handle_remove}

abbrev pub is_ok : Answer → Bool
is_ok (status ok_status) = true
is_ok _ = false

-- The paths of the regular files among the entries, and the sum of their sizes.
abbrev pub regular_paths : List (Text × FileInfo) → List Text
regular_paths [] = []
regular_paths ((path, info) ∷ rest) =
    let later = regular_paths rest in if info.is_regular then path ∷ later else later

abbrev pub total_size : List (Text × FileInfo) → ℕ
total_size [] = 0
total_size ((path, info) ∷ rest) =
    (if info.is_regular then pos_part info.size else 0) + total_size rest

abbrev pub HasSize : Text × FileInfo → Type 0
HasSize (path, info) = neg_part info.size ≡ 0

-- How much a set of entries counts, from some files and bytes on, within 63 bits.
abbrev pub Fits : ℕ → ℕ → List (Text × FileInfo) → Type 0
Fits n z entries =
    All HasSize entries
    × (n + length (regular_paths entries) < 2 ^ 63)
    × (z + total_size entries < 2 ^ 63)

add64-pos : (a b : ℕ) → a + b < 2 ^ 63 → add64 (pos a) (pos b) ≡ pos (a + b)
unfolding add64 ◌+ℤ◌ wrap64
add64-pos a b h = ground arith

same_counts :
    (a a' b b' : ℕ) (files : List Text)
    → a ≡ a'
    → b ≡ b'
    → ◌≡◌ {A = ℤ × ℤ × List Text} (pos a, pos b, files) (pos a', pos b', files)
same_counts a a' b b' files h k = rw (h, k) refl

module _ (env : Env) where
  open env use {os}

  scan_entries_lem :
      (n z : ℕ) (files : List Text) (entries : List (Text × FileInfo))
      → Fits n z entries
      → scan_entries env (pos n) (pos z) files entries ≡ (
        pos (n + length (regular_paths entries)),
        pos (z + total_size entries),
        files ++ regular_paths entries,
      )
  scan_entries_lem n z files [] h = rw (append-nil files) (ground arith)
  scan_entries_lem n z files ((path, info) ∷ rest) ((e, es), hn, hz) =
      elim (Bool-cases info.is_regular) [
        | inl y ↦
            let hn' : n + suc (length (regular_paths rest)) < 2 ^ 63 = rw (y) at hn in
            let hz' : z + (pos_part info.size + total_size rest) < 2 ^ 63 = rw (y) at hz in
            let sized : info.size ≡ pos (pos_part info.size) = ground arith in
            let bytes : add64 (pos z) info.size ≡ pos (z + pos_part info.size) =
              ap (add64 (pos z)) sized ∙ add64-pos z (pos_part info.size) (omega (arith, hz')) in
            let next =
              scan_entries_lem (n + 1) (z + pos_part info.size) (files ++ path ∷ []) rest
                (es, omega (arith, hn'), omega (arith, hz')) in
            rw
              (
                y,
                add64-pos n 1 (omega (arith, hn')),
                bytes,
                next,
                append_assoc files (path ∷ []) (regular_paths rest),
              )
              (same_counts _ _ _ _ _ (omega arith) (omega arith))
        | inr y ↦
            let hn' : n + length (regular_paths rest) < 2 ^ 63 = rw (y) at hn in
            let hz' : z + (0 + total_size rest) < 2 ^ 63 = rw (y) at hz in
            rw (y, scan_entries_lem n z files rest (es, hn', omega (arith, hz')))
              (same_counts _ _ _ _ _ refl (omega arith))
      ]

  -- `ScanDirContents` on a directory counts the regular files that the walk has visited, adds up
  -- their sizes and lists their paths.
  pub scan_dir_contents_lem :
      (path : Text) (info : FileInfo) (entries : List (Text × FileInfo)) (failed : Option OsError)
      (w : World env)
      → os.stat path w ≡ ok info
      → info.is_dir ≡ true
      → os.walk path w ≡ (entries, failed)
      → Fits 0 0 entries
      → scan_dir_contents env path w ≡ (
        pos (length (regular_paths entries)),
        pos (total_size entries),
        regular_paths entries,
        failed,
      )
  unfolding scan_dir_contents
  scan_dir_contents_lem path info entries failed w found dir walk fits =
      rw (scan_dir_contents, found, dir, walk)
        (ap (λ (r : ℤ × ℤ × List Text). (r.0, r.1, r.2, failed))
          (scan_entries_lem 0 0 [] entries fits
            ∙ same_counts _ _ _ _ _ (omega arith) (omega arith)))

module _ (env : Env) (c : Connection) where
  open env use {os, config, provider}

  act_on_each-store : (ps : List Text) (s : Server env) → (act_on_each env c ps s).store ≡ s.store
  act_on_each-store [] s = refl
  act_on_each-store (p ∷ ps) s = act_on_each-store ps _

  -- The store after the quota of the user has been changed.
  abbrev pub charged : ℤ → ℤ → Server env → env.Store
  charged files size s = (update_user_quota config provider c.user files size false s.store).1

  -- A successful command has given back some files and bytes; any other one has left the quota.
  abbrev pub GivesBack : ℤ → ℤ → Server env → Outcome env c → Type 0
  GivesBack files size s (a, s') =
      s'.store ≡ (if is_ok a then charged (neg64 files) (neg64 size) s else s.store)

  -- A removal of a directory gives back one file for each regular file that the walk has visited, and
  -- the sum of their sizes, as long as these are not negative and both counts are below 2^63; when it
  -- is refused or fails, the quota is as before.
  pub handle_rmdir-GivesBack :
      (path : Text) (info : FileInfo) (entries : List (Text × FileInfo)) (failed : Option OsError)
      (s : Server env)
      → os.stat path s.world ≡ ok info
      → info.is_dir ≡ true
      → os.walk path s.world ≡ (entries, failed)
      → Fits 0 0 entries
      → GivesBack
          (pos (length (regular_paths entries)))
          (pos (total_size entries))
          s
          (handle_rmdir env c path s)
  unfolding handle_rmdir
  handle_rmdir-GivesBack path info entries failed s found dir walk fits =
      let scanned =
        scan_dir_contents_lem env path info entries failed s.world found dir walk fits in
      elim (Bool-cases (has_perm c.user perm_delete)) [
        | inr n ↦ rw (handle_rmdir, n) refl
        | inl y ↦ elim (Option-cases failed) [
          | inr (e, f) ↦ rw (handle_rmdir, y, scanned, f) refl
          | inl f ↦ elim (Option-cases (os.remove_all path s.world).0) [
            | inr (e, r) ↦ rw (handle_rmdir, y, scanned, f, r) refl
            | inl r ↦
                rw (handle_rmdir, y, scanned, f, r, scanned)
                  (act_on_each-store (regular_paths entries) _)
          ]
        ]
      ]

  -- A removal of a file gives back one file and its size; that of a symlink gives back nothing; when
  -- it is refused or fails, the quota is as before.
  pub handle_remove-GivesBack :
      (path : Text) (fi : FileInfo) (s : Server env)
      → os.lstat path s.world ≡ ok fi
      → (fi.is_symlink ≡ false → GivesBack (pos 1) fi.size s (handle_remove env c path s))
        × (fi.is_symlink ≡ true → (handle_remove env c path s).1.store ≡ s.store)
  unfolding handle_remove neg64 wrap64 neg
  handle_remove-GivesBack path fi s found = elim (Bool-cases (has_perm c.user perm_delete)) [
    | inr n ↦ rw (handle_remove, n) ((λ k. refl), (λ k. refl))
    | inl y ↦ elim (Option-cases (os.remove path s.world).0) [
      | inr (e, r) ↦ rw (handle_remove, y, found, r) ((λ k. refl), (λ k. refl))
      | inl r ↦ rw (handle_remove, y, found, r) ((λ k. rw (k) refl), (λ k. rw (k) refl))
    ]
  ]
