-- ===== src/Serv/Sftp/Commands/Permitted.antt =====
-- What the commands and listings of a connection do without their permission.
use sshserv.Prelude.{
  ℕ, ◌≡◌, ◌⊎◌, ◌∷◌, [], inl, inr, refl, true, false, List, Result, ok, err, Bool-cases,
  Result-cases,
}
use sshserv.Prelude.Text.{Text, bytes, text_eq, text_eq_iff}
use sshserv.Dataprovider.User.{
  has_perm, perm_rename, perm_delete, perm_create_dirs, perm_create_symlinks, perm_list_items,
}
use sshserv.Serv.Registry.{Connection}
use sshserv.Serv.Os.{FileInfo, is_not_exist}
use sshserv.Serv.Env.{Env, Server, World, note_activity}
use sshserv.Serv.Paths.{build_path}
use sshserv.Serv.Sftp.Types.{Status, permission_denied, no_such_file, op_unsupported, Request}
use sshserv.Serv.Sftp.Commands.{
  Answer, status, Outcome, handle_rename, handle_rmdir, handle_symlink, handle_mkdir, handle_remove,
  get_sftp_cmd_target_path, run_method, filecmd,
}
use sshserv.Serv.Sftp.Listing.{list_method, filelist}

text_eq-cases : (a b : Text) → ((a ≡ b) × (text_eq a b ≡ true)) ⊎ (text_eq a b ≡ false)
text_eq-cases a b = elim (Bool-cases (text_eq a b)) [
  | inl y ↦ inl ((text_eq_iff a b).0 y, y)
  | inr n ↦ inr n
]

-- The permission that a method of `Filecmd` needs.
pub data Needs (method perm : Text) : Type 0 where
  to_rename : method ≡ bytes "Rename" → perm ≡ perm_rename → Needs method perm
  to_rmdir : method ≡ bytes "Rmdir" → perm ≡ perm_delete → Needs method perm
  to_mkdir : method ≡ bytes "Mkdir" → perm ≡ perm_create_dirs → Needs method perm
  to_symlink : method ≡ bytes "Symlink" → perm ≡ perm_create_symlinks → Needs method perm
  to_remove : method ≡ bytes "Remove" → perm ≡ perm_delete → Needs method perm

-- The refusals: no permission, a path outside, a target outside.
pub data IsRefusal : Answer → Type 0 where
  denied : IsRefusal (status permission_denied)
  outside : IsRefusal (status no_such_file)
  target_outside : IsRefusal (status op_unsupported)

module _ (env : Env) (c : Connection) where
  -- A refusal that leaves a state.
  abbrev pub RefusedIn : Server env → Outcome env c → Type 0
  RefusedIn s (a, s') = IsRefusal a × (s' ≡ s)

  run_method-RefusedIn :
      (request : Request) (perm p target : Text) (s : Server env)
      → Needs request.method perm
      → has_perm c.user perm ≡ false
      → RefusedIn s (run_method env c request p target s)
  unfolding run_method text_eq handle_rename handle_rmdir handle_symlink handle_mkdir handle_remove
  run_method-RefusedIn request perm p target s (to_rename m e) n =
      let n' : has_perm c.user perm_rename ≡ false = rw (e) at n in rw (m, n') (denied, refl)
  run_method-RefusedIn request perm p target s (to_rmdir m e) n =
      let n' : has_perm c.user perm_delete ≡ false = rw (e) at n in rw (m, n') (denied, refl)
  run_method-RefusedIn request perm p target s (to_mkdir m e) n =
      let n' : has_perm c.user perm_create_dirs ≡ false = rw (e) at n in rw (m, n') (denied, refl)
  run_method-RefusedIn request perm p target s (to_symlink m e) n =
      let n' : has_perm c.user perm_create_symlinks ≡ false = rw (e) at n in
      rw (m, n') (denied, refl)
  run_method-RefusedIn request perm p target s (to_remove m e) n =
      let n' : has_perm c.user perm_delete ≡ false = rw (e) at n in rw (m, n') (denied, refl)

  -- A user without the permission that a rename, a removal of a file or directory, a new directory
  -- or a new symlink needs is refused by `Filecmd`, whatever the paths are, and nothing changes but
  -- the activity of the connection: no file, no quota, no transfer.
  pub filecmd_refused :
      (now : ℕ) (request : Request) (perm : Text) (s : Server env)
      → Needs request.method perm
      → has_perm c.user perm ≡ false
      → RefusedIn (note_activity env c.id now s) (filecmd env c now request s)
  unfolding filecmd
  filecmd_refused now request perm s needs n =
      elim (Result-cases (build_path env c.user request.filepath s.world)) [
        | inl (e, b) ↦ rw (filecmd, b) (outside, refl)
        | inr (p, b) ↦ elim (Result-cases (get_sftp_cmd_target_path env c request.target s.world)) [
          | inl (e, t) ↦ rw (filecmd, b, t) (target_outside, refl)
          | inr (target, t) ↦
              rw (filecmd, b, t)
                (run_method-RefusedIn request perm p target (note_activity env c.id now s) needs n)
        ]
      ]

  -- What is told of a path: the files of a directory, or the information on one file.
  pub data Lists (method p : Text) (w : World env) : List FileInfo → Type 0 where
    directory :
        (files : List FileInfo)
        → method ≡ bytes "List"
        → env.os.read_dir p w ≡ ok files
        → Lists method p w files
    one_file :
        (info : FileInfo)
        → method ≡ bytes "Stat"
        → env.os.stat p w ≡ ok info
        → Lists method p w (info ∷ [])

  -- What a listing that is given rests on.
  abbrev pub ListsWith :
      ℕ → Request → Server env → Result Status (List FileInfo) × Server env → Type 0
  ListsWith now request s (err e, s') = s' ≡ note_activity env c.id now s
  ListsWith now request s (ok files, s') =
      (s' ≡ note_activity env c.id now s)
      × (has_perm c.user perm_list_items ≡ true)
      × (p : Text) × (build_path env c.user request.filepath s.world ≡ ok p)
      × Lists request.method p s.world files

  list_method_perm :
      (now : ℕ) (request : Request) (p : Text) (s : Server env)
      → build_path env c.user request.filepath s.world ≡ ok p
      → ListsWith now request s
          (list_method env c request.method p s.world, note_activity env c.id now s)
  unfolding list_method
  list_method_perm now request p s b = elim (text_eq-cases request.method (bytes "List")) [
    | inl (m, l) ↦ elim (Bool-cases (has_perm c.user perm_list_items)) [
      | inr n ↦ rw (list_method, l, n) refl
      | inl y ↦ elim (Result-cases (env.os.read_dir p s.world)) [
        | inl (e, r) ↦ rw (list_method, l, y, r) refl
        | inr (files, r) ↦ rw (list_method, l, y, r) (refl, y, p, b, directory files m r)
      ]
    ]
    | inr l ↦ elim (text_eq-cases request.method (bytes "Stat")) [
      | inr t ↦ rw (list_method, l, t) refl
      | inl (m, t) ↦ elim (Bool-cases (has_perm c.user perm_list_items)) [
        | inr n ↦ rw (list_method, l, t, n) refl
        | inl y ↦ elim (Result-cases (env.os.stat p s.world)) [
          | inr (info, r) ↦ rw (list_method, l, t, y, r) (refl, y, p, b, one_file info m r)
          | inl (e, r) ↦ elim (Bool-cases (is_not_exist e)) [
            | inl x ↦ rw (list_method, l, t, y, r, x) refl
            | inr x ↦ rw (list_method, l, t, y, r, x) refl
          ]
        ]
      ]
    ]
  ]

  -- `Filelist` changes nothing but the activity of the connection. It answers only a user with the
  -- permission to list and only if `buildPath` accepts the path; what it tells are the files of the
  -- directory at the path that `buildPath` gives, or the information on the file there.
  pub filelist_checked :
      (now : ℕ) (request : Request) (s : Server env)
      → ListsWith now request s (filelist env c now request s)
  unfolding filelist
  filelist_checked now request s =
      elim (Result-cases (build_path env c.user request.filepath s.world)) [
        | inl (e, b) ↦ rw (filelist, b) refl
        | inr (p, b) ↦ rw (filelist, b) (list_method_perm now request p s b)
      ]
