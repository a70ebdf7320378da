-- ===== src/Serv/Quota.antt =====
-- serv/filehandler.go: `hasSpace`, which asks for the used quota before an upload.
pub mod Scan
use sshserv.Prelude.{
  ◌≡◌, ◌⊎◌, ◌↔◌, inl, inr, refl, Bool, true, false, not, ◌&&◌, ◌||◌, Result, ok, err, arith,
  Bool-cases, Result-cases, if◌then◌else◌,
}
use sshserv.Prelude.Int.{ℤ, pos, ltb_ℤ, leb_ℤ, ◌<ℤ◌, ◌≤ℤ◌}
use sshserv.Prelude.Text.{Text}
use sshserv.Dataprovider.User.{User}
use sshserv.Dataprovider.Errors.{ProviderError, manage_users_disabled, track_quota_disabled}
use sshserv.Dataprovider.Facade.{Config, Provider, get_used_quota}

-- Whether an error is a `MethodDisabledError`.
abbrev pub is_method_disabled : ProviderError → Bool
is_method_disabled manage_users_disabled = true
is_method_disabled track_quota_disabled = true
is_method_disabled _ = false

-- The part of `hasSpace` after the call of `GetUsedQuota`.
abbrev pub space_left : Bool → User → Result ProviderError (ℤ × ℤ) → Bool
space_left check_files user (err e) = is_method_disabled e
space_left check_files user (ok (num_file, size)) = not (
    (check_files && (ltb_ℤ (pos 0) user.quota_files && leb_ℤ user.quota_files num_file))
    || (ltb_ℤ (pos 0) user.quota_size && leb_ℤ user.quota_size size))

module _ {S : Type 0} (cfg : Config) (p : Provider S) where
  -- `hasSpace`, for the user of the connection.
  unfoldable pub has_space : Bool → User → S → Bool
  has_space check_files user s =
      if (check_files && ltb_ℤ (pos 0) user.quota_files) || ltb_ℤ (pos 0) user.quota_size
      then space_left check_files user (get_used_quota cfg p user.username s)
      else true

  -- What an upload needs: no limit that counts, or no tracking of quotas, or used values below
  -- each limit that counts.
  pub data HasSpace (check_files : Bool) (user : User) (s : S) : Type 0 where
    unlimited :
        (check_files ≡ true → user.quota_files ≤ℤ pos 0)
        → user.quota_size ≤ℤ pos 0
        → HasSpace check_files user s
    untracked :
        (e : ProviderError)
        → get_used_quota cfg p user.username s ≡ err e
        → is_method_disabled e ≡ true
        → HasSpace check_files user s
    below :
        (num_file size : ℤ)
        → get_used_quota cfg p user.username s ≡ ok (num_file, size)
        → (check_files ≡ true → pos 0 <ℤ user.quota_files → num_file <ℤ user.quota_files)
        → (pos 0 <ℤ user.quota_size → size <ℤ user.quota_size)
        → HasSpace check_files user s

  space_left-HasSpace :
      (check_files : Bool) (user : User) (s : S)
      → space_left check_files user (get_used_quota cfg p user.username s) ≡ true
      → HasSpace check_files user s
  space_left-HasSpace check_files user s h =
      elim (Result-cases (get_used_quota cfg p user.username s)) [
        | inl (e, failed) ↦ untracked e failed (rw (failed) at h)
        | inr ((num_file, size), done) ↦
            let left : space_left check_files user (ok (num_file, size)) ≡ true = rw (done) at h in
            below num_file size done (λ c l. ground arith) (λ l. ground arith)
      ]

  HasSpace-has_space :
      (check_files : Bool) (user : User) (s : S)
      → HasSpace check_files user s
      → has_space check_files user s ≡ true
  unfolding has_space
  HasSpace-has_space check_files user s (unlimited files size) = ground arith
  HasSpace-has_space check_files user s (untracked e failed disabled) =
      rw (failed) (ground (arith, disabled))
  HasSpace-has_space check_files user s (below num_file size done files bytes) =
      rw (done) (ground (arith, files, bytes))

  has_space-HasSpace :
      (check_files : Bool) (user : User) (s : S)
      → has_space check_files user s ≡ true
      → HasSpace check_files user s
  unfolding has_space
  has_space-HasSpace check_files user s h =
      elim (Bool-cases
        ((check_files && ltb_ℤ (pos 0) user.quota_files) || ltb_ℤ (pos 0) user.quota_size)) [
          | inl y ↦ space_left-HasSpace check_files user s (rw (y) at h)
          | inr n ↦ unlimited (λ c. ground arith) (ground arith)
        ]

  -- An upload is let through exactly if no limit counts for the user, or the provider says that the
  -- quota is not tracked, or the used files, where they are asked for, and the used bytes are below
  -- each positive limit; any other error of the provider refuses it.
  pub has_space_iff :
      (check_files : Bool) (user : User) (s : S)
      → (has_space check_files user s ≡ true) ↔ HasSpace check_files user s
  has_space_iff check_files user s =
      (has_space-HasSpace check_files user s, HasSpace-has_space check_files user s)
