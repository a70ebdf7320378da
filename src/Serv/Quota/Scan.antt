-- ===== src/Serv/Quota/Scan.antt =====
-- What a quota scan that is stored in a bolt provider means for the next upload.
use mathlib.Core.Path.{subst}
use sshserv.Prelude.{
  ◌≡◌, ◌↔◌, ◌∙◌, sym, inl, inr, Bool, true, false, none, ok, ok-injective, arith, Bool-cases,
}
use sshserv.Prelude.Int.{ℤ, pos, eqb_ℤ, ◌<ℤ◌}
use sshserv.Dataprovider.User.{User}
use sshserv.Dataprovider.Validate.{Hashing}
use sshserv.Dataprovider.Password.{Checking}
use sshserv.Dataprovider.Bolt.Store.{KeyValue, Json}
use sshserv.Dataprovider.Bolt.Provider as Bolt
use sshserv.Dataprovider.Bolt.Linked.{IsConsistent}
use sshserv.Dataprovider.Bolt.Lookup.Quota.{update_quota_lookup}
use sshserv.Dataprovider.Facade.{Config, Provider, bolt_provider, update_user_quota, get_used_quota}
use sshserv.Serv.Quota.{has_space, HasSpace, unlimited, untracked, below, has_space_iff}

-- The scanned values are below the limits that count.
abbrev pub IsBelow : Bool → User → ℤ → ℤ → Type 0
IsBelow check_files user files size =
    (check_files ≡ true → pos 0 <ℤ user.quota_files → files <ℤ user.quota_files)
    × (pos 0 <ℤ user.quota_size → size <ℤ user.quota_size)

module _ {S : Type 0} (cfg : Config) (p : Provider S) where
  HasSpace-IsBelow :
      (check_files : Bool) (user : User) (s : S) (files size : ℤ)
      → get_used_quota cfg p user.username s ≡ ok (files, size)
      → HasSpace cfg p check_files user s
      → IsBelow check_files user files size
  HasSpace-IsBelow check_files user s files size used (unlimited few small) =
      ((λ c l. absurd (ground (arith, few, l, c))), (λ l. absurd (ground (arith, small, l))))
  HasSpace-IsBelow check_files user s files size used (untracked e failed _) = absurd (cc)
  HasSpace-IsBelow check_files user s files size used (below f z done few small) =
      let same : (f, z) ≡ (files, size) = ok-injective (sym done ∙ used) in
      subst (λ (q : ℤ × ℤ). IsBelow check_files user q.0 q.1) same (few, small)

module _ (kv : KeyValue) (json : Json) (hashing : Hashing) (checking : Checking) (now : ℤ)
    (cfg : Config) where
  -- A charge that the facade has let through with a reset was made by the provider.
  reset-made :
      (user : User) (files size : ℤ) (db db' : Bolt.State kv json)
      → update_user_quota cfg (bolt_provider kv json hashing checking now) user files size true db
        ≡ (none, db')
      → (eqb_ℤ cfg.track_quota (pos 0) ≡ false)
        × (Bolt.update_quota kv json user.username files size true now db ≡ (none, db'))
  unfolding update_user_quota bolt_provider
  reset-made user files size db db' h = elim (Bool-cases (eqb_ℤ cfg.track_quota (pos 0))) [
    | inl y ↦ cc (rw (y) at h)
    | inr n ↦ elim (Bool-cases (eqb_ℤ cfg.track_quota (pos 2))) [
      | inl t ↦ (n, rw (n, t) at h)
      | inr f ↦ (n, rw (n, f) at h)
    ]
  ]

  pub used-after_reset :
      (user : User) (files size : ℤ) (db db' : Bolt.State kv json)
      → IsConsistent kv json db
      → update_user_quota cfg (bolt_provider kv json hashing checking now) user files size true db
        ≡ (none, db')
      → get_used_quota cfg (bolt_provider kv json hashing checking now) user.username db'
        ≡ ok (files, size)
  unfolding get_used_quota bolt_provider
  used-after_reset user files size db db' consistent h =
      let (tracked, made) = reset-made user files size db db' h in
      rw (tracked)
        (update_quota_lookup kv json user.username files size true now db db' consistent made).used

  -- Once a scan of the user's files has been stored without an error, uploads of the user are let
  -- through exactly if the scanned files, where they are asked for, and bytes are below each
  -- positive limit.
  pub quota_scan_decides :
      (check_files : Bool) (user : User) (files size : ℤ) (db db' : Bolt.State kv json)
      → IsConsistent kv json db
      → update_user_quota cfg (bolt_provider kv json hashing checking now) user files size true db
        ≡ (none, db')
      → (has_space cfg (bolt_provider kv json hashing checking now) check_files user db' ≡ true)
        ↔ IsBelow check_files user files size
  quota_scan_decides check_files user files size db db' consistent h =
      let p = bolt_provider kv json hashing checking now in
      let used = used-after_reset user files size db db' consistent h in
      let (there, back) = has_space_iff cfg p check_files user db' in
      (
        (λ y. HasSpace-IsBelow cfg p check_files user db' files size used (there y)),
        (λ (few, small). back (below files size used few small)),
      )
