-- ===== src/Serv/Transfer/Close/Accounts.antt =====
-- What `Close` does to the shared state, and the quota over the life of a file: its upload, and its
-- removal.
use mathlib.Core.Path.{subst}
use sshserv.Prelude.{
  ℕ, ◌≡◌, ◌∙◌, ap, sym, inl, inr, refl, Bool, true, false, not, ◌&&◌, Option, none, ok,
  ok-injective, Bool-cases, if◌then◌else◌, arith,
}
use sshserv.Prelude.Int.{ℤ, pos, add64, neg64, InInt64, eqb_ℤ, add64_cancel}
use sshserv.Prelude.Text.{Text}
use sshserv.Dataprovider.User.{User, has_quota_restrictions}
use sshserv.Dataprovider.Errors.{ProviderError}
use sshserv.Dataprovider.Validate.{Hashing}
use sshserv.Dataprovider.Password.{Checking}
use sshserv.Dataprovider.Facade.{Config, Provider, bolt_provider, update_user_quota, get_used_quota}
use sshserv.Dataprovider.Bolt.Store.{KeyValue, Json}
use sshserv.Dataprovider.Bolt.Provider as Bolt
use sshserv.Dataprovider.Bolt.Linked.{IsConsistent}
use sshserv.Dataprovider.Bolt.Linked.Update.{update_quota-IsConsistent}
use sshserv.Dataprovider.Bolt.Lookup.Quota.{quota_after, update_quota_lookup}
use sshserv.Serv.Registry.{Connection, transfer_upload}
use sshserv.Serv.Os.{Os, FileInfo}
use sshserv.Serv.Env.{UploadMode, Actions, Env, Server}
use sshserv.Serv.Transfer.Close.{close}
use sshserv.Serv.Sftp.Commands.{handle_remove}
use sshserv.Serv.Sftp.Commands.Removal.{is_ok, handle_remove-GivesBack}

module _ (kv : KeyValue) (json : Json) (hashing : Hashing) (checking : Checking) (now : ℤ)
    (cfg : Config) where
  abbrev bolt : Provider (Bolt.State kv json)
  bolt = bolt_provider kv json hashing checking now

  -- The configurations and users for which no quota is kept.
  abbrev skips : User → Bool
  skips user = eqb_ℤ cfg.track_quota (pos 2) && not (has_quota_restrictions user)

  -- What a change of the quota that gives no error has done.
  pub data Changed (user : User) (files size : ℤ) (db db' : Bolt.State kv json) : Type 0 where
    skipped : skips user ≡ true → db' ≡ db → Changed user files size db db'
    made :
        skips user ≡ false
        → Bolt.update_quota kv json user.username files size false now db ≡ (none, db')
        → Changed user files size db db'

  update-Changed :
      (user : User) (files size : ℤ) (db db' : Bolt.State kv json)
      → update_user_quota cfg bolt user files size false db ≡ (none, db')
      → Changed user files size db db'
  unfolding update_user_quota bolt_provider
  update-Changed user files size db db' h = elim (Bool-cases (eqb_ℤ cfg.track_quota (pos 0))) [
    | inl y ↦ cc (rw (y) at h)
    | inr n ↦ elim (Bool-cases (eqb_ℤ cfg.track_quota (pos 2))) [
      | inr f ↦ made (rw (f) refl) (rw (n, f) at h)
      | inl t ↦ elim (Bool-cases (has_quota_restrictions user)) [
        | inl r ↦ made (rw (t, r) refl) (rw (n, t, r) at h)
        | inr r ↦
            skipped (rw (t, r) refl) (
              sym (ap (λ (p : Option ProviderError × Bolt.State kv json). p.1) (rw (n, t, r) at h)))
      ]
    ]
  ]

  used-after_update :
      (name : Text) (files size f z : ℤ) (db db' : Bolt.State kv json)
      → IsConsistent kv json db
      → Bolt.get_used_quota kv json name db ≡ ok (f, z)
      → Bolt.update_quota kv json name files size false now db ≡ (none, db')
      → Bolt.get_used_quota kv json name db' ≡ ok (add64 f files, add64 z size)
  unfolding Bolt.get_used_quota
  used-after_update name files size f z db db' consistent u h =
      let charged = update_quota_lookup kv json name files size false now db db' consistent h in
      let old : ok (charged.user.used_quota_files, charged.user.used_quota_size) ≡ ok (f, z) =
        rw (charged.before) at u in
      charged.used ∙ ap ok (ap (quota_after files size false) (ok-injective old))

  -- Two changes that cancel out.
  restored :
      (name : Text) (files size f z : ℤ) (db db' db'' : Bolt.State kv json)
      → IsConsistent kv json db
      → InInt64 f
      → InInt64 z
      → InInt64 files
      → InInt64 size
      → Bolt.get_used_quota kv json name db ≡ ok (f, z)
      → Bolt.update_quota kv json name files size false now db ≡ (none, db')
      → Bolt.update_quota kv json name (neg64 files) (neg64 size) false now db' ≡ (none, db'')
      → Bolt.get_used_quota kv json name db'' ≡ ok (f, z)
  restored name files size f z db db' db'' consistent fi zi files_in size_in u h k =
      let consistent' : IsConsistent kv json db' =
        subst (IsConsistent kv json) (ap (λ (p : Option ProviderError × Bolt.State kv json). p.1) h)
          (update_quota-IsConsistent kv json name files size false now db consistent) in
      let between = used-after_update name files size f z db db' consistent u h in
      let end =
        used-after_update name (neg64 files) (neg64 size) (add64 f files) (add64 z size) db' db''
          consistent' between k in
      rw (add64_cancel f files fi files_in, add64_cancel z size zi size_in) at end

  -- The used quota after a change and its reverse is the one before, unless one of them fails.
  pub used-restored :
      (user : User) (files size f z : ℤ) (db db' db'' : Bolt.State kv json)
      → IsConsistent kv json db
      → InInt64 f
      → InInt64 z
      → InInt64 files
      → InInt64 size
      → get_used_quota cfg bolt user.username db ≡ ok (f, z)
      → update_user_quota cfg bolt user files size false db ≡ (none, db')
      → update_user_quota cfg bolt user (neg64 files) (neg64 size) false db' ≡ (none, db'')
      → get_used_quota cfg bolt user.username db'' ≡ ok (f, z)
  unfolding get_used_quota bolt_provider
  used-restored user files size f z db db' db'' consistent fi zi files_in size_in u h k =
      elim (Bool-cases (eqb_ℤ cfg.track_quota (pos 0))) [
        | inl y ↦ cc (rw (y) at u)
        | inr n ↦ elim (update-Changed user files size db db' h) [
          | skipped t e ↦ elim (update-Changed user (neg64 files) (neg64 size) db' db'' k) [
            | skipped t' e' ↦ rw (e', e) u
            | made t' m' ↦ cc
          ]
          | made t m ↦ elim (update-Changed user (neg64 files) (neg64 size) db' db'' k) [
            | skipped t' e' ↦ cc
            | made t' m' ↦ rw (n) (
                restored user.username files size f z db db' db'' consistent fi zi files_in size_in
                  (rw (n) at u) m m')
          ]
        ]
      ]

  module _ (os : Os) (mode : UploadMode) (actions : Actions) where
    abbrev pub bolt_env : Env
    bolt_env = record {
      os = os;
      Store = Bolt.State kv json;
      config = cfg;
      provider = bolt;
      upload_mode = mode;
      actions = actions;
    }

    -- `close` on an upload of a new file, for a user.
    close_upload-store :
        (a : ℕ) (user : User) (s : Server bolt_env)
        → (s.registry.transfers a).transfer_type ≡ transfer_upload
        → (s.registry.transfers a).is_new_file ≡ true
        → (s.registry.transfers a).user ≡ user
        → (close bolt_env a s).1.store
          ≡ (update_user_quota cfg bolt user
              (pos 1)
              (s.registry.transfers a).bytes_received
              false
              s.store).1
    unfolding close
    close_upload-store a user s up new own = rw (close, up, new, own) refl

    -- An upload of a new file that is closed, and then a removal by SFTP of a regular file of the
    -- size that was received, leave the used files and bytes of the user as they were before the
    -- upload was closed, if the removal is answered with ok and neither change of the quota fails.
    -- The values are 64-bit integers.
    pub upload_then_remove :
        (c : Connection) (a : ℕ) (path : Text) (fi : FileInfo) (f z : ℤ) (s : Server bolt_env)
        (db' db'' : Bolt.State kv json)
        → (s.registry.transfers a).transfer_type ≡ transfer_upload
        → (s.registry.transfers a).is_new_file ≡ true
        → (s.registry.transfers a).user ≡ c.user
        → (s.registry.transfers a).bytes_received ≡ fi.size
        → os.lstat path (close bolt_env a s).1.world ≡ ok fi
        → fi.is_symlink ≡ false
        → IsConsistent kv json s.store
        → InInt64 f
        → InInt64 z
        → InInt64 fi.size
        → get_used_quota cfg bolt c.user.username s.store ≡ ok (f, z)
        → update_user_quota cfg bolt c.user (pos 1) fi.size false s.store ≡ (none, db')
        → update_user_quota cfg bolt c.user (neg64 (pos 1)) (neg64 fi.size) false db' ≡ (none, db'')
        → is_ok (handle_remove bolt_env c path (close bolt_env a s).1).0 ≡ true
        → get_used_quota cfg bolt c.user.username
            (handle_remove bolt_env c path (close bolt_env a s).1).1.store
          ≡ ok (f, z)
    upload_then_remove c a path fi f z s db' db'' up new own received found real consistent fin zin
          bin u h k done =
        let s' = (close bolt_env a s).1 in
        let stored : s'.store ≡ db' =
          close_upload-store a c.user s up new own
          ∙ (rw (received) (ap (λ (p : Option ProviderError × Bolt.State kv json). p.1) h)) in
        let back = (handle_remove-GivesBack bolt_env c path fi s' found).0 real in
        let now_stored : (handle_remove bolt_env c path s').1.store ≡ db'' =
          back
          ∙ ap
              (λ (b : Bool).
                if b
                then (update_user_quota cfg bolt c.user (neg64 (pos 1)) (neg64 fi.size) false
                    s'.store).1
                else s'.store)
              done
          ∙ ap
              (λ (st : Bolt.State kv json).
                (update_user_quota cfg bolt c.user (neg64 (pos 1)) (neg64 fi.size) false st).1)
              stored
          ∙ ap (λ (p : Option ProviderError × Bolt.State kv json). p.1) k in
        ap (get_used_quota cfg bolt c.user.username) now_stored
        ∙ used-restored c.user (pos 1) fi.size f z s.store db' db'' consistent fin zin
            (omega arith, omega arith) bin u h k
