-- ===== src/Dataprovider/Bolt/Lookup/Quota.antt =====
-- The lookups after `updateQuota`.
use mathlib.Core.Path.{subst₂}
use sshserv.Prelude.{◌≡◌, ◌≢◌, refl, sym, ap, ◌∙◌, Bool, none, some, ok, arith, true, false}
use sshserv.Prelude.Int.{ℤ, add64}
use sshserv.Prelude.Text.{Text, text_eq_iff, text_eq_refl}
use sshserv.Dataprovider.User.{User}
use sshserv.Dataprovider.Bolt.Store.{
  KeyValue, Json, unmarshal-marshal_encodable, unmarshal-IsEncodable,
}
use sshserv.Dataprovider.Bolt.Provider.{
  State, user_exists, get_used_quota, apply_quota, update_quota_tx, update_quota,
}
use sshserv.Dataprovider.Bolt.Linked.{both, IsConsistent, update-eq-none}
use sshserv.Dataprovider.Bolt.Linked.Replace.{Replaced}
use sshserv.Dataprovider.Bolt.Linked.Update.{
  update_quota_tx_steps, apply_quota-IsEncodable, Replaced-user_exists,
}

-- The used quota, files then size, after a change by `files` and `size` or to them.
abbrev pub quota_after : ℤ → ℤ → Bool → ℤ × ℤ → ℤ × ℤ
quota_after files size true used = (files, size)
quota_after files size false (used_files, used_size) =
    (add64 used_files files, add64 used_size size)

-- A user whose used quota was changed at an instant, everything else being as it was.
abbrev pub charged_user : ℤ → ℤ → Bool → ℤ → User → User
charged_user files size reset now u =
    let used = quota_after files size reset (u.used_quota_files, u.used_quota_size) in
    record u { used_quota_files = used.0; used_quota_size = used.1; last_quota_update = now }

apply_quota-charged_user :
    (files size : ℤ) (reset : Bool) (now : ℤ) (u : User)
    → apply_quota files size reset now u ≡ charged_user files size reset now u
unfolding apply_quota
apply_quota-charged_user files size true now u = refl
apply_quota-charged_user files size false now u = refl

module _ (kv : KeyValue) (json : Json) where
  open kv use {Bucket}
  open json use {unmarshal}

  used_of-apply_quota :
      (files size : ℤ) (reset : Bool) (now : ℤ) (old : User) (name : Text) (db : State kv json)
      → user_exists kv json name db ≡ ok (apply_quota files size reset now old)
      → get_used_quota kv json name db
        ≡ ok (quota_after files size reset (old.used_quota_files, old.used_quota_size))
  unfolding get_used_quota apply_quota
  used_of-apply_quota files size true now old name db h = rw h
  used_of-apply_quota files size false now old name db h = rw h

  -- What the lookups say before and after a change of the quota of `name`.
  pub record IsCharged (name : Text) (files size : ℤ) (reset : Bool) (now : ℤ)
      (db db' : State kv json) : Type 0 where
    pub user : User
    pub before : user_exists kv json name db ≡ ok user
    pub after : user_exists kv json name db' ≡ ok (charged_user files size reset now user)
    pub used :
        get_used_quota kv json name db'
        ≡ ok (quota_after files size reset (user.used_quota_files, user.used_quota_size))
    pub others : (j : Text) → j ≢ name → user_exists kv json j db' ≡ user_exists kv json j db

  Replaced-others :
      (name : Text) (old new : User) (users idx users' : Bucket)
      → Replaced kv json name old new users users'
      → (j : Text) → j ≢ name
      → user_exists kv json j (both kv json users' idx)
        ≡ user_exists kv json j (both kv json users idx)
  unfolding user_exists
  Replaced-others name old new users idx users' r j ne =
      ground (arith, kv.get-put users users' name r.buf r.stored j, text_eq_iff name j)

  Replaced-after :
      (name : Text) (old new : User) (users idx users' : Bucket)
      → (r : Replaced kv json name old new users users') → unmarshal r.buf ≡ some new
      → user_exists kv json name (both kv json users' idx) ≡ ok new
  unfolding user_exists
  Replaced-after name old new users idx users' r d =
      ground (arith, kv.get-put users users' name r.buf r.stored name, text_eq_refl name, d)

  -- When a quota is updated without an error, the user is there before and after; its used files
  -- and size are those given on a reset, and the old ones plus those given, as 64-bit numbers,
  -- otherwise; nothing else of it changes but the time of the update, and no other user changes.
  pub update_quota_lookup :
      (name : Text) (files size : ℤ) (reset : Bool) (now : ℤ) (db db' : State kv json)
      → IsConsistent kv json db
      → update_quota kv json name files size reset now db ≡ (none, db')
      → IsCharged name files size reset now db db'
  unfolding update_quota
  update_quota_lookup name files size reset now db db' (users, idx, e, linked) h =
      let tx = update_quota_tx kv json name files size reset now in
      let done = update-eq-none kv json tx db db' h in
      let (old, users', is, r) =
        update_quota_tx_steps kv json name files size reset now users idx db'
          (ap tx (sym e) ∙ done) in
      let new = apply_quota files size reset now old in
      let d = unmarshal-marshal_encodable json new r.buf r.encoded (
        apply_quota-IsEncodable files size reset now old
          (unmarshal-IsEncodable json old r.t r.read)) in
      let after = Replaced-after name old new users idx users' r d in
      subst₂ (IsCharged name files size reset now) (sym e) (sym is) (record {
        user = old;
        before = Replaced-user_exists kv json name old new users idx users' r;
        after = after ∙ ap ok (apply_quota-charged_user files size reset now old);
        used = used_of-apply_quota files size reset now old name (both kv json users' idx) after;
        others = Replaced-others name old new users idx users' r;
      })
