-- ===== src/Dataprovider/Bolt/Linked/Update.antt =====
-- `updateUser` and `updateQuota`, step by step.
use mathlib.Core.Path.{subst}
use sshserv.Prelude.{
  ok-injective, ◌≡◌, ◌≢◌, refl, sym, ap, ◌∙◌, inl, inr, Bool, true, false, none, ok, arith,
  Option-cases, Result-cases,
}
use sshserv.Prelude.Int.{ℤ, InInt64}
use sshserv.Prelude.Text.{Text, text_eq_refl}
use sshserv.Dataprovider.User.{User}
use sshserv.Dataprovider.Validate.{Hashing, validate_user}
use sshserv.Dataprovider.Validate.Accepts.{validate_user_sound}
use sshserv.Dataprovider.Bolt.Store.{
  KeyValue, Json, IsEncodable, unmarshal-IsEncodable, unmarshal-marshal_encodable, itob,
}
use sshserv.Dataprovider.Bolt.Provider.{
  State, user_exists, apply_quota, update_quota_tx, update_quota, update_user_tx, update_user,
}
use sshserv.Dataprovider.Bolt.Id.{itob-injective}
use sshserv.Dataprovider.Bolt.Linked.Replace.{Replaced, Replaced-Linked}
use sshserv.Dataprovider.Bolt.Linked.{
  Linked, both, IsConsistent, update_cases, update-eq-none, Linked-of,
}

pub apply_quota_keeps :
    (files size : ℤ) (reset : Bool) (now : ℤ) (old : User)
    → ((apply_quota files size reset now old).username ≡ old.username)
      × ((apply_quota files size reset now old).id ≡ old.id)
unfolding apply_quota
apply_quota_keeps files size true now old = (refl, refl)
apply_quota_keeps files size false now old = (refl, refl)

pub apply_quota-IsEncodable :
    {json : Json} (files size : ℤ) (reset : Bool) (now : ℤ) (old : User)
    → IsEncodable json old
    → IsEncodable json (apply_quota files size reset now old)
unfolding apply_quota
apply_quota-IsEncodable files size true now old h = record {
  username = h.username;
  password = h.password;
  home_dir = h.home_dir;
  public_keys = h.public_keys;
  permissions = h.permissions;
}
apply_quota-IsEncodable files size false now old h = record {
  username = h.username;
  password = h.password;
  home_dir = h.home_dir;
  public_keys = h.public_keys;
  permissions = h.permissions;
}

module _ (kv : KeyValue) (json : Json) where
  open kv use {Bucket, get, put, sequence}
  open json use {marshal, unmarshal}

  -- The steps of a successful `update_quota_tx`.
  pub update_quota_tx_steps :
      (name : Text) (files size : ℤ) (reset : Bool) (now : ℤ) (users idx : Bucket)
      (db' : State kv json)
      → update_quota_tx kv json name files size reset now (both kv json users idx) ≡ ok db'
      → (old : User) × (users' : Bucket) × (db' ≡ both kv json users' idx)
        × Replaced kv json name old (apply_quota files size reset now old) users users'
  unfolding update_quota_tx
  update_quota_tx_steps name files size reset now users idx db' h =
      elim (Option-cases (get users name)) [
        | inl e ↦ absurd (ground arith)
        | inr (t, found) ↦ elim (Option-cases (unmarshal t)) [
          | inl e ↦ absurd (ground arith)
          | inr (old, read) ↦ elim (Option-cases (marshal (apply_quota files size reset now old))) [
            | inl e ↦ absurd (ground arith)
            | inr (buf, encoded) ↦ elim (Option-cases (put users name buf)) [
              | inl e ↦ absurd (ground arith)
              | inr (users', stored) ↦ (
                old,
                users',
                ground arith,
                record {
                  t = t;
                  buf = buf;
                  found = found;
                  read = read;
                  encoded = encoded;
                  stored = stored;
                },
              )
            ]
          ]
        ]
      ]

  -- The steps of a successful `update_user_tx`, where what it overwrites can be read.
  update_user_tx_steps :
      (user : User) (users idx : Bucket) (db' : State kv json)
      → Linked kv json users idx
      → update_user_tx kv json user (both kv json users idx) ≡ ok db'
      → (old : User) × (users' : Bucket) × (db' ≡ both kv json users' idx)
        × Replaced kv json user.username old user users users'
  unfolding update_user_tx
  update_user_tx_steps user users idx db' linked h = elim (Option-cases (get users user.username)) [
    | inl e ↦ absurd (ground arith)
    | inr (t, found) ↦ elim (Option-cases (marshal user)) [
      | inl e ↦ absurd (ground arith)
      | inr (buf, encoded) ↦ elim (Option-cases (put users user.username buf)) [
        | inl e ↦ absurd (ground arith)
        | inr (users', stored) ↦
            let (old, read) = linked.readable user.username t found in
            (
              old,
              users',
              ground arith,
              record {
                t = t;
                buf = buf;
                found = found;
                read = read;
                encoded = encoded;
                stored = stored;
              },
            )
      ]
    ]
  ]

  -- Updating a quota keeps the buckets consistent, whether it succeeds or fails.
  pub update_quota-IsConsistent :
      (name : Text) (files size : ℤ) (reset : Bool) (now : ℤ) (db : State kv json)
      → IsConsistent kv json db
      → IsConsistent kv json (update_quota kv json name files size reset now db).1
  unfolding update_quota
  update_quota-IsConsistent name files size reset now db (users, idx, e, linked) =
      update_cases kv json (IsConsistent kv json)
        (update_quota_tx kv json name files size reset now) db (users, idx, e, linked)
        λ db' h.
          let (old, users', is, r) =
            update_quota_tx_steps name files size reset now users idx db'
              (ap (update_quota_tx kv json name files size reset now) (sym e) ∙ h) in
          (
            users',
            idx,
            is,
            Replaced-Linked kv json name old (apply_quota files size reset now old) users idx users'
                linked r (apply_quota_keeps files size reset now old).0
                (apply_quota_keeps files size reset now old).1
                (apply_quota-IsEncodable files size reset now old
                  (unmarshal-IsEncodable json old r.t r.read)),
          )

  pub Replaced-user_exists :
      (name : Text) (old new : User) (users idx users' : Bucket)
      → Replaced kv json name old new users users'
      → user_exists kv json name (both kv json users idx) ≡ ok old
  unfolding user_exists
  Replaced-user_exists name old new users idx users' r = ground (arith, r.found, r.read)

  update_user_tx-IsConsistent :
      (user : User) (db db' : State kv json)
      → IsConsistent kv json db
      → IsEncodable json user
      → ((old : User) → user_exists kv json user.username db ≡ ok old → user.id ≡ old.id)
      → update_user_tx kv json user db ≡ ok db'
      → IsConsistent kv json db'
  update_user_tx-IsConsistent user db db' (users, idx, e, linked) encodable same h =
      let (old, users', is, r) =
        update_user_tx_steps user users idx db' linked
          (ap (update_user_tx kv json user) (sym e) ∙ h) in
      let stored : user_exists kv json user.username db ≡ ok old =
        ap (user_exists kv json user.username) e
        ∙ Replaced-user_exists user.username old user users idx users' r in
      (
        users',
        idx,
        is,
        Replaced-Linked kv json user.username old user users idx users' linked r
            (sym (linked.named user.username r.t old r.found r.read).0) (same old stored) encodable,
      )

  -- Updating a user keeps the buckets consistent, whether it succeeds or fails, provided that the
  -- user as validated is valid UTF-8 and has the id of the stored user of its name.
  pub update_user-IsConsistent :
      (lib : Hashing) (user : User) (db : State kv json)
      → IsConsistent kv json db
      → ((v : User) → validate_user lib user ≡ ok v → IsEncodable json v)
      → ((old : User) → user_exists kv json user.username db ≡ ok old → user.id ≡ old.id)
      → IsConsistent kv json (update_user kv json lib user db).1
  unfolding update_user
  update_user-IsConsistent lib user db c encodable same =
      elim (Result-cases (validate_user lib user)) [
        | inl (e, refused) ↦ rw (refused, update_user) c
        | inr (v, valid) ↦
            let (_, only_password, _) = validate_user_sound lib user v valid in
            let is_name : v.username ≡ user.username =
              ap (λ (w : User). w.username) only_password in
            let is_id : v.id ≡ user.id = ap (λ (w : User). w.id) only_password in
            rw (valid, update_user)
              (update_cases kv json (IsConsistent kv json) (update_user_tx kv json v) db c (λ db' h.
                update_user_tx-IsConsistent v db db' c (encodable v valid)
                  (λ old there. is_id ∙ same old (rw is_name at there)) h))
      ]

  Replaced-conflict :
      (name : Text) (old new : User) (users idx users' : Bucket)
      → Linked kv json users idx
      → Replaced kv json name old new users users'
      → IsEncodable json new
      → InInt64 new.id
      → InInt64 old.id
      → new.id ≢ old.id
      → ¬ Linked kv json users' idx
  Replaced-conflict name old new users idx users' linked r encodable p q ne broken =
      let (_, entry) = linked.named name r.t old r.found r.read in
      let (t, u, found, read, k) = broken.indexed (itob old.id) name entry in
      let decoded = unmarshal-marshal_encodable json new r.buf r.encoded encodable in
      let is_new : u ≡ new = ground (
        arith,
        found,
        read,
        decoded,
        kv.get-put users users' name r.buf r.stored name,
        text_eq_refl name,
      ) in
      ne (sym (itob-injective old.id new.id q p (k ∙ ap (λ (w : User). itob w.id) is_new)))

  -- Updating a user under the name of another one, which the update accepts, breaks the buckets.
  pub update_user_conflict :
      (lib : Hashing) (user old v : User) (db db' : State kv json)
      → IsConsistent kv json db
      → validate_user lib user ≡ ok v
      → IsEncodable json v
      → user_exists kv json user.username db ≡ ok old
      → InInt64 user.id
      → InInt64 old.id
      → user.id ≢ old.id
      → update_user kv json lib user db ≡ (none, db')
      → ¬ IsConsistent kv json db'
  unfolding update_user
  update_user_conflict lib user old v db db' (users, idx, e, linked) valid encodable there in_range
        old_in_range ne h broken =
      let (_, only_password, _) = validate_user_sound lib user v valid in
      let is_name : v.username ≡ user.username = ap (λ (w : User). w.username) only_password in
      let is_id : v.id ≡ user.id = ap (λ (w : User). w.id) only_password in
      let done : update_user_tx kv json v db ≡ ok db' =
        update-eq-none kv json (update_user_tx kv json v) db db' (rw (valid, update_user) at h) in
      let (old₁, users', is, r) =
        update_user_tx_steps v users idx db' linked
          (ap (update_user_tx kv json v) (sym e) ∙ done) in
      let there₁ : user_exists kv json user.username db ≡ ok old₁ =
        ap (λ n. user_exists kv json n db) (sym is_name)
        ∙ ap (user_exists kv json v.username) e
        ∙ Replaced-user_exists v.username old₁ v users idx users' r in
      let same : old ≡ old₁ = ok-injective (sym there ∙ there₁) in
      Replaced-conflict v.username old₁ v users idx users' linked r encodable
        (subst InInt64 (sym is_id) in_range) (subst (λ (w : User). InInt64 w.id) same old_in_range)
        (λ q. ne (sym is_id ∙ q ∙ ap (λ (w : User). w.id) (sym same)))
        (Linked-of kv json users' idx is broken)
