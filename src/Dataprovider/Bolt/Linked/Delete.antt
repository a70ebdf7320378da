-- ===== src/Dataprovider/Bolt/Linked/Delete.antt =====
-- `deleteUser` keeps the buckets linked.
use sshserv.Prelude.{
  ℕ, ◌≤◌, ◌≡◌, sym, ap, ◌∙◌, inl, inr, none, some, ok, arith, Option-cases, if◌then◌else◌,
}
use sshserv.Prelude.Int.{pos}
use sshserv.Prelude.Text.{Text, text_eq, text_eq_iff, text_eq_refl}
use sshserv.Dataprovider.User.{User}
use sshserv.Dataprovider.Bolt.Store.{KeyValue, Json, itob}
use sshserv.Dataprovider.Bolt.Provider.{State, delete_user_tx, delete_user}
use sshserv.Dataprovider.Bolt.Linked.{Linked, both, IsConsistent, update_cases}

module _ (kv : KeyValue) (json : Json) where
  open kv use {Bucket, get, delete, sequence}
  open json use {unmarshal}

  -- The steps of a successful `delete_user_tx`.
  pub record Removed (user : User) (users idx users' idx' : Bucket) : Type 0 where
    pub name : Text
    pub entry : get idx (itob user.id) ≡ some name
    pub dropped : delete users name ≡ some users'
    pub unlisted : delete idx (itob user.id) ≡ some idx'

  pub delete_user_tx_steps :
      (user : User) (users idx : Bucket) (db' : State kv json)
      → delete_user_tx kv json user (both kv json users idx) ≡ ok db'
      → (users' : Bucket) × (idx' : Bucket) × (db' ≡ both kv json users' idx')
        × Removed user users idx users' idx'
  unfolding delete_user_tx
  delete_user_tx_steps user users idx db' h = elim (Option-cases (get idx (itob user.id))) [
    | inl e ↦ absurd (ground arith)
    | inr (name, entry) ↦ elim (Option-cases (delete users name)) [
      | inl e ↦ absurd (ground arith)
      | inr (users', dropped) ↦ elim (Option-cases (delete idx (itob user.id))) [
        | inl e ↦ absurd (ground arith)
        | inr (idx', unlisted) ↦ (
          users',
          idx',
          ground arith,
          record { name = name; entry = entry; dropped = dropped; unlisted = unlisted },
        )
      ]
    ]
  ]

  -- One removal, over what its parameters share.
  module _ (user : User) (users idx users' idx' : Bucket) (linked : Linked kv json users idx)
      (r : Removed user users idx users' idx') where
    pub get-users' : (j : Text) → get users' j ≡ (if text_eq r.name j then none else get users j)
    get-users' j = kv.get-delete users users' r.name r.dropped j

    pub get-idx' : (k : Text) → get idx' k ≡ (if text_eq (itob user.id) k then none else get idx k)
    get-idx' k = kv.get-delete idx idx' (itob user.id) r.unlisted k

    sequence-users' : sequence users' ≡ sequence users
    sequence-users' = kv.sequence-delete users users' r.name r.dropped

    Removed-named :
        (name t : Text) (u : User)
        → get users' name ≡ some t
        → unmarshal t ≡ some u
        → (u.username ≡ name) × (get idx' (itob u.id) ≡ some name)
    Removed-named name t u h d =
        let old : get users name ≡ some t = ground (arith, h, get-users' name) in
        let (is_name, entry) = linked.named name t u old d in
        (
          is_name,
          ground (
            arith,
            h,
            entry,
            r.entry,
            get-users' name,
            get-idx' (itob u.id),
            text_eq_refl name,
            text_eq_iff (itob user.id) (itob u.id),
            text_eq_iff r.name name,
          ),
        )

    -- The entry that goes away is the only one of the user that goes away.
    Removed-indexed :
        (key name : Text)
        → get idx' key ≡ some name
        → (t : Text) × (u : User) × (get users' name ≡ some t)
          × (unmarshal t ≡ some u)
          × (key ≡ itob u.id)
    Removed-indexed key name h =
        let (t, u, old, d, k) = linked.indexed key name (ground (arith, h, get-idx' key)) in
        let (t₁, u₁, old₁, d₁, k₁) = linked.indexed (itob user.id) r.name r.entry in
        (
          t,
          u,
          ground (
            arith,
            h,
            old,
            d,
            k,
            old₁,
            d₁,
            k₁,
            get-users' name,
            get-idx' key,
            text_eq_iff r.name name,
            text_eq_iff (itob user.id) key,
          ),
          d,
          k,
        )

    Removed-handed_out :
        (key name : Text)
        → get idx' key ≡ some name
        → (n : ℕ) × (key ≡ itob (pos n)) × (n ≤ sequence users')
    Removed-handed_out key name h =
        let (n, k, le) = linked.handed_out key name (ground (arith, h, get-idx' key)) in
        (n, k, omega (arith, sequence-users'))

    Removed-Linked : Linked kv json users' idx'
    Removed-Linked = record {
      readable = λ name t h. linked.readable name t (ground (arith, h, get-users' name));
      named = Removed-named;
      indexed = Removed-indexed;
      handed_out = Removed-handed_out;
      in_range = omega (arith, sequence-users', linked.in_range);
    }

  -- Deleting a user keeps the buckets consistent, whether it succeeds or fails.
  pub delete_user-IsConsistent :
      (user : User) (db : State kv json)
      → IsConsistent kv json db
      → IsConsistent kv json (delete_user kv json user db).1
  unfolding delete_user
  delete_user-IsConsistent user db (users, idx, e, linked) =
      update_cases kv json (IsConsistent kv json) (delete_user_tx kv json user) db
        (users, idx, e, linked)
        λ db' h.
          let (users', idx', is, r) =
            delete_user_tx_steps user users idx db'
              (ap (delete_user_tx kv json user) (sym e) ∙ h) in
          (users', idx', is, Removed-Linked user users idx users' idx' linked r)
