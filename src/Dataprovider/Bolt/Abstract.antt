-- ===== src/Dataprovider/Bolt/Abstract.antt =====
-- The bolt store as a map from names to users: what `addUser`, `updateQuota` and `deleteUser`
-- promise, without the buckets, the JSON and the index.
use mathlib.Core.Path.{subst}
use sshserv.Prelude.{
  ◌≡◌, ◌≢◌, ◌∙◌, ap, sym, refl, inl, inr, Bool, Option, none, some, Result, ok, err, ok-injective,
  Bool-cases, Option-cases, Result-cases,
}
use sshserv.Prelude.Int.{ℤ}
use sshserv.Prelude.Text.{Text}
use sshserv.Dataprovider.User.{User}
use sshserv.Dataprovider.Errors.{ProviderError}
use sshserv.Dataprovider.Validate.{Hashing, validate_user}
use sshserv.Dataprovider.Bolt.Store.{KeyValue, Json, IsEncodable, itob, get_buckets}
use sshserv.Dataprovider.Bolt.Provider.{
  State, update, user_exists, get_user_by_id, add_user, add_user_tx, delete_user, delete_user_tx,
  update_quota, update_quota_tx,
}
use sshserv.Dataprovider.Bolt.Linked.{both, IsConsistent, HasRoom}
use sshserv.Dataprovider.Bolt.Lookup.Add.{add_user_lookup}
use sshserv.Dataprovider.Bolt.Lookup.Delete.{delete_user_lookup}
use sshserv.Dataprovider.Bolt.Lookup.Quota.{charged_user, update_quota_lookup}

-- The users by name.
abbrev pub Users : Type 0
Users = Text → Option User

-- A map that differs from another one at a name, if at all.
pub record IsPut (name : Text) (new : Option User) (before after : Users) : Type 0 where
  pub at_name : after name ≡ new
  pub others : (j : Text) → j ≢ name → after j ≡ before j

pub data Operation : Type 0 where
  add : User → Operation
  charge : Text → ℤ → ℤ → Bool → ℤ → Operation
  remove : User → Operation

-- What an operation that succeeds does to the map: a validated user is put under a name that was
-- free, with an id; a user gets another quota; a user with the given id goes.
pub data Does (lib : Hashing) : Operation → Users → Users → Type 0 where
  adds :
      {u : User} {before after : Users} (v : User) (id : ℤ)
      → validate_user lib u ≡ ok v
      → before v.username ≡ none
      → IsPut v.username (some (record v { id = id })) before after
      → Does lib (add u) before after
  charges :
      {name : Text} {files size now : ℤ} {reset : Bool} {before after : Users} (u : User)
      → before name ≡ some u
      → IsPut name (some (charged_user files size reset now u)) before after
      → Does lib (charge name files size reset now) before after
  removes :
      {u : User} {before after : Users} (v : User)
      → itob u.id ≡ itob v.id
      → before v.username ≡ some v
      → IsPut v.username none before after
      → Does lib (remove u) before after

abbrev found : Result ProviderError User → Option User
found (ok u) = some u
found (err e) = none

module _ (kv : KeyValue) (json : Json) (lib : Hashing) where
  -- The map that a database stands for.
  abbrev pub users_of : State kv json → Users
  users_of db name = found (user_exists kv json name db)

  -- The operation of the bolt provider.
  abbrev pub run : Operation → State kv json → Option ProviderError × State kv json
  run (add u) db = add_user kv json lib u db
  run (charge name files size reset now) db = update_quota kv json name files size reset now db
  run (remove u) db = delete_user kv json u db

  put :
      (name : Text) (r : Result ProviderError User) (db db' : State kv json)
      → user_exists kv json name db' ≡ r
      → ((j : Text) → j ≢ name → user_exists kv json j db' ≡ user_exists kv json j db)
      → IsPut name (found r) (users_of db) (users_of db')
  put name r db db' h k = record { at_name = ap found h; others = λ j ne. ap found (k j ne) }

  update-failed :
      (f : State kv json → Result ProviderError (State kv json)) (db db' : State kv json)
      (e : ProviderError)
      → update kv json f db ≡ (some e, db')
      → db' ≡ db
  unfolding update
  update-failed f db db' e h = elim (Result-cases (f db)) [
    | inl (x, failed) ↦
        sym (ap (λ (p : Option ProviderError × State kv json). p.1) (rw (failed, update) at h))
    | inr (d, done) ↦ elim (Bool-cases (kv.commits d.users d.users_id_idx)) [
      | inl y ↦ cc (rw y at (rw (done, update) at h))
      | inr n ↦ sym (
          ap (λ (p : Option ProviderError × State kv json). p.1) (rw n at (rw (done, update) at h)))
    ]
  ]

  add-failed :
      (u : User) (db db' : State kv json) (e : ProviderError)
      → add_user kv json lib u db ≡ (some e, db')
      → db' ≡ db
  unfolding add_user
  add-failed u db db' e h = elim (Result-cases (validate_user lib u)) [
    | inl (x, r) ↦
        sym (ap (λ (p : Option ProviderError × State kv json). p.1) (rw (r, add_user) at h))
    | inr (v, r) ↦ update-failed (add_user_tx kv json v) db db' e (rw (r, add_user) at h)
  ]

  charge-failed :
      (name : Text) (files size : ℤ) (reset : Bool) (now : ℤ) (db db' : State kv json)
      (e : ProviderError)
      → update_quota kv json name files size reset now db ≡ (some e, db')
      → db' ≡ db
  unfolding update_quota
  charge-failed name files size reset now db db' e h =
      update-failed (update_quota_tx kv json name files size reset now) db db' e h

  remove-failed :
      (u : User) (db db' : State kv json) (e : ProviderError)
      → delete_user kv json u db ≡ (some e, db')
      → db' ≡ db
  unfolding delete_user
  remove-failed u db db' e h = update-failed (delete_user_tx kv json u) db db' e h

  -- A user that is found by its id in a consistent database is found by its name.
  by_name-by_id :
      (id : ℤ) (u : User) (db : State kv json)
      → IsConsistent kv json db
      → get_user_by_id kv json id db ≡ ok u
      → (itob id ≡ itob u.id) × (user_exists kv json u.username db ≡ ok u)
  unfolding get_user_by_id user_exists get_buckets
  by_name-by_id id u db (users, idx, e, linked) h =
      let at : get_user_by_id kv json id (both kv json users idx) ≡ ok u =
        ap (get_user_by_id kv json id) (sym e) ∙ h in
      elim (Option-cases (kv.get idx (itob id))) [
        | inl none_there ↦ cc (rw (none_there) at at)
        | inr (name, entry) ↦
            let (t, v, stored, read, key) = linked.indexed (itob id) name entry in
            let same : ok v ≡ ok u = rw (entry, stored, read) at at in
            let named = (linked.named name t v stored read).0 in
            let at_name : user_exists kv json name (both kv json users idx) ≡ ok v =
              rw (stored, read) refl in
            let by_name : user_exists kv json v.username (both kv json users idx) ≡ ok v =
              ap (λ (n : Text). user_exists kv json n (both kv json users idx)) named ∙ at_name in
            subst (λ (w : User). (itob id ≡ itob w.id) × (user_exists kv json w.username db ≡ ok w))
              (ok-injective same) (key, ap (user_exists kv json v.username) e ∙ by_name)
      ]

  -- The bolt provider implements the map of users: an operation that reports no error does to the
  -- users by name what it promises, if the database is consistent, the next id has 63 bits and, where
  -- a user is added, the texts of this user as validated are valid UTF-8; one that reports an error leaves the database as it is.
  pub run-Does :
      (op : Operation) (db db' : State kv json)
      → IsConsistent kv json db
      → HasRoom kv json db
      → ((u v : User) → op ≡ add u → validate_user lib u ≡ ok v → IsEncodable json v)
      → (run op db ≡ (none, db') → Does lib op (users_of db) (users_of db'))
        × ((e : ProviderError) → run op db ≡ (some e, db') → db' ≡ db)
  run-Does (add u) db db' consistent room encodable = (
    λ h.
        let (v, id, valid, a) =
          add_user_lookup kv json lib u db db' consistent room (λ v. encodable u v refl) h in
        adds v id valid (ap found a.name_free) (put v.username _ db db' a.by_name a.others),
    λ e h. add-failed u db db' e h,
  )
  run-Does (charge name files size reset now) db db' consistent room encodable = (
    λ h.
        let c = update_quota_lookup kv json name files size reset now db db' consistent h in
        charges c.user (ap found c.before) (put name _ db db' c.after c.others),
    λ e h. charge-failed name files size reset now db db' e h,
  )
  run-Does (remove u) db db' consistent room encodable = (
    λ h.
        let (name, d) = delete_user_lookup kv json u db db' consistent h in
        let (v, by_id, named) = d.was in
        let (key, by_name) = by_name-by_id u.id v db consistent by_id in
        removes v key (ap found by_name) (
          subst (λ (n : Text). IsPut n none (users_of db) (users_of db')) (sym named)
            (put name _ db db' d.no_name d.others)),
    λ e h. remove-failed u db db' e h,
  )
