-- ===== src/Dataprovider/Bolt/Lookup/Delete.antt =====
-- The lookups after `deleteUser`.
use mathlib.Core.Path.{subst₂}
use sshserv.Prelude.{◌≡◌, ◌≢◌, sym, ap, ◌∙◌, none, ok, err, arith}
use sshserv.Prelude.Text.{Text, text_eq_iff, text_eq_refl}
use sshserv.Dataprovider.User.{User}
use sshserv.Dataprovider.Errors.{record_not_found}
use sshserv.Dataprovider.Bolt.Store.{KeyValue, Json, itob}
use sshserv.Dataprovider.Bolt.Provider.{
  State, user_exists, get_user_by_id, delete_user_tx, delete_user,
}
use sshserv.Dataprovider.Bolt.Linked.{Linked, both, IsConsistent, update-eq-none}
use sshserv.Dataprovider.Bolt.Linked.Delete.{Removed, delete_user_tx_steps, get-users', get-idx'}

module _ (kv : KeyValue) (json : Json) where
  open kv use {Bucket}

  -- What the lookups say once the user with the id of `user` is gone, whose name was `name`.
  pub record IsDeleted (user : User) (name : Text) (db db' : State kv json) : Type 0 where
    pub was : (u : User) × (get_user_by_id kv json user.id db ≡ ok u) × (u.username ≡ name)
    pub no_id : get_user_by_id kv json user.id db' ≡ err record_not_found
    pub no_name : user_exists kv json name db' ≡ err record_not_found
    pub others : (j : Text) → j ≢ name → user_exists kv json j db' ≡ user_exists kv json j db

  Removed-IsDeleted :
      (user : User) (users idx users' idx' : Bucket)
      → Linked kv json users idx
      → (r : Removed kv json user users idx users' idx')
      → IsDeleted user r.name (both kv json users idx) (both kv json users' idx')
  unfolding user_exists get_user_by_id
  Removed-IsDeleted user users idx users' idx' linked r =
      let at_name = get-users' kv json user users idx users' idx' linked r in
      let at_id = get-idx' kv json user users idx users' idx' linked r in
      let (t, u, found, read, k) = linked.indexed (itob user.id) r.name r.entry in
      record {
        was = (u, ground (arith, r.entry, found, read), (linked.named r.name t u found read).0);
        no_id = ground (arith, at_id (itob user.id), text_eq_refl (itob user.id));
        no_name = ground (arith, at_name r.name, text_eq_refl r.name);
        others = λ j ne. ground (arith, at_name j, text_eq_iff r.name j);
      }

  -- When a user is deleted without an error, it was found by its id, and now neither its id nor its
  -- name is found; every other name keeps its user.
  pub delete_user_lookup :
      (user : User) (db db' : State kv json)
      → IsConsistent kv json db
      → delete_user kv json user db ≡ (none, db')
      → (name : Text) × IsDeleted user name db db'
  unfolding delete_user
  delete_user_lookup user db db' (users, idx, e, linked) h =
      let done = update-eq-none kv json (delete_user_tx kv json user) db db' h in
      let (users', idx', is, r) =
        delete_user_tx_steps kv json user users idx db'
          (ap (delete_user_tx kv json user) (sym e) ∙ done) in
      (
        r.name,
        subst₂ (IsDeleted user r.name) (sym e) (sym is)
            (Removed-IsDeleted user users idx users' idx' linked r),
      )
