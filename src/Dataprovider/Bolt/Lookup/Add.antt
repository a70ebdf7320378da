-- ===== src/Dataprovider/Bolt/Lookup/Add.antt =====
-- The lookups after `addUser`.
use mathlib.Core.Path.{subst₂}
use sshserv.Prelude.{
  ◌+◌, ◌<◌, ◌^◌, ◌≡◌, ◌≢◌, refl, sym, ap, ◌∙◌, inl, inr, none, ok, err, arith, Option-cases,
  Result-cases,
}
use sshserv.Prelude.Int.{ℤ, of_uint64}
use sshserv.Prelude.Text.{Text, text_eq_iff, text_eq_refl}
use sshserv.Dataprovider.User.{User}
use sshserv.Dataprovider.Errors.{record_not_found}
use sshserv.Dataprovider.Validate.{Hashing, validate_user}
use sshserv.Dataprovider.Bolt.Store.{KeyValue, Json, IsEncodable, itob}
use sshserv.Dataprovider.Bolt.Provider.{State, user_exists, get_user_by_id, add_user_tx, add_user}
use sshserv.Dataprovider.Bolt.Linked.{Linked, both, IsConsistent, HasRoom, update-eq-none}
use sshserv.Dataprovider.Bolt.Linked.Add.{
  Added, add_user_tx_steps, decoded, get-users', get-idx', old_key-ne,
}

module _ (kv : KeyValue) (json : Json) where
  open kv use {Bucket, get}
  open json use {unmarshal}

  -- What the lookups say once `v` is added: the name and the new id were free, both lead to the
  -- user under that id, and every other name leads where it led.
  pub record IsAdded (v : User) (id : ℤ) (db db' : State kv json) : Type 0 where
    pub name_free : user_exists kv json v.username db ≡ err record_not_found
    pub id_free : get_user_by_id kv json id db ≡ err record_not_found
    pub by_name : user_exists kv json v.username db' ≡ ok (record v { id = id })
    pub by_id : get_user_by_id kv json id db' ≡ ok (record v { id = id })
    pub others : (j : Text) → j ≢ v.username → user_exists kv json j db' ≡ user_exists kv json j db

  module _ (v : User) (users idx users' idx' : Bucket) (linked : Linked kv json users idx)
      (room : kv.sequence users + 1 < 2 ^ 63) (encodable : IsEncodable json v)
      (a : Added kv json v users idx users' idx') where
    id_free : get idx (itob (of_uint64 a.n)) ≡ none
    id_free = elim (Option-cases (get idx (itob (of_uint64 a.n)))) [
      | inl e ↦ e
      | inr (name, e) ↦
          absurd (old_key-ne kv json v users idx users' idx' linked room encodable a _ name e refl)
    ]

    Added-IsAdded : IsAdded v (of_uint64 a.n) (both kv json users idx) (both kv json users' idx')
    unfolding user_exists get_user_by_id
    Added-IsAdded =
        let at_name = get-users' kv json v users idx users' idx' linked room encodable a in
        let at_id = get-idx' kv json v users idx users' idx' linked room encodable a in
        let read = decoded kv json v users idx users' idx' linked room encodable a in
        record {
          name_free = ground (arith, a.fresh);
          id_free = ground (arith, id_free);
          by_name = ground (arith, at_name v.username, text_eq_refl v.username, read);
          by_id = ground (
            arith,
            at_name v.username,
            at_id (itob (of_uint64 a.n)),
            text_eq_refl v.username,
            text_eq_refl (itob (of_uint64 a.n)),
            read,
          );
          others = λ j ne. ground (arith, at_name j, text_eq_iff v.username j);
        }

  -- When a user is added without an error, it is found by its name and by a fresh id, with the
  -- password that validation stored; every other name keeps its user.
  pub add_user_lookup :
      (lib : Hashing) (user : User) (db db' : State kv json)
      → IsConsistent kv json db
      → HasRoom kv json db
      → ((v : User) → validate_user lib user ≡ ok v → IsEncodable json v)
      → add_user kv json lib user db ≡ (none, db')
      → (v : User) × (id : ℤ) × (validate_user lib user ≡ ok v) × IsAdded v id db db'
  unfolding add_user
  add_user_lookup lib user db db' (users, idx, e, linked) room encodable h =
      elim (Result-cases (validate_user lib user)) [
        | inl (x, refused) ↦ cc (rw (refused, add_user) at h)
        | inr (v, valid) ↦
            let done =
              update-eq-none kv json (add_user_tx kv json v) db db' (rw (valid, add_user) at h) in
            let (users', idx', is, a) =
              add_user_tx_steps kv json v users idx db'
                (ap (add_user_tx kv json v) (sym e) ∙ done) in
            (
              v,
              of_uint64 a.n,
              valid,
              subst₂ (IsAdded v (of_uint64 a.n)) (sym e) (sym is) (
                  Added-IsAdded v users idx users' idx' linked (room users (ap (λ d. d.users) e))
                    (encodable v valid) a),
            )
      ]
