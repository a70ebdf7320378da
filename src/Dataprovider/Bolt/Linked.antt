-- ===== src/Dataprovider/Bolt/Linked.antt =====
-- The invariant that ties the two buckets together.
pub mod Add
pub mod Delete
pub mod Replace
pub mod Update
use sshserv.Prelude.{
  ℕ, suc, ◌+◌, ◌≤◌, ◌<◌, ◌^◌, ◌≡◌, ◌≢◌, refl, sym, ap, ◌∙◌, ◌⊎◌, inl, inr, Bool, true, false,
  Option, none, some, Result, ok, err, arith, Bool-cases, Option-cases, Result-cases, if◌then◌else◌,
  guard, or_err, ◌>>=◌, ◌>>◌, not,
}
use mathlib.Core.Path.{subst₂}
use mathlib.Core.Option.{some-injective}
use sshserv.Prelude.Int.{ℤ, pos, of_uint64, InInt64}
use sshserv.Prelude.Text.{Text, text_eq, text_eq_iff, text_eq_refl}
use sshserv.Dataprovider.User.{User}
use sshserv.Dataprovider.Errors.{ProviderError}
use sshserv.Dataprovider.Bolt.Store.{
  KeyValue, Json, IsEncodable, unmarshal-marshal_encodable, Db, get_buckets, itob,
}
use sshserv.Dataprovider.Bolt.Provider.{absent, State, update, add_user_tx, delete_user_tx}
use sshserv.Dataprovider.Bolt.Id.{itob-injective}

module _ (kv : KeyValue) (json : Json) where
  open kv use {Bucket, get, put, delete, sequence, next_sequence}
  open json use {marshal, unmarshal}

  -- Every stored value is a user, and it stands under its own name and its id leads back to it; every index entry
  -- leads to a user with that id; every id was handed out by the sequence, which is not exhausted.
  pub record Linked (users idx : Bucket) : Type 0 where
    pub readable : (name t : Text) → get users name ≡ some t → (u : User) × (unmarshal t ≡ some u)
    pub named :
        (name t : Text) (u : User)
        → get users name ≡ some t
        → unmarshal t ≡ some u
        → (u.username ≡ name) × (get idx (itob u.id) ≡ some name)
    pub indexed :
        (key name : Text)
        → get idx key ≡ some name
        → (t : Text) × (u : User) × (get users name ≡ some t)
          × (unmarshal t ≡ some u)
          × (key ≡ itob u.id)
    pub handed_out :
        (key name : Text)
        → get idx key ≡ some name
        → (n : ℕ) × (key ≡ itob (pos n)) × (n ≤ sequence users)
    pub in_range : sequence users < 2 ^ 63

  abbrev pub both : Bucket → Bucket → State kv json
  both users idx = record { users = some users; users_id_idx = some idx }

  -- The database has both buckets, and they are linked.
  abbrev pub IsConsistent : State kv json → Type 0
  IsConsistent db = (users : Bucket) × (idx : Bucket) × (db ≡ both users idx) × Linked users idx

  -- The buckets of a consistent database are linked, whichever way they are named.
  pub Linked-of :
      (users idx : Bucket) {db : State kv json}
      → db ≡ both users idx
      → IsConsistent db
      → Linked users idx
  Linked-of users idx is (users₁, idx₁, e, linked) =
      let p : both users₁ idx₁ ≡ both users idx = sym e ∙ is in
      subst₂ Linked (some-injective _ _ (ap (λ (d : State kv json). d.users) p))
        (some-injective _ _ (ap (λ (d : State kv json). d.users_id_idx) p)) linked

  -- Every new user still gets an id of 63 bits.
  abbrev pub HasRoom : State kv json → Type 0
  HasRoom db = (users : Bucket) → db.users ≡ some users → sequence users + 1 < 2 ^ 63

  -- An update leaves the state that its function gives, or the one before.
  pub update_cases :
      (P : State kv json → Type 0) (f : State kv json → Result ProviderError (State kv json))
      (db : State kv json)
      → P db
      → ((db' : State kv json) → f db ≡ ok db' → P db')
      → P (update kv json f db).1
  unfolding update
  update_cases P f db p step = elim (Result-cases (f db)) [
    | inl (e, failed) ↦ rw (failed, update) p
    | inr (db', done) ↦ elim (Bool-cases (kv.commits db'.users db'.users_id_idx)) [
      | inl y ↦ rw (done, update) (rw y (step db' done))
      | inr n ↦ rw (done, update) (rw n p)
    ]
  ]

  -- An update that reports no error is the one of its function.
  pub update-eq-none :
      (f : State kv json → Result ProviderError (State kv json)) (db db' : State kv json)
      → update kv json f db ≡ (none, db')
      → f db ≡ ok db'
  unfolding update
  update-eq-none f db db' h = elim (Result-cases (f db)) [
    | inl (e, failed) ↦ cc (rw (failed, update) at h)
    | inr (d, done) ↦ elim (Bool-cases (kv.commits d.users d.users_id_idx)) [
      | inl y ↦
          done
          ∙ ap ok (
              ap (λ (o : Option ProviderError × State kv json). o.1)
                (rw y at (rw (done, update) at h)))
      | inr n ↦ cc (rw n at (rw (done, update) at h))
    ]
  ]
