-- ===== src/Dataprovider/Bolt/Linked/Add.antt =====
-- `addUser` keeps the buckets linked.
use sshserv.Prelude.{
  ℕ, ◌+◌, ◌≤◌, ◌<◌, ◌^◌, ◌≡◌, ◌≢◌, sym, ap, ◌∙◌, inl, inr, none, some, ok, arith, Bool-cases,
  Option-cases, Result-cases, if◌then◌else◌,
}
use sshserv.Prelude.Int.{pos, of_uint64}
use sshserv.Prelude.Text.{Text, text_eq, text_eq_iff, text_eq_refl}
use sshserv.Dataprovider.User.{User}
use sshserv.Dataprovider.Validate.{Hashing, validate_user}
use sshserv.Dataprovider.Bolt.Store.{KeyValue, Json, IsEncodable, unmarshal-marshal_encodable, itob}
use sshserv.Dataprovider.Bolt.Provider.{State, add_user_tx, add_user}
use sshserv.Dataprovider.Bolt.Id.{itob-injective}
use sshserv.Dataprovider.Bolt.Linked.{Linked, both, IsConsistent, HasRoom, update_cases}

module _ (kv : KeyValue) (json : Json) where
  open kv use {Bucket, get, put, sequence, next_sequence}
  open json use {marshal, unmarshal}

  -- The steps of a successful `add_user_tx`.
  pub record Added (user : User) (users idx users' idx' : Bucket) : Type 0 where
    pub n : ℕ
    pub users₁ : Bucket
    pub buf : Text
    pub fresh : get users user.username ≡ none
    pub numbered : next_sequence users ≡ some (n, users₁)
    pub encoded : marshal (record user { id = of_uint64 n }) ≡ some buf
    pub stored : put users₁ user.username buf ≡ some users'
    pub entered : put idx (itob (of_uint64 n)) user.username ≡ some idx'

  pub add_user_tx_steps :
      (user : User) (users idx : Bucket) (db' : State kv json)
      → add_user_tx kv json user (both kv json users idx) ≡ ok db'
      → (users' : Bucket) × (idx' : Bucket) × (db' ≡ both kv json users' idx')
        × Added user users idx users' idx'
  unfolding add_user_tx
  add_user_tx_steps user users idx db' h = elim (Option-cases (get users user.username)) [
    | inr (t, e) ↦ absurd (ground arith)
    | inl fresh ↦ elim (Option-cases (next_sequence users)) [
      | inl e ↦ absurd (ground arith)
      | inr ((n, users₁), numbered) ↦
          elim (Option-cases (marshal (record user { id = of_uint64 n }))) [
            | inl e ↦ absurd (ground arith)
            | inr (buf, encoded) ↦ elim (Option-cases (put users₁ user.username buf)) [
              | inl e ↦ absurd (ground arith)
              | inr (users', stored) ↦
                  elim (Option-cases (put idx (itob (of_uint64 n)) user.username)) [
                    | inl e ↦ absurd (ground arith)
                    | inr (idx', entered) ↦ (
                      users',
                      idx',
                      ground arith,
                      record {
                        n = n;
                        users₁ = users₁;
                        buf = buf;
                        fresh = fresh;
                        numbered = numbered;
                        encoded = encoded;
                        stored = stored;
                        entered = entered;
                      },
                    )
                  ]
            ]
          ]
    ]
  ]

  -- One addition, over what its parameters share.
  module _ (user : User) (users idx users' idx' : Bucket) (linked : Linked kv json users idx)
      (room : sequence users + 1 < 2 ^ 63) (encodable : IsEncodable json user)
      (a : Added user users idx users' idx') where
    abbrev pub new_user : User
    new_user = record user { id = of_uint64 a.n }

    pub n-eq : a.n ≡ sequence users + 1
    n-eq = (kv.next_sequence_lem users a.users₁ a.n a.numbered).0

    pub id-eq : of_uint64 a.n ≡ pos a.n
    id-eq = ground (arith, n-eq, room)

    pub decoded : unmarshal a.buf ≡ some new_user
    decoded = unmarshal-marshal_encodable json new_user a.buf a.encoded (record {
      username = encodable.username;
      password = encodable.password;
      home_dir = encodable.home_dir;
      public_keys = encodable.public_keys;
      permissions = encodable.permissions;
    })

    pub get-users' :
        (j : Text) → get users' j ≡ (if text_eq user.username j then some a.buf else get users j)
    get-users' j =
        rw (← kv.get-next_sequence users a.users₁ a.n a.numbered j)
          (kv.get-put a.users₁ users' user.username a.buf a.stored j)

    pub get-idx' :
        (k : Text)
        → get idx' k ≡ (if text_eq (itob (of_uint64 a.n)) k then some user.username else get idx k)
    get-idx' k = kv.get-put idx idx' (itob (of_uint64 a.n)) user.username a.entered k

    sequence-users' : sequence users' ≡ a.n
    sequence-users' =
        kv.sequence-put a.users₁ users' user.username a.buf a.stored
        ∙ (kv.next_sequence_lem users a.users₁ a.n a.numbered).1

    -- The new key is in no older entry.
    pub old_key-ne : (key name : Text) → get idx key ≡ some name → itob (of_uint64 a.n) ≢ key
    old_key-ne key name h e =
        let (m, is_m, le) = linked.handed_out key name h in
        let same : pos a.n ≡ pos m =
          itob-injective (pos a.n) (pos m) (omega (arith, n-eq)) (omega arith)
            (ap itob (sym id-eq) ∙ e ∙ is_m) in
        absurd (ground (arith, same, n-eq, le))

    Added-named :
        (name t : Text) (u : User)
        → get users' name ≡ some t
        → unmarshal t ≡ some u
        → (u.username ≡ name) × (get idx' (itob u.id) ≡ some name)
    Added-named name t u h d = elim (Bool-cases (text_eq user.username name)) [
      | inl y ↦ ground (
        arith,
        h,
        d,
        y,
        decoded,
        get-users' name,
        text_eq_iff user.username name,
        get-idx' (itob (of_uint64 a.n)),
        text_eq_refl (itob (of_uint64 a.n)),
      )
      | inr m ↦
          let (is_name, entry) = linked.named name t u (ground (arith, h, m, get-users' name)) d in
          (
            is_name,
            ground (
              arith,
              entry,
              get-idx' (itob u.id),
              old_key-ne (itob u.id) name entry,
              text_eq_iff (itob (of_uint64 a.n)) (itob u.id),
            ),
          )
    ]

    Added-indexed :
        (key name : Text)
        → get idx' key ≡ some name
        → (t : Text) × (u : User) × (get users' name ≡ some t)
          × (unmarshal t ≡ some u)
          × (key ≡ itob u.id)
    Added-indexed key name h = elim (Bool-cases (text_eq (itob (of_uint64 a.n)) key)) [
      | inl y ↦ (
        a.buf,
        new_user,
        ground (arith, h, y, get-idx' key, get-users' name, text_eq_refl name),
        decoded,
        sym ((text_eq_iff _ _).0 y),
      )
      | inr m ↦
          let (t, u, old, d, k) = linked.indexed key name (ground (arith, h, m, get-idx' key)) in
          (
            t,
            u,
            ground (arith, old, get-users' name, a.fresh, text_eq_iff user.username name),
            d,
            k,
          )
    ]

    Added-handed_out :
        (key name : Text)
        → get idx' key ≡ some name
        → (n : ℕ) × (key ≡ itob (pos n)) × (n ≤ sequence users')
    Added-handed_out key name h = elim (Bool-cases (text_eq (itob (of_uint64 a.n)) key)) [
      | inl y ↦ (a.n, sym ((text_eq_iff _ _).0 y) ∙ ap itob id-eq, omega (arith, sequence-users'))
      | inr m ↦
          let (n, k, le) = linked.handed_out key name (ground (arith, h, m, get-idx' key)) in
          (n, k, omega (arith, sequence-users', n-eq))
    ]

    Added-readable :
        (name t : Text) → get users' name ≡ some t → (u : User) × (unmarshal t ≡ some u)
    Added-readable name t h = elim (Bool-cases (text_eq user.username name)) [
      | inl y ↦ (new_user, ground (arith, h, y, decoded, get-users' name))
      | inr m ↦ linked.readable name t (ground (arith, h, m, get-users' name))
    ]

    Added-Linked : Linked kv json users' idx'
    Added-Linked = record {
      readable = Added-readable;
      named = Added-named;
      indexed = Added-indexed;
      handed_out = Added-handed_out;
      in_range = omega (arith, sequence-users', n-eq);
    }

  add_user_tx-IsConsistent :
      (user : User) (db db' : State kv json)
      → IsConsistent kv json db
      → HasRoom kv json db
      → IsEncodable json user
      → add_user_tx kv json user db ≡ ok db'
      → IsConsistent kv json db'
  add_user_tx-IsConsistent user db db' (users, idx, e, linked) room encodable h =
      let (users', idx', is, a) =
        add_user_tx_steps user users idx db' (ap (add_user_tx kv json user) (sym e) ∙ h) in
      (
        users',
        idx',
        is,
        Added-Linked user users idx users' idx' linked (room users (ap (λ d. d.users) e)) encodable
            a,
      )

  -- Adding a user keeps the buckets consistent, whether it succeeds or fails, provided that the
  -- user as validated is valid UTF-8 and the id sequence has a number left.
  pub add_user-IsConsistent :
      (lib : Hashing) (user : User) (db : State kv json)
      → IsConsistent kv json db
      → HasRoom kv json db
      → ((v : User) → validate_user lib user ≡ ok v → IsEncodable json v)
      → IsConsistent kv json (add_user kv json lib user db).1
  unfolding add_user
  add_user-IsConsistent lib user db c room encodable =
      elim (Result-cases (validate_user lib user)) [
        | inl (e, refused) ↦ rw (refused, add_user) c
        | inr (v, valid) ↦
            rw (valid, add_user)
              (update_cases kv json (IsConsistent kv json) (add_user_tx kv json v) db c
                (λ db' h. add_user_tx-IsConsistent v db db' c room (encodable v valid) h))
      ]
