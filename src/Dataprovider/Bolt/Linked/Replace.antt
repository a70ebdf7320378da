-- ===== src/Dataprovider/Bolt/Linked/Replace.antt =====
-- `updateUser` and `updateQuota` put a record under a name that is there. They keep the buckets
-- linked if the record keeps the name and the id.
use sshserv.Prelude.{◌≡◌, inl, inr, some, arith, Bool-cases, if◌then◌else◌}
use sshserv.Prelude.Text.{Text, text_eq, text_eq_iff}
use sshserv.Dataprovider.User.{User}
use sshserv.Dataprovider.Bolt.Store.{KeyValue, Json, IsEncodable, unmarshal-marshal_encodable, itob}
use sshserv.Dataprovider.Bolt.Linked.{Linked}

module _ (kv : KeyValue) (json : Json) where
  open kv use {Bucket, get, put, sequence}
  open json use {marshal, unmarshal}

  -- A record written over another one of the same name and id.
  pub record Replaced (name : Text) (old new : User) (users users' : Bucket) : Type 0 where
    pub t : Text
    pub buf : Text
    pub found : get users name ≡ some t
    pub read : unmarshal t ≡ some old
    pub encoded : marshal new ≡ some buf
    pub stored : put users name buf ≡ some users'

  module _ (name : Text) (old new : User) (users idx users' : Bucket)
      (linked : Linked kv json users idx) (r : Replaced name old new users users')
      (same_name : new.username ≡ old.username) (same_id : new.id ≡ old.id)
      (encodable : IsEncodable json new) where
    get-users' : (j : Text) → get users' j ≡ (if text_eq name j then some r.buf else get users j)
    get-users' j = kv.get-put users users' name r.buf r.stored j

    decoded : unmarshal r.buf ≡ some new
    decoded = unmarshal-marshal_encodable json new r.buf r.encoded encodable

    Replaced-named :
        (j t : Text) (u : User)
        → get users' j ≡ some t
        → unmarshal t ≡ some u
        → (u.username ≡ j) × (get idx (itob u.id) ≡ some j)
    Replaced-named j t u h d = elim (Bool-cases (text_eq name j)) [
      | inl y ↦ ground (
        arith,
        h,
        d,
        y,
        decoded,
        same_name,
        same_id,
        get-users' j,
        text_eq_iff name j,
        linked.named name r.t old r.found r.read,
      )
      | inr m ↦ linked.named j t u (ground (arith, h, m, get-users' j)) d
    ]

    Replaced-indexed :
        (key j : Text)
        → get idx key ≡ some j
        → (t : Text) × (u : User) × (get users' j ≡ some t)
          × (unmarshal t ≡ some u)
          × (key ≡ itob u.id)
    Replaced-indexed key j h =
        let (t, u, was, d, k) = linked.indexed key j h in
        elim (Bool-cases (text_eq name j)) [
          | inl y ↦ (
            r.buf,
            new,
            ground (arith, y, get-users' j),
            decoded,
            ground (arith, y, was, d, k, r.found, r.read, same_id, text_eq_iff name j),
          )
          | inr m ↦ (t, u, ground (arith, was, m, get-users' j), d, k)
        ]

    Replaced-readable : (j t : Text) → get users' j ≡ some t → (u : User) × (unmarshal t ≡ some u)
    Replaced-readable j t h = elim (Bool-cases (text_eq name j)) [
      | inl y ↦ (new, ground (arith, h, y, decoded, get-users' j))
      | inr m ↦ linked.readable j t (ground (arith, h, m, get-users' j))
    ]

    pub Replaced-Linked : Linked kv json users' idx
    Replaced-Linked = record {
      readable = Replaced-readable;
      named = Replaced-named;
      indexed = Replaced-indexed;
      handed_out = λ key j h.
          let (n, k, le) = linked.handed_out key j h in
          (n, k, omega (arith, kv.sequence-put users users' name r.buf r.stored));
      in_range = omega (arith, linked.in_range, kv.sequence-put users users' name r.buf r.stored);
    }
