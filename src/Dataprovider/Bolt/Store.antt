-- ===== src/Dataprovider/Bolt/Store.antt =====
-- What bolt.go uses of bbolt and of encoding/json, with their documented behaviour; the database
-- state; the bytes of an id.
use sshserv.Prelude.{
  ℕ, ◌+◌, ◌/◌, ◌%◌, ◌^◌, ◌≡◌, Bool, Option, none, some, List, [], ◌∷◌, Result, ok, err, All,
  if◌then◌else◌,
}
use sshserv.Prelude.Int.{ℤ, to_uint64}
use sshserv.Prelude.Text.{Text, text_eq}
use sshserv.Dataprovider.User.{User}
use sshserv.Dataprovider.Errors.{ProviderError, missing_buckets}

-- A bucket of bbolt inside a transaction. `none` is an error of the library.
pub record KeyValue : Type 1 where
  pub Bucket : Type 0
  pub get : Bucket → Text → Option Text
  pub put : Bucket → Text → Text → Option Bucket
  pub delete : Bucket → Text → Option Bucket
  pub sequence : Bucket → ℕ
  pub next_sequence : Bucket → Option (ℕ × Bucket)
  -- what a cursor visits from `First` by `Next`
  pub entries : Bucket → List (Text × Text)
  -- whether the commit of a read-write transaction that leaves these buckets succeeds
  pub commits : Option Bucket → Option Bucket → Bool
  pub get-put :
      (b b' : Bucket) (k v : Text)
      → put b k v ≡ some b'
      → (j : Text) → get b' j ≡ (if text_eq k j then some v else get b j)
  pub get-delete :
      (b b' : Bucket) (k : Text)
      → delete b k ≡ some b'
      → (j : Text) → get b' j ≡ (if text_eq k j then none else get b j)
  pub get-next_sequence :
      (b b' : Bucket) (n : ℕ) → next_sequence b ≡ some (n, b') → (j : Text) → get b' j ≡ get b j
  pub next_sequence_lem :
      (b b' : Bucket) (n : ℕ)
      → next_sequence b ≡ some (n, b')
      → (n ≡ sequence b + 1) × (sequence b' ≡ n)
  pub sequence-put : (b b' : Bucket) (k v : Text) → put b k v ≡ some b' → sequence b' ≡ sequence b
  pub sequence-delete : (b b' : Bucket) (k : Text) → delete b k ≡ some b' → sequence b' ≡ sequence b

-- `json.Marshal` and `json.Unmarshal` at users. A user whose texts are valid UTF-8 survives them.
pub record Json : Type 1 where
  pub marshal : User → Option Text
  pub unmarshal : Text → Option User
  pub IsUtf8 : Text → Type 0
  pub unmarshal-marshal :
      (u : User) (t : Text)
      → marshal u ≡ some t
      → IsUtf8 u.username
      → IsUtf8 u.password
      → IsUtf8 u.home_dir
      → All IsUtf8 u.public_keys
      → All IsUtf8 u.permissions
      → unmarshal t ≡ some u
  -- what is not UTF-8 is replaced when it is read
  pub utf8-unmarshal :
      (u : User) (t : Text)
      → unmarshal t ≡ some u
      → IsUtf8 u.username
        × IsUtf8 u.password
        × IsUtf8 u.home_dir
        × All IsUtf8 u.public_keys
        × All IsUtf8 u.permissions

pub record IsEncodable (json : Json) (u : User) : Type 0 where
  pub username : json.IsUtf8 u.username
  pub password : json.IsUtf8 u.password
  pub home_dir : json.IsUtf8 u.home_dir
  pub public_keys : All json.IsUtf8 u.public_keys
  pub permissions : All json.IsUtf8 u.permissions

pub unmarshal-marshal_encodable :
    (json : Json) (u : User) (t : Text)
    → json.marshal u ≡ some t
    → IsEncodable json u
    → json.unmarshal t ≡ some u
unmarshal-marshal_encodable json u t e h =
    json.unmarshal-marshal u t e h.username h.password h.home_dir h.public_keys h.permissions

pub unmarshal-IsEncodable :
    (json : Json) (u : User) (t : Text) → json.unmarshal t ≡ some u → IsEncodable json u
unmarshal-IsEncodable json u t e =
    let (a, b, c, d, f) = json.utf8-unmarshal u t e in
    record { username = a; password = b; home_dir = c; public_keys = d; permissions = f }

-- The two buckets by name, `none` where `tx.Bucket` gives nil.
pub record Db (Bucket : Type 0) : Type 0 where
  pub users : Option Bucket
  pub users_id_idx : Option Bucket

-- `getBuckets`
unfoldable pub get_buckets : {Bucket : Type 0} → Db Bucket → Result ProviderError (Bucket × Bucket)
get_buckets db = elim db.users [
  | none ↦ err missing_buckets
  | some users ↦ elim db.users_id_idx [ none ↦ err missing_buckets | some idx ↦ ok (users, idx) ]
]

-- `binary.BigEndian.PutUint64`
abbrev put_uint64 : ℕ → Text
put_uint64 n =
    (n / 2 ^ 56 % 256)
    ∷ (n / 2 ^ 48 % 256)
    ∷ (n / 2 ^ 40 % 256)
    ∷ (n / 2 ^ 32 % 256)
    ∷ (n / 2 ^ 24 % 256)
    ∷ (n / 2 ^ 16 % 256)
    ∷ (n / 2 ^ 8 % 256)
    ∷ (n % 256)
    ∷ []

-- `itob`
unfoldable pub itob : ℤ → Text
itob v = put_uint64 (to_uint64 v)
