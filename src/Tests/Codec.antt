-- ===== src/Tests/Codec.antt =====
-- A codec of users that meets the laws asked of encoding/json: numbers, then texts with lengths.
use sshserv.Prelude.{
  ℕ, zero, suc, ◌+◌, ◌*◌, ◌/◌, ◌%◌, ◌==◌, ◌≡◌, refl, sym, ap, Option, none, some, List, [], ◌∷◌,
  ◌++◌, if◌then◌else◌, arith, length, take, drop, All,
}
use mathlib.Core.Option.{some-injective}
use sshserv.Prelude.Int.{ℤ, pos, negsuc}
use sshserv.Prelude.Text.{Text}
use sshserv.Dataprovider.User.{User}
use sshserv.Dataprovider.Bolt.Store.{Json}

abbrev pub int_code : ℤ → ℕ
int_code (pos n) = 2 * n
int_code (negsuc n) = 2 * n + 1

abbrev int_of : ℕ → ℤ
int_of n = if n % 2 == 0 then pos (n / 2) else negsuc (n / 2)

int_of-int_code : (i : ℤ) → int_of (int_code i) ≡ i
int_of-int_code (pos n) = ground arith
int_of-int_code (negsuc n) = ground arith

abbrev pub write : Text → Text → Text
write t r = length t ∷ (t ++ r)

abbrev pub writes_all : List Text → Text → Text
writes_all [] r = r
writes_all (t ∷ ts) r = write t (writes_all ts r)

abbrev pub writes : List Text → Text → Text
writes ts r = length ts ∷ writes_all ts r

abbrev read : Text → Text × Text
read [] = ([], [])
read (n ∷ r) = (take n r, drop n r)

abbrev reads_all : ℕ → Text → List Text × Text
reads_all zero r = ([], r)
reads_all (suc n) r = let later = reads_all n (read r).1 in ((read r).0 ∷ later.0, later.1)

abbrev reads : Text → List Text × Text
reads [] = ([], [])
reads (n ∷ r) = reads_all n r

take-append_length : (t r : Text) → take (length t) (t ++ r) ≡ t
take-append_length [] r = refl
take-append_length (c ∷ t) r = ap (λ s. c ∷ s) (take-append_length t r)

drop-append_length : (t r : Text) → drop (length t) (t ++ r) ≡ r
drop-append_length [] r = refl
drop-append_length (c ∷ t) r = drop-append_length t r

reads_all-writes_all :
    (ts : List Text) (r : Text) → reads_all (length ts) (writes_all ts r) ≡ (ts, r)
reads_all-writes_all [] r = refl
reads_all-writes_all (t ∷ ts) r =
    rw
      (
        take-append_length t (writes_all ts r),
        drop-append_length t (writes_all ts r),
        reads_all-writes_all ts r,
      )
      refl

abbrev pub user_code : User → Text
user_code u =
    int_code u.id
    ∷ int_code u.uid
    ∷ int_code u.gid
    ∷ int_code u.max_sessions
    ∷ int_code u.quota_size
    ∷ int_code u.quota_files
    ∷ int_code u.used_quota_size
    ∷ int_code u.used_quota_files
    ∷ int_code u.last_quota_update
    ∷ int_code u.upload_bandwidth
    ∷ int_code u.download_bandwidth
    ∷ write u.username
        (write u.password (write u.home_dir (writes u.public_keys (writes u.permissions []))))

abbrev user_of : Text → Option User
user_of (a ∷ b ∷ c ∷ d ∷ e ∷ f ∷ g ∷ h ∷ i ∷ j ∷ k ∷ r) =
    let name = read r in
    let pwd = read name.1 in
    let home = read pwd.1 in
    let keys = reads home.1 in
    let perms = reads keys.1 in
    some (record {
      id = int_of a;
      uid = int_of b;
      gid = int_of c;
      max_sessions = int_of d;
      quota_size = int_of e;
      quota_files = int_of f;
      used_quota_size = int_of g;
      used_quota_files = int_of h;
      last_quota_update = int_of i;
      upload_bandwidth = int_of j;
      download_bandwidth = int_of k;
      username = name.0;
      password = pwd.0;
      home_dir = home.0;
      public_keys = keys.0;
      permissions = perms.0;
    })
user_of _ = none

user_of-user_code : (u : User) → user_of (user_code u) ≡ some u
user_of-user_code u =
    rw
      (
        int_of-int_code u.id,
        int_of-int_code u.uid,
        int_of-int_code u.gid,
        int_of-int_code u.max_sessions,
        int_of-int_code u.quota_size,
        int_of-int_code u.quota_files,
        int_of-int_code u.used_quota_size,
        int_of-int_code u.used_quota_files,
        int_of-int_code u.last_quota_update,
        int_of-int_code u.upload_bandwidth,
        int_of-int_code u.download_bandwidth,
        take-append_length u.username
            (write u.password (write u.home_dir (writes u.public_keys (writes u.permissions [])))),
        drop-append_length u.username
            (write u.password (write u.home_dir (writes u.public_keys (writes u.permissions [])))),
        take-append_length u.password
            (write u.home_dir (writes u.public_keys (writes u.permissions []))),
        drop-append_length u.password
            (write u.home_dir (writes u.public_keys (writes u.permissions []))),
        take-append_length u.home_dir (writes u.public_keys (writes u.permissions [])),
        drop-append_length u.home_dir (writes u.public_keys (writes u.permissions [])),
        reads_all-writes_all u.public_keys (writes u.permissions []),
        reads_all-writes_all u.permissions [],
      )
      refl

pub All-unit : (ts : List Text) → All (λ t. Unit {0}) ts
All-unit [] = tt
All-unit (t ∷ ts) = (tt, All-unit ts)

pub unmarshal-marshal_codec :
    (u : User) (t : Text) → ◌≡◌ {A = Option Text} (some (user_code u)) (some t) → user_of t ≡ some u
unmarshal-marshal_codec u t e = rw (sym (some-injective (user_code u) t e)) (user_of-user_code u)

abbrev pub codec : Json
codec = record {
  marshal = λ u. some (user_code u);
  unmarshal = user_of;
  IsUtf8 = λ t. Unit;
  unmarshal-marshal = λ u t e _ _ _ _ _. unmarshal-marshal_codec u t e;
  utf8-unmarshal = λ u t e. (tt, tt, tt, All-unit u.public_keys, All-unit u.permissions);
}
