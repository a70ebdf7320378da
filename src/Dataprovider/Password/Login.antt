-- ===== src/Dataprovider/Password/Login.antt =====
-- Who may log in: by password only through a matching hash, by key only with an authorized one.
use sshserv.Prelude.{
  ◌≡◌, ◌≢◌, ◌↔◌, refl, ◌∙◌, ap, inl, inr, true, false, some, List, [], ◌∷◌, ok, arith, Bool-cases,
  Option-cases, length, ◌<◌,
}
use sshserv.Prelude.Text.{Text, text_eq, text_eq_iff, has_prefix}
use sshserv.Prelude.Strings.{split, parse_int64}
use sshserv.Prelude.Base64.{base64_encode}
use sshserv.Utils.{is_string_prefix_in_slice}
use sshserv.Dataprovider.User.{User}
use sshserv.Dataprovider.Validate.{hash_pwd_prefixes, argon_pwd_prefix, bcrypt_pwd_prefix}
use sshserv.Dataprovider.Password.{
  HashFunc, Checking, hash_size, hash_func, compare_parts, compare_pbkdf2_password_and_hash,
  match_password, check_user_and_pass, find_pub_key, check_user_and_pub_key,
}

-- What a stored hash says about a password: the three schemes, each by the library that decides it.
pub data Proves (lib : Checking) (password stored : Text) : Type 0 where
  by_argon :
      has_prefix stored argon_pwd_prefix ≡ true
      → lib.compare_argon password stored ≡ some true
      → Proves lib password stored
  by_bcrypt :
      has_prefix stored bcrypt_pwd_prefix ≡ true
      → lib.compare_bcrypt stored password ≡ true
      → Proves lib password stored
  by_pbkdf2 :
      (hash : HashFunc) (iterations : Text) (n : _) (salt expected scheme empty : Text)
      → hash_func stored ≡ some hash
      → split b'$' stored ≡ empty ∷ scheme ∷ iterations ∷ salt ∷ expected ∷ []
      → parse_int64 iterations ≡ some n
      → base64_encode (lib.pbkdf2_key password salt n (hash_size hash) hash) ≡ expected
      → Proves lib password stored

module _ (lib : Checking) (password stored : Text) where
  compare_parts-Proves :
      (parts : List Text)
      → split b'$' stored ≡ parts
      → compare_parts lib password stored parts ≡ ok true
      → Proves lib password stored
  unfolding compare_parts
  compare_parts-Proves (a ∷ b ∷ c ∷ d ∷ e ∷ []) s h = elim (Option-cases (hash_func stored)) [
    | inl no_hash ↦ cc (rw (no_hash, compare_parts) at h)
    | inr (hash, is_hash) ↦ elim (Option-cases (parse_int64 c)) [
      | inl no_int ↦ cc (rw (is_hash, no_int, compare_parts) at h)
      | inr (n, is_int) ↦
          by_pbkdf2 hash c n d e b a is_hash s is_int
            ((text_eq_iff _ _).0 (ground (arith, h, is_hash, is_int)))
    ]
  ]
  compare_parts-Proves _ s h = cc

  match_password-Proves : match_password lib stored password ≡ ok true → Proves lib password stored
  unfolding match_password compare_pbkdf2_password_and_hash
  match_password-Proves h = elim (Bool-cases (has_prefix stored argon_pwd_prefix)) [
    | inl y ↦ by_argon y (ground (arith, h, y))
    | inr n ↦ elim (Bool-cases (has_prefix stored bcrypt_pwd_prefix)) [
      | inl y ↦ by_bcrypt y (ground (arith, h, n, y))
      | inr m ↦ compare_parts-Proves (split b'$' stored) refl (ground (arith, h, n, m))
    ]
  ]

-- A password login that succeeds returns the user itself, whose stored password is not empty and
-- is a hash in one of the three schemes, proved to match by the library of that scheme.
pub check_user_and_pass_sound :
    (lib : Checking) (user v : User) (password : Text)
    → check_user_and_pass lib user password ≡ ok v
    → (v ≡ user) × (user.password ≢ []) × Proves lib password user.password
unfolding check_user_and_pass
check_user_and_pass_sound lib user v password h =
    (ground arith, ground arith, match_password-Proves lib password user.password (ground arith))

-- A stored password without a known hash prefix lets nobody in, whatever is typed.
pub clear_text_refused :
    (lib : Checking) (user v : User) (password : Text)
    → is_string_prefix_in_slice user.password hash_pwd_prefixes ≡ false
    → check_user_and_pass lib user password ≢ ok v
unfolding check_user_and_pass is_string_prefix_in_slice
clear_text_refused lib user v password n h = ground arith

-- The keys before an authorized one that matches all parse, and none of them matches.
pub data Authorizes (lib : Checking) (pub_key : Text) : List Text → Type 0 where
  here :
      {k : Text} {ks : List Text}
      → lib.parse_authorized_key k ≡ some pub_key
      → Authorizes lib pub_key (k ∷ ks)
  there :
      {k : Text} {ks : List Text} (other : Text)
      → lib.parse_authorized_key k ≡ some other
      → Authorizes lib pub_key ks
      → Authorizes lib pub_key (k ∷ ks)

module _ (lib : Checking) (pub_key : Text) where
  find_pub_key-Authorizes :
      (ks : List Text) → find_pub_key lib ks pub_key ≡ ok tt → Authorizes lib pub_key ks
  unfolding find_pub_key
  find_pub_key-Authorizes [] h = cc
  find_pub_key-Authorizes (k ∷ ks) h = elim (Option-cases (lib.parse_authorized_key k)) [
    | inl e ↦ cc (rw (e, find_pub_key) at h)
    | inr (stored, e) ↦ elim (Bool-cases (text_eq stored pub_key)) [
      | inl y ↦ here (e ∙ ap some ((text_eq_iff stored pub_key).0 y))
      | inr n ↦ there stored e (find_pub_key-Authorizes ks (ground (arith, h, e, n)))
    ]
  ]

  find_pub_key-ok :
      {ks : List Text} → Authorizes lib pub_key ks → find_pub_key lib ks pub_key ≡ ok tt
  unfolding find_pub_key
  find_pub_key-ok (here e) = rw (e, find_pub_key) (ground (arith, text_eq_iff pub_key pub_key))
  find_pub_key-ok (there other e a) = rw (e, find_pub_key) (ground (arith, find_pub_key-ok a))

  Authorizes-pos : {ks : List Text} → Authorizes lib pub_key ks → 0 < length ks
  Authorizes-pos (here e) = omega arith
  Authorizes-pos (there other e a) = omega arith

  -- A key login succeeds exactly if an authorized key of the user is that key and every one before
  -- it parses; it returns the user itself.
  pub check_user_and_pub_key_iff :
      (user v : User)
      → (check_user_and_pub_key lib user pub_key ≡ ok v)
        ↔ ((v ≡ user) × Authorizes lib pub_key user.public_keys)
  unfolding check_user_and_pub_key
  check_user_and_pub_key_iff user v = (
    λ h. (ground arith, find_pub_key-Authorizes user.public_keys (ground arith)),
    λ (e, a). ground (arith, e, Authorizes-pos a, find_pub_key-ok a),
  )
