-- ===== src/Dataprovider/Validate/Accepts.antt =====
-- What `validateUser` accepts, and what it stores.
use sshserv.Prelude.{
  ℕ, suc, ◌<◌, ◌≡◌, ◌≢◌, refl, ◌⊎◌, inl, inr, true, false, none, some, List, [], ◌∷◌, ok, arith,
  length, All, Bool-cases, Option-cases,
}
use sshserv.Prelude.Text.{Text, has_prefix, text_eq, text_eq_iff}
use sshserv.Utils.{is_string_in_slice, is_string_prefix_in_slice}
use mathlib.Core.Path.{subst}
use sshserv.Prelude.Strings.{index_byte}
use sshserv.Dataprovider.User.{User, perm_tcp_forward}
use sshserv.Dataprovider.Validate.{
  Hashing, argon_pwd_prefix, valid_perms, hash_pwd_prefixes, perm_name, check_permissions, is_abs,
  check_keys, stored_password, validate_user,
}

abbrev pub IsValidPerm : Text → Type 0
IsValidPerm p = is_string_in_slice (perm_name p) valid_perms ≡ true

check_permissions-All : (ps : List Text) → check_permissions ps ≡ ok tt → All IsValidPerm ps
unfolding check_permissions
check_permissions-All [] h = tt
check_permissions-All (p ∷ ps) h =
    elim (Bool-cases (is_string_in_slice (perm_name p) valid_perms)) [
      | inl y ↦ (y, check_permissions-All ps (rw y at h))
      | inr n ↦ cc (rw n at h)
    ]

check_permissions-ok : (ps : List Text) → All IsValidPerm ps → check_permissions ps ≡ ok tt
unfolding check_permissions
check_permissions-ok [] h = refl
check_permissions-ok (p ∷ ps) h = rw h.0 (check_permissions-ok ps h.1)

module _ (lib : Hashing) where
  abbrev pub IsKey : Text → Type 0
  IsKey k = lib.parse_authorized_key k ≢ none

  check_keys-All : (i : ℕ) (ks : List Text) → check_keys lib i ks ≡ ok tt → All IsKey ks
  unfolding check_keys
  check_keys-All i [] h = tt
  check_keys-All i (k ∷ ks) h = elim (Option-cases (lib.parse_authorized_key k)) [
    | inl e ↦ cc (rw (e, check_keys) at h)
    | inr (a, e) ↦ (λ n. cc (e, n), check_keys-All (suc i) ks (rw (e, check_keys) at h))
  ]

  check_keys-ok : (i : ℕ) (ks : List Text) → All IsKey ks → check_keys lib i ks ≡ ok tt
  unfolding check_keys
  check_keys-ok i [] h = refl
  check_keys-ok i (k ∷ ks) h = elim (Option-cases (lib.parse_authorized_key k)) [
    | inl e ↦ absurd (h.0 e)
    | inr (a, e) ↦ rw (e, check_keys) (check_keys-ok (suc i) ks h.1)
  ]

  -- The password that is stored: an empty or already hashed one as it is, any other by its hash.
  abbrev pub StoredPassword : Text → Text → Type 0
  StoredPassword given stored =
      ((stored ≡ given)
        × ((given ≡ []) ⊎ (is_string_prefix_in_slice given hash_pwd_prefixes ≡ true)))
      ⊎ ((is_string_prefix_in_slice given hash_pwd_prefixes ≡ false)
          × (lib.create_hash given ≡ some stored))

  -- The conditions on a user that `validateUser` accepts, the library's part apart.
  pub record Acceptable (u : User) : Type 0 where
    pub named : 0 < length u.username
    pub homed : 0 < length u.home_dir
    pub credential : (0 < length u.password) ⊎ (0 < length u.public_keys)
    pub permitted : 0 < length u.permissions
    pub absolute : is_abs u.home_dir ≡ true
    pub perms : All IsValidPerm u.permissions
    pub keys : All IsKey u.public_keys

  stored_password_lem :
      (given : Text) {stored : Text}
      → stored_password lib given ≡ ok stored
      → StoredPassword given stored
  unfolding stored_password
  stored_password_lem [] h = inl (cc, inl refl)
  stored_password_lem (c ∷ p) h =
      elim (Bool-cases (is_string_prefix_in_slice (c ∷ p) hash_pwd_prefixes)) [
        | inl y ↦ inl (ground arith, inr y)
        | inr n ↦ inr (n, ground arith)
      ]

  -- A user is accepted only if it meets every condition, and only its password changes.
  pub validate_user_sound :
      (u v : User)
      → validate_user lib u ≡ ok v
      → Acceptable u
        × (v ≡ record u { password = v.password })
        × StoredPassword u.password v.password
  unfolding validate_user
  validate_user_sound u v h = (
    record {
      named = ground arith;
      homed = ground arith;
      credential = ground arith;
      permitted = ground arith;
      absolute = ground arith;
      perms = check_permissions-All u.permissions (ground arith);
      keys = check_keys-All 0 u.public_keys (ground arith);
    },
    ground arith,
    stored_password_lem u.password (ground arith),
  )

  -- A user that meets every condition is accepted, with only its password replaced by the one that
  -- `stored_password` gives.
  pub validate_user_complete :
      (u : User) (pwd : Text)
      → Acceptable u
      → stored_password lib u.password ≡ ok pwd
      → validate_user lib u ≡ ok (record u { password = pwd })
  unfolding validate_user
  validate_user_complete u pwd a s = ground (
    arith,
    a.named,
    a.homed,
    a.credential,
    a.permitted,
    a.absolute,
    check_permissions-ok u.permissions a.perms,
    check_keys-ok 0 u.public_keys a.keys,
  )

  -- If every hash that the library creates begins with the argon2id prefix, a user that is accepted
  -- has no password or a hashed one: a clear text password is never stored.
  pub validate_user_hashed :
      (u v : User)
      → ((p h : Text) → lib.create_hash p ≡ some h → has_prefix h argon_pwd_prefix ≡ true)
      → validate_user lib u ≡ ok v
      → (v.password ≡ []) ⊎ (is_string_prefix_in_slice v.password hash_pwd_prefixes ≡ true)
  unfolding is_string_prefix_in_slice
  validate_user_hashed u v argon h =
      let (_, _, stored) = validate_user_sound u v h in
      ground (arith, stored, argon u.password v.password)

tcp_forward_invalid : ¬ IsValidPerm perm_tcp_forward
unfolding is_string_in_slice perm_name text_eq index_byte
tcp_forward_invalid h = cc

All-in_slice :
    (P : Text → Type 0) (p : Text) (ps : List Text)
    → All P ps
    → is_string_in_slice p ps ≡ true
    → P p
unfolding is_string_in_slice
All-in_slice P p [] a h = cc
All-in_slice P p (q ∷ ps) a h = elim (Bool-cases (text_eq q p)) [
  | inl y ↦ subst P ((text_eq_iff q p).0 y) a.0
  | inr n ↦ All-in_slice P p ps a.1 (rw n at h)
]

-- No user whose permissions name "tcpforward" is accepted, though the server asks for it.
pub tcp_forward_refused :
    (lib : Hashing) (u v : User)
    → is_string_in_slice perm_tcp_forward u.permissions ≡ true
    → validate_user lib u ≢ ok v
tcp_forward_refused lib u v m h =
    let (a, _, _) = validate_user_sound lib u v h in
    tcp_forward_invalid (All-in_slice IsValidPerm perm_tcp_forward u.permissions a.perms m)
