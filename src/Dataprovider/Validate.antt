-- ===== src/Dataprovider/Validate.antt =====
-- dataprovider/dataprovider.go: `validateUser`.
-- The password hash and the parser of authorized keys are libraries, taken as a parameter.
pub mod Accepts
use sshserv.Prelude.{
  ℕ, suc, ◌+◌, ◌≡◌, Bool, true, false, not, ◌&&◌, ◌||◌, Option, none, some, List, [], ◌∷◌, Result,
  ok, err, ◌>>=◌, ◌>>◌, or_err, guard, if◌then◌else◌, ltb, ◌==◌, length, take,
}
use sshserv.Prelude.Text.{Text, bytes, has_prefix}
use sshserv.Prelude.Strings.{index_byte}
use sshserv.Utils.{is_string_in_slice, is_string_prefix_in_slice}
use sshserv.Dataprovider.User.{
  User, perm_any, perm_list_items, perm_download, perm_upload, perm_delete, perm_rename,
  perm_create_dirs, perm_create_symlinks,
}
use sshserv.Dataprovider.Errors.{
  Invalid, mandatory_missing, no_credentials, no_permissions, home_not_absolute, invalid_permission,
  invalid_key, ProviderError, validation, library_error,
}

abbrev pub argon_pwd_prefix : Text
argon_pwd_prefix = bytes "$argon2id$"

abbrev pub bcrypt_pwd_prefix : Text
bcrypt_pwd_prefix = bytes "$2a$"

abbrev pub pbkdf2_sha1_prefix : Text
pbkdf2_sha1_prefix = bytes "$pbkdf2-sha1$"

abbrev pub pbkdf2_sha256_prefix : Text
pbkdf2_sha256_prefix = bytes "$pbkdf2-sha256$"

abbrev pub pbkdf2_sha512_prefix : Text
pbkdf2_sha512_prefix = bytes "$pbkdf2-sha512$"

-- `validPerms`
abbrev pub valid_perms : List Text
valid_perms =
    perm_any
    ∷ perm_list_items
    ∷ perm_download
    ∷ perm_upload
    ∷ perm_delete
    ∷ perm_rename
    ∷ perm_create_dirs
    ∷ perm_create_symlinks
    ∷ bytes "shell"
    ∷ bytes "_expire:"
    ∷ []

-- `hashPwdPrefixes`
abbrev pub hash_pwd_prefixes : List Text
hash_pwd_prefixes =
    argon_pwd_prefix ∷ bcrypt_pwd_prefix ∷ pbkdf2_sha1_prefix ∷ pbkdf2_sha256_prefix
    ∷ pbkdf2_sha512_prefix ∷ []

-- `pbkdfPwdPrefixes`
abbrev pub pbkdf_pwd_prefixes : List Text
pbkdf_pwd_prefixes = pbkdf2_sha1_prefix ∷ pbkdf2_sha256_prefix ∷ pbkdf2_sha512_prefix ∷ []

-- The library calls of `validateUser`.
pub record Hashing : Type 0 where
  -- `argon2id.CreateHash(password, argon2id.DefaultParams)`; `none` is an error
  pub create_hash : Text → Option Text
  -- `ssh.ParseAuthorizedKey` followed by `Marshal`; `none` is an error
  pub parse_authorized_key : Text → Option Text

-- The part of a permission that is looked up: up to its first colon, unless that is its first byte.
unfoldable pub perm_name : Text → Text
perm_name p = elim (index_byte b':' p) [
  | none ↦ p
  | some px ↦ if ltb 0 px then take (px + 1) p else p
]

unfoldable pub check_permissions : List Text → Result ProviderError (Unit {0})
unfolding perm_name
check_permissions [] = ok tt
check_permissions (p ∷ ps) =
    if is_string_in_slice (perm_name p) valid_perms
    then check_permissions ps
    else err (validation (invalid_permission (perm_name p)))

-- `filepath.IsAbs`: on a unix system, a leading slash.
unfoldable pub is_abs : Text → Bool
is_abs path = has_prefix path (bytes "/")

module _ (lib : Hashing) where
  -- From the key at index `i` on.
  unfoldable pub check_keys : ℕ → List Text → Result ProviderError (Unit {0})
  check_keys i [] = ok tt
  check_keys i (k ∷ ks) = elim (lib.parse_authorized_key k) [
    | none ↦ err (validation (invalid_key i))
    | some _ ↦ check_keys (suc i) ks
  ]

  -- The password that is stored for the one given.
  unfoldable pub stored_password : Text → Result ProviderError Text
  stored_password password =
      if ltb 0 (length password) && not (is_string_prefix_in_slice password hash_pwd_prefixes)
      then or_err (lib.create_hash password) library_error
      else ok password

  -- `validateUser`, with the user that it leaves behind its pointer.
  unfoldable pub validate_user : User → Result ProviderError User
  validate_user user = do
    guard (not (length user.username == 0 || length user.home_dir == 0))
        (validation mandatory_missing)
    guard (not (length user.password == 0 && length user.public_keys == 0))
        (validation no_credentials)
    guard (not (length user.permissions == 0)) (validation no_permissions)
    guard (is_abs user.home_dir) (validation home_not_absolute)
    check_permissions user.permissions
    pwd ← stored_password user.password
    check_keys 0 user.public_keys
    ok (record user { password = pwd })
