-- ===== src/Dataprovider/Password.antt =====
-- dataprovider/dataprovider.go: `checkUserAndPass`, `checkUserAndPubKey` and
-- `comparePbkdf2PasswordAndHash`. The hash functions and the key parser are libraries.
pub mod Login
use sshserv.Prelude.{
  ℕ, ◌≡◌, Bool, true, false, Option, none, some, List, [], ◌∷◌, Result, ok, err, ◌>>=◌, or_err,
  guard, ◌>>◌, not, if◌then◌else◌, ◌==◌, length,
}
use sshserv.Prelude.Int.{ℤ}
use sshserv.Prelude.Text.{Text, text_eq, has_prefix}
use sshserv.Prelude.Strings.{split, parse_int64}
use sshserv.Prelude.Base64.{base64_encode}
use sshserv.Utils.{is_string_prefix_in_slice}
use sshserv.Dataprovider.User.{User}
use sshserv.Dataprovider.Errors.{
  ProviderError, empty_credentials, invalid_credentials, bad_hash_format, unsupported_hash,
  bad_iterations, library_error,
}
use sshserv.Dataprovider.Validate.{
  argon_pwd_prefix, bcrypt_pwd_prefix, pbkdf2_sha1_prefix, pbkdf2_sha256_prefix,
  pbkdf2_sha512_prefix, pbkdf_pwd_prefixes,
}

-- `hashFunc` with its `hashSize`.
pub data HashFunc : Type 0 where
  sha1 sha256 sha512 : HashFunc

abbrev pub hash_size : HashFunc → ℕ
hash_size sha1 = 20
hash_size sha256 = 32
hash_size sha512 = 64

-- The library calls of the login checks.
pub record Checking : Type 0 where
  -- `argon2id.ComparePasswordAndHash(password, hash)`; `none` is an error
  pub compare_argon : Text → Text → Option Bool
  -- whether `bcrypt.CompareHashAndPassword(hash, password)` returns nil
  pub compare_bcrypt : Text → Text → Bool
  -- `pbkdf2.Key(password, salt, iterations, keyLen, hash)`
  pub pbkdf2_key : Text → Text → ℤ → ℕ → HashFunc → Text
  -- `ssh.ParseAuthorizedKey` followed by `Marshal`; `none` is an error
  pub parse_authorized_key : Text → Option Text

-- The hash function that a stored hash names.
unfoldable pub hash_func : Text → Option HashFunc
hash_func hashed =
    if has_prefix hashed pbkdf2_sha256_prefix
    then some sha256
    else if has_prefix hashed pbkdf2_sha512_prefix
    then some sha512
    else if has_prefix hashed pbkdf2_sha1_prefix
    then some sha1
    else none

module _ (lib : Checking) where
  -- The comparison once the stored hash is split at its dollar signs.
  unfoldable pub compare_parts : Text → Text → List Text → Result ProviderError Bool
  unfolding hash_func
  compare_parts password hashed (_ ∷ _ ∷ iters ∷ salt ∷ expected ∷ []) = do
    hash ← or_err (hash_func hashed) unsupported_hash
    iterations ← or_err (parse_int64 iters) bad_iterations
    ok (
        text_eq (base64_encode (lib.pbkdf2_key password salt iterations (hash_size hash) hash))
          expected)
  compare_parts password hashed _ = err bad_hash_format

  -- `comparePbkdf2PasswordAndHash`
  unfoldable pub compare_pbkdf2_password_and_hash : Text → Text → Result ProviderError Bool
  unfolding compare_parts
  compare_pbkdf2_password_and_hash password hashed =
      compare_parts password hashed (split b'$' hashed)

  -- The part of `checkUserAndPass` that picks the comparison by the prefix of the stored password.
  unfoldable pub match_password : Text → Text → Result ProviderError Bool
  match_password stored password =
      if has_prefix stored argon_pwd_prefix
      then or_err (lib.compare_argon password stored) library_error
      else if has_prefix stored bcrypt_pwd_prefix
      then (if lib.compare_bcrypt stored password then ok true else err library_error)
      else if is_string_prefix_in_slice stored pbkdf_pwd_prefixes
      then compare_pbkdf2_password_and_hash password stored
      else ok false

  -- `checkUserAndPass`; callers read the user only beside a nil error.
  unfoldable pub check_user_and_pass : User → Text → Result ProviderError User
  unfolding match_password
  check_user_and_pass user password = do
    guard (not (length user.password == 0)) empty_credentials
    matches ← match_password user.password password
    guard matches invalid_credentials
    ok user

  -- The loop of `checkUserAndPubKey`.
  unfoldable pub find_pub_key : List Text → Text → Result ProviderError (Unit {0})
  find_pub_key [] pub_key = err invalid_credentials
  find_pub_key (k ∷ ks) pub_key = elim (lib.parse_authorized_key k) [
    | none ↦ err library_error
    | some stored ↦ if text_eq stored pub_key then ok tt else find_pub_key ks pub_key
  ]

  -- `checkUserAndPubKey`; without keys its loop does not run.
  unfoldable pub check_user_and_pub_key : User → Text → Result ProviderError User
  unfolding find_pub_key
  check_user_and_pub_key user pub_key = do
    guard (not (length user.public_keys == 0)) invalid_credentials
    find_pub_key user.public_keys pub_key
    ok user
