-- ===== src/Dataprovider/Bolt/Provider.antt =====
-- The methods of `BoltProvider`.
use mathlib.Core.List.{reverse}
use sshserv.Prelude.{
  ℕ, suc, ◌==◌, Bool, true, false, not, Option, none, some, List, [], ◌∷◌, ◌++◌, Result, ok, err,
  ◌>>=◌, ◌>>◌, or_err, guard, if◌then◌else◌, ltb, length,
}
use sshserv.Prelude.Int.{ℤ, pos, of_uint64, add64, leb_ℤ, eqb_ℤ}
use sshserv.Prelude.Text.{Text, bytes, text_eq}
use sshserv.Dataprovider.User.{User}
use sshserv.Dataprovider.Errors.{
  ProviderError, record_not_found, already_exists, library_error, empty_credentials,
}
use sshserv.Dataprovider.Validate.{Hashing, validate_user}
use sshserv.Dataprovider.Password.{Checking, check_user_and_pass, check_user_and_pub_key}
use sshserv.Dataprovider.Bolt.Store.{KeyValue, Json, Db, get_buckets, itob}

abbrev pub absent : {A : Type 0} → Option A → Bool
absent none = true
absent (some _) = false

-- `getUserNoCredentials`
unfoldable pub get_user_no_credentials : User → User
get_user_no_credentials user = record user { password = []; public_keys = [] }

-- The change that `updateQuota` makes to the record, at a time in milliseconds.
unfoldable pub apply_quota : ℤ → ℤ → Bool → ℤ → User → User
apply_quota files_add size_add true now user = record user {
  used_quota_size = size_add;
  used_quota_files = files_add;
  last_quota_update = now;
}
apply_quota files_add size_add false now user = record user {
  used_quota_size = add64 user.used_quota_size size_add;
  used_quota_files = add64 user.used_quota_files files_add;
  last_quota_update = now;
}

module _ (kv : KeyValue) (json : Json) where
  open kv use {Bucket, get, put, delete, next_sequence, entries, commits}
  open json use {marshal, unmarshal}

  abbrev pub State : Type 0
  State = Db Bucket

  -- `dbHandle.Update`: the changes stay only if the function and the commit succeed.
  unfoldable pub update :
      (State → Result ProviderError State) → State → Option ProviderError × State
  update f db = elim (f db) [
    | err e ↦ (some e, db)
    | ok db' ↦ if commits db'.users db'.users_id_idx then (none, db') else (some library_error, db)
  ]

  -- `userExists`
  unfoldable pub user_exists : Text → State → Result ProviderError User
  unfolding get_buckets
  user_exists username db = do
    (users, _) ← get_buckets db
    u ← or_err (get users username) record_not_found
    or_err (unmarshal u) library_error

  -- `getUserByID`
  unfoldable pub get_user_by_id : ℤ → State → Result ProviderError User
  unfolding get_buckets
  get_user_by_id id db = do
    (users, idx) ← get_buckets db
    username ← or_err (get idx (itob id)) record_not_found
    u ← or_err (get users username) record_not_found
    or_err (unmarshal u) library_error

  -- `validateUserAndPass`
  unfoldable pub validate_user_and_pass : Checking → Text → Text → State → Result ProviderError User
  unfolding user_exists check_user_and_pass
  validate_user_and_pass lib username password db = do
    guard (not (length password == 0)) empty_credentials
    user ← user_exists username db
    check_user_and_pass lib user password

  -- `validateUserAndPubKey`
  unfoldable pub validate_user_and_pub_key :
      Checking → Text → Text → State → Result ProviderError User
  unfolding user_exists check_user_and_pub_key
  validate_user_and_pub_key lib username pub_key db = do
    guard (not (length pub_key == 0)) empty_credentials
    user ← user_exists username db
    check_user_and_pub_key lib user pub_key

  -- `getUsedQuota`: files, then size
  unfoldable pub get_used_quota : Text → State → Result ProviderError (ℤ × ℤ)
  unfolding user_exists
  get_used_quota username db = do
    user ← user_exists username db
    ok (user.used_quota_files, user.used_quota_size)

  -- The transaction of `updateQuota`.
  unfoldable pub update_quota_tx : Text → ℤ → ℤ → Bool → ℤ → State → Result ProviderError State
  unfolding get_buckets
  update_quota_tx username files_add size_add reset now db = do
    (users, idx) ← get_buckets db
    u ← or_err (get users username) record_not_found
    user ← or_err (unmarshal u) library_error
    buf ← or_err (marshal (apply_quota files_add size_add reset now user)) library_error
    users' ← or_err (put users username buf) library_error
    ok (record db { users = some users' })

  -- `updateQuota`
  unfoldable pub update_quota : Text → ℤ → ℤ → Bool → ℤ → State → Option ProviderError × State
  unfolding update update_quota_tx
  update_quota username files_add size_add reset now =
      update (update_quota_tx username files_add size_add reset now)

  -- The transaction of `addUser`, on the validated user.
  unfoldable pub add_user_tx : User → State → Result ProviderError State
  unfolding get_buckets
  add_user_tx user db = do
    (users, idx) ← get_buckets db
    guard (absent (get users user.username)) already_exists
    (id, users₁) ← or_err (next_sequence users) library_error
    let new_id = of_uint64 id
    buf ← or_err (marshal (record user { id = new_id })) library_error
    users₂ ← or_err (put users₁ user.username buf) library_error
    idx' ← or_err (put idx (itob new_id) user.username) library_error
    ok (record { users = some users₂; users_id_idx = some idx' })

  -- `addUser`
  unfoldable pub add_user : Hashing → User → State → Option ProviderError × State
  unfolding update add_user_tx
  add_user lib user db = elim (validate_user lib user) [
    | err e ↦ (some e, db)
    | ok valid ↦ update (add_user_tx valid) db
  ]

  -- The transaction of `updateUser`, on the validated user.
  unfoldable pub update_user_tx : User → State → Result ProviderError State
  unfolding get_buckets
  update_user_tx user db = do
    (users, idx) ← get_buckets db
    guard (not (absent (get users user.username))) record_not_found
    buf ← or_err (marshal user) library_error
    users' ← or_err (put users user.username buf) library_error
    ok (record db { users = some users' })

  -- `updateUser`
  unfoldable pub update_user : Hashing → User → State → Option ProviderError × State
  unfolding update update_user_tx
  update_user lib user db = elim (validate_user lib user) [
    | err e ↦ (some e, db)
    | ok valid ↦ update (update_user_tx valid) db
  ]

  -- The transaction of `deleteUser`.
  unfoldable pub delete_user_tx : User → State → Result ProviderError State
  unfolding get_buckets
  delete_user_tx user db = do
    (users, idx) ← get_buckets db
    username ← or_err (get idx (itob user.id)) record_not_found
    users' ← or_err (delete users username) library_error
    idx' ← or_err (delete idx (itob user.id)) library_error
    ok (record { users = some users'; users_id_idx = some idx' })

  -- `deleteUser`
  unfoldable pub delete_user : User → State → Option ProviderError × State
  unfolding update delete_user_tx
  delete_user user = update (delete_user_tx user)

  -- What one entry adds to the list, and the error that its decoding leaves in `err`.
  unfoldable pub visit : Text → List User → List User × Option ProviderError
  visit v users = elim (unmarshal v) [
    | none ↦ (users, some library_error)
    | some user ↦ (users ++ get_user_no_credentials user ∷ [], none)
  ]

  -- The loop of `getUsers` over what the cursor still visits, after `it_num` entries.
  unfoldable pub list_loop :
      ℤ
      → ℤ
      → List (Text × Text)
      → ℕ
      → List User
      → Option ProviderError
      → List User × Option ProviderError
  unfolding visit
  list_loop limit offset [] it_num users e = (users, e)
  list_loop limit offset ((k, v) ∷ rest) it_num users e =
      let (users', e') = visit v users in
      let skipped = list_loop limit offset rest (suc it_num) users e in
      let more = list_loop limit offset rest (suc it_num) users' e' in
      if leb_ℤ (pos (suc it_num)) offset
      then skipped
      else if leb_ℤ limit (pos (length users'))
      then (users', e')
      else more

  -- The entries in the order that is asked for.
  abbrev pub ordered : Text → Bucket → List (Text × Text)
  ordered order users =
      if text_eq order (bytes "ASC") then entries users else reverse (entries users)

  -- The filter on one username, which drops the error of the lookup.
  unfoldable pub get_user_filtered : ℤ → Text → State → List User
  unfolding user_exists
  get_user_filtered offset username db =
      if eqb_ℤ offset (pos 0)
      then elim (user_exists username db) [
        | ok user ↦ get_user_no_credentials user ∷ []
        | err _ ↦ []
      ]
      else []

  -- `getUsers`
  unfoldable pub get_users : ℤ → ℤ → Text → Text → State → List User × Option ProviderError
  unfolding get_user_filtered list_loop get_buckets
  get_users limit offset order username db =
      if ltb 0 (length username)
      then (get_user_filtered offset username db, none)
      else if leb_ℤ limit (pos 0)
      then ([], none)
      else elim (get_buckets db) [
        | err e ↦ ([], some e)
        | ok (users, _) ↦ list_loop limit offset (ordered order users) 0 [] none
      ]
