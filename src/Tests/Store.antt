-- ===== src/Tests/Store.antt =====
-- The witnesses on the bolt provider.
use sshserv.Prelude.{◌≡◌, refl, ap, sym, false, [], ◌∷◌, ok, ok-injective, All, arith}
use mathlib.Core.Option.{some-injective}
use sshserv.Prelude.Int.{pos}
use sshserv.Prelude.Text.{bytes, text_eq, has_prefix}
use sshserv.Prelude.Strings.{index_byte}
use sshserv.Utils.{is_string_in_slice, is_string_prefix_in_slice}
use sshserv.Prelude.Assoc.{lookup, insert}
use sshserv.Dataprovider.User.{User}
use sshserv.Dataprovider.Validate.{
  validate_user, is_abs, check_permissions, stored_password, check_keys,
}
use sshserv.Dataprovider.Bolt.Store.{IsEncodable}
use sshserv.Dataprovider.Bolt.Provider.{
  State, get_users, add_user, delete_user, update_user, update_quota, user_exists,
}
use sshserv.Dataprovider.Bolt.Linked.{both, IsConsistent, HasRoom}
use sshserv.Dataprovider.Bolt.Linked.Add.{add_user-IsConsistent}
use sshserv.Dataprovider.Bolt.Linked.Delete.{delete_user-IsConsistent}
use sshserv.Dataprovider.Bolt.Linked.Update.{update_user-IsConsistent, update_user_conflict}
use sshserv.Dataprovider.Bolt.Lookup.Quota.{IsCharged, update_quota_lookup}
use sshserv.Dataprovider.Bolt.Listing.{page, ascending, get_users-page}
use sshserv.Dataprovider.Bolt.Listing.Credentials.{HasNoCredentials, get_users-HasNoCredentials}
use sshserv.Tests.Buckets.{Cells, bolt}
use sshserv.Tests.Codec.{codec, All-unit, user_code}
use sshserv.Tests.Data.{hashing, alice, bob, no_users, with_alice, with_both}

pub any-IsEncodable : (u : User) → IsEncodable codec u
any-IsEncodable u = record {
  username = tt;
  password = tt;
  home_dir = tt;
  public_keys = All-unit u.public_keys;
  permissions = All-unit u.permissions;
}

no_users-IsConsistent : IsConsistent bolt codec no_users
unfolding lookup
no_users-IsConsistent = (
  record { cells = []; counter = 0 },
  record { cells = []; counter = 0 },
  refl,
  record {
    readable = λ name t e. cc;
    named = λ name t u e. cc;
    indexed = λ key name e. cc;
    handed_out = λ key name e. cc;
    in_range = omega arith;
  },
)

no_users-HasRoom : HasRoom bolt codec no_users
no_users-HasRoom users e = rw (sym (some-injective _ users e)) (omega arith)

add_user-IsConsistent_example :
    IsConsistent bolt codec (add_user bolt codec hashing alice no_users).1
add_user-IsConsistent_example =
    add_user-IsConsistent bolt codec hashing alice no_users no_users-IsConsistent no_users-HasRoom
      (λ v _. any-IsEncodable v)

with_alice-IsConsistent : IsConsistent bolt codec with_alice
with_alice-IsConsistent =
    add_user-IsConsistent bolt codec hashing alice no_users no_users-IsConsistent no_users-HasRoom
      (λ v _. any-IsEncodable v)

with_alice-HasRoom : HasRoom bolt codec with_alice
unfolding add_user validate_user is_abs has_prefix check_permissions is_string_in_slice text_eq
    index_byte stored_password check_keys is_string_prefix_in_slice lookup insert
with_alice-HasRoom users e = rw (sym (some-injective _ users e)) (omega arith)

pub with_both-IsConsistent : IsConsistent bolt codec with_both
with_both-IsConsistent =
    add_user-IsConsistent bolt codec hashing bob with_alice with_alice-IsConsistent
      with_alice-HasRoom (λ v _. any-IsEncodable v)

pub with_both-HasRoom : HasRoom bolt codec with_both
unfolding add_user validate_user is_abs has_prefix check_permissions is_string_in_slice text_eq
    index_byte stored_password check_keys is_string_prefix_in_slice lookup insert
with_both-HasRoom users e = rw (sym (some-injective _ users e)) (omega arith)

delete_user-IsConsistent_example :
    IsConsistent bolt codec (delete_user bolt codec (record alice { id = pos 1 }) with_both).1
delete_user-IsConsistent_example =
    delete_user-IsConsistent bolt codec (record alice { id = pos 1 }) with_both
      with_both-IsConsistent

abbrev with_bob : State bolt codec
with_bob = (delete_user bolt codec (record alice { id = pos 1 }) with_both).1

abbrev charged : State bolt codec
charged = (update_quota bolt codec (bytes "bob") (pos 1) (pos 700) false (pos 9) with_both).1

update_quota_lookup_example :
    IsCharged bolt codec (bytes "bob") (pos 1) (pos 700) false (pos 9) with_both charged
unfolding add_user validate_user is_abs has_prefix check_permissions is_string_in_slice text_eq
    index_byte stored_password check_keys is_string_prefix_in_slice lookup insert update_quota
update_quota_lookup_example =
    update_quota_lookup bolt codec (bytes "bob") (pos 1) (pos 700) false (pos 9) with_both charged
      with_both-IsConsistent refl

same_id :
    (old : User)
    → user_exists bolt codec (bytes "bob") with_both ≡ ok old
    → (record bob { id = pos 2 }).id ≡ old.id
unfolding add_user validate_user is_abs has_prefix check_permissions is_string_in_slice text_eq
    index_byte stored_password check_keys is_string_prefix_in_slice lookup insert user_exists
same_id old e = ap (λ (u : User). u.id) (ok-injective e)

update_user-IsConsistent_example :
    IsConsistent bolt codec (update_user bolt codec hashing (record bob { id = pos 2 }) with_both).1
update_user-IsConsistent_example =
    update_user-IsConsistent bolt codec hashing (record bob { id = pos 2 }) with_both
      with_both-IsConsistent (λ v _. any-IsEncodable v) same_id

-- The user with the id 1 under the name of the user with the id 2.
abbrev renamed : User
renamed = record bob { id = pos 1 }

abbrev broken : State bolt codec
broken = (update_user bolt codec hashing renamed with_both).1

update_user_conflict_example : ¬ IsConsistent bolt codec broken
unfolding add_user validate_user is_abs has_prefix check_permissions is_string_in_slice text_eq
    index_byte stored_password check_keys is_string_prefix_in_slice lookup insert user_exists
    update_user
update_user_conflict_example =
    update_user_conflict bolt codec hashing renamed (record bob { id = pos 2 }) renamed with_both
      broken with_both-IsConsistent refl (any-IsEncodable renamed) refl (omega arith, omega arith)
      (omega arith, omega arith) (λ e. cc) refl

-- The entry of the first user, which is skipped, and of the second one.
abbrev listed_users : Cells
listed_users = record {
  cells = (bytes "alice", user_code alice) ∷ (bytes "bob", user_code bob) ∷ [];
  counter = 2;
}

get_users-page_example :
    (get_users bolt codec
      (pos 1)
      (pos 1)
      (bytes "ASC")
      []
      (both bolt codec listed_users listed_users)).0
    ≡ page bolt codec 1 1 ((bytes "alice", user_code alice) ∷ (bytes "bob", user_code bob) ∷ [])
get_users-page_example =
    get_users-page bolt codec 0 (pos 1) (bytes "ASC") listed_users listed_users
      ((bytes "alice", user_code alice) ∷ (bytes "bob", user_code bob) ∷ []) (ascending refl)

get_users-HasNoCredentials_example :
    All
      (HasNoCredentials bolt codec)
      (get_users bolt codec (pos 10) (pos 0) (bytes "ASC") [] with_both).0
get_users-HasNoCredentials_example =
    get_users-HasNoCredentials bolt codec (pos 10) (pos 0) (bytes "ASC") [] with_both
