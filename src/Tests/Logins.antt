-- ===== src/Tests/Logins.antt =====
-- The witnesses on the validation of users and on their logins.
use sshserv.Prelude.{◌≡◌, ◌≢◌, ◌↔◌, refl, sym, inl, true, some, [], ◌∷◌, ◌++◌, ok, arith}
use mathlib.Core.Option.{some-injective}
use sshserv.Prelude.Text.{Text, bytes, text_eq, has_prefix, has_prefix-append}
use sshserv.Prelude.Strings.{index_byte}
use sshserv.Utils.{is_string_in_slice, is_string_prefix_in_slice}
use sshserv.Dataprovider.User.{User}
use sshserv.Dataprovider.Validate.{
  argon_pwd_prefix, validate_user, is_abs, check_permissions, stored_password, check_keys,
  perm_name,
}
use sshserv.Dataprovider.Validate.Accepts.{
  Acceptable, StoredPassword, validate_user_sound, validate_user_complete,
}
use sshserv.Dataprovider.Password.{check_user_and_pass, check_user_and_pub_key}
use sshserv.Dataprovider.Password.Login.{
  Proves, Authorizes, check_user_and_pass_sound, check_user_and_pub_key_iff,
}
use sshserv.Tests.Data.{hashing, checking, alice}

-- The user as it is stored.
abbrev stored_alice : User
stored_alice = record alice { password = argon_pwd_prefix ++ bytes "pw" }

validate_user_sound_example :
    Acceptable hashing alice
    × (stored_alice ≡ record alice { password = stored_alice.password })
    × StoredPassword hashing alice.password stored_alice.password
unfolding validate_user is_abs has_prefix check_permissions is_string_in_slice text_eq index_byte
    stored_password is_string_prefix_in_slice check_keys
validate_user_sound_example = validate_user_sound hashing alice stored_alice refl

alice-Acceptable : Acceptable hashing alice
unfolding is_abs has_prefix is_string_in_slice text_eq perm_name index_byte
alice-Acceptable = record {
  named = omega arith;
  homed = omega arith;
  credential = inl (omega arith);
  permitted = omega arith;
  absolute = refl;
  perms = (refl, tt);
  keys = ((λ e. cc), tt);
}

validate_user_complete_example : validate_user hashing alice ≡ ok stored_alice
unfolding stored_password is_string_prefix_in_slice has_prefix
validate_user_complete_example =
    validate_user_complete hashing alice (argon_pwd_prefix ++ bytes "pw") alice-Acceptable refl

argon_prefixed :
    (p h : Text) → hashing.create_hash p ≡ some h → has_prefix h argon_pwd_prefix ≡ true
argon_prefixed p h e = rw (sym (some-injective _ h e)) (has_prefix-append argon_pwd_prefix p)

abbrev forwarder : User
forwarder = record alice { permissions = bytes "list" ∷ bytes "tcpforward" ∷ [] }

check_user_and_pass_sound_example :
    (stored_alice ≡ stored_alice)
    × (stored_alice.password ≢ [])
    × Proves checking (bytes "pw") stored_alice.password
unfolding check_user_and_pass has_prefix text_eq
check_user_and_pass_sound_example =
    check_user_and_pass_sound checking stored_alice stored_alice (bytes "pw") refl

check_user_and_pub_key_iff_example :
    (check_user_and_pub_key checking alice (bytes "key") ≡ ok alice)
    ↔ ((alice ≡ alice) × Authorizes checking (bytes "key") alice.public_keys)
check_user_and_pub_key_iff_example = check_user_and_pub_key_iff checking (bytes "key") alice alice
