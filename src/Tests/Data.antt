-- ===== src/Tests/Data.antt =====
-- The users, the libraries and the databases of the tests.
use sshserv.Prelude.{false, Option, none, some, [], ◌∷◌, ◌++◌}
use sshserv.Prelude.Text.{Text, bytes, text_eq}
use sshserv.Dataprovider.User.{User, zero_user}
use sshserv.Dataprovider.Validate.{Hashing, argon_pwd_prefix}
use sshserv.Dataprovider.Password.{Checking}
use sshserv.Dataprovider.Bolt.Provider.{State, add_user}
use sshserv.Dataprovider.Bolt.Linked.{both}
use sshserv.Tests.Buckets.{bolt}
use sshserv.Tests.Codec.{codec}

-- A hash is the text itself after a prefix; every text that is not empty is a key.
abbrev pub some_key : Text → Option Text
some_key [] = none
some_key (c ∷ t) = some (c ∷ t)

abbrev pub hashing : Hashing
hashing = record {
  create_hash = λ p. some (argon_pwd_prefix ++ p);
  parse_authorized_key = some_key;
}

abbrev pub checking : Checking
checking = record {
  compare_argon = λ password hash. some (text_eq hash (argon_pwd_prefix ++ password));
  compare_bcrypt = λ hash password. false;
  pbkdf2_key = λ password salt iterations size hash. password;
  parse_authorized_key = some_key;
}

abbrev pub alice : User
alice = record zero_user {
  username = bytes "alice";
  password = bytes "pw";
  public_keys = bytes "key" ∷ [];
  home_dir = bytes "/a";
  permissions = bytes "list" ∷ [];
}

abbrev pub bob : User
bob = record zero_user {
  username = bytes "bob";
  public_keys = bytes "key" ∷ [];
  home_dir = bytes "/b";
  permissions = bytes "*" ∷ [];
}

-- A database without users, and the ones after two additions.
abbrev pub no_users : State bolt codec
no_users = both bolt codec (record { cells = []; counter = 0 }) (record { cells = []; counter = 0 })

abbrev pub with_alice : State bolt codec
with_alice = (add_user bolt codec hashing alice no_users).1

abbrev pub with_both : State bolt codec
with_both = (add_user bolt codec hashing bob with_alice).1
