-- ===== src/Tests/Dates.antt =====
-- The witnesses on the dates of users.
use sshserv.Prelude.{ℕ, ◌≡◌, some, [], ◌∷◌, arith}
use sshserv.Prelude.Int.{ℤ, pos}
use sshserv.Prelude.Text.{bytes, text_eq}
use sshserv.Dataprovider.User.{User, zero_user}
use sshserv.Dataprovider.Facade.{Config, bolt_provider}
use sshserv.Dataprovider.Bolt.Provider.{State}
use sshserv.Dataprovider.Bolt.Linked.{both}
use sshserv.Dataprovider.Expiry.{check_user_expire_once}
use sshserv.Dataprovider.Expiry.Ends.{check_user_expire_once_total}
use sshserv.Tests.Buckets.{Cells, bolt}
use sshserv.Tests.Codec.{codec, user_code}
use sshserv.Tests.Data.{hashing, checking, alice, bob}

-- A guest for ten minutes, and the clock that stands still.
abbrev guest : User
guest = record zero_user { permissions = bytes "list" ∷ bytes "_expire:10" ∷ [] }

abbrev clock : ℕ → ℤ
clock i = pos 1000

abbrev cfg : Config
cfg = record { manage_users = pos 1; track_quota = pos 1; default_user_expire = pos 0 }

abbrev stored : Cells
stored = record {
  cells = (bytes "alice", user_code alice) ∷ (bytes "bob", user_code bob) ∷ [];
  counter = 2;
}

check_user_expire_once_total_example :
    (db' : State bolt codec) × (check_user_expire_once cfg
        (bolt_provider bolt codec hashing checking (pos 9))
        2
        clock
        (both bolt codec stored stored)
      ≡ some db')
unfolding text_eq
check_user_expire_once_total_example =
    check_user_expire_once_total bolt codec hashing checking (pos 9) cfg clock stored stored 1
      (omega arith)

abbrev unreadable : User
unreadable = record zero_user { permissions = bytes "_expire:xx" ∷ [] }
