-- ===== src/Tests/Quota.antt =====
-- The witnesses on the room for uploads.
use sshserv.Dataprovider.Bolt.Provider.{add_user}
use sshserv.Dataprovider.Bolt.Provider.{update_quota}
use sshserv.Dataprovider.Validate.{check_keys}
use sshserv.Dataprovider.Validate.{check_permissions}
use sshserv.Dataprovider.Validate.{is_abs}
use sshserv.Dataprovider.Validate.{stored_password}
use sshserv.Dataprovider.Validate.{validate_user}
use sshserv.Prelude.Assoc.{insert}
use sshserv.Prelude.Assoc.{lookup}
use sshserv.Prelude.Strings.{index_byte}
use sshserv.Prelude.Text.{has_prefix}
use sshserv.Prelude.Text.{text_eq}
use sshserv.Utils.{is_string_in_slice}
use sshserv.Utils.{is_string_prefix_in_slice}
use sshserv.Prelude.{◌≡◌, ◌↔◌, refl, true}
use sshserv.Prelude.Int.{pos}
use sshserv.Dataprovider.User.{User}
use sshserv.Dataprovider.Bolt.Provider.{State}
use sshserv.Dataprovider.Facade.{Config, bolt_provider, update_user_quota}
use sshserv.Serv.Quota.{has_space, HasSpace, has_space_iff}
use sshserv.Serv.Quota.Scan.{IsBelow, quota_scan_decides}
use sshserv.Tests.Buckets.{bolt}
use sshserv.Tests.Codec.{codec}
use sshserv.Tests.Data.{hashing, checking, bob, with_both}
use sshserv.Tests.Store.{with_both-IsConsistent}

abbrev cfg : Config
cfg = record { manage_users = pos 1; track_quota = pos 2; default_user_expire = pos 0 }

-- The user of a connection, with a limit of a thousand bytes.
abbrev limited_bob : User
limited_bob = record bob { quota_size = pos 1000 }

abbrev scanned : State bolt codec
scanned =
    (update_user_quota cfg (bolt_provider bolt codec hashing checking (pos 9)) limited_bob (pos 3)
      (pos 1200) true with_both).1

has_space_iff_example :
    (has_space cfg (bolt_provider bolt codec hashing checking (pos 9)) true limited_bob with_both
      ≡ true)
    ↔ HasSpace cfg (bolt_provider bolt codec hashing checking (pos 9)) true limited_bob with_both
has_space_iff_example =
    has_space_iff cfg (bolt_provider bolt codec hashing checking (pos 9)) true limited_bob with_both

quota_scan_decides_example :
    (has_space cfg (bolt_provider bolt codec hashing checking (pos 9)) true limited_bob scanned
      ≡ true)
    ↔ IsBelow true limited_bob (pos 3) (pos 1200)
unfolding update_user_quota bolt_provider update_quota add_user validate_user is_abs has_prefix
    check_permissions is_string_in_slice text_eq index_byte stored_password check_keys
    is_string_prefix_in_slice lookup insert
quota_scan_decides_example =
    quota_scan_decides bolt codec hashing checking (pos 9) cfg true limited_bob (pos 3) (pos 1200)
      with_both scanned with_both-IsConsistent refl
