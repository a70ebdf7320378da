-- ===== src/Dataprovider/User.antt =====
-- dataprovider/user.go: the user record, its permissions and its derived values.
use sshserv.Prelude.{Bool, true, ◌||◌, List, [], if◌then◌else◌}
use sshserv.Prelude.Int.{ℤ, pos, negsuc, leb_ℤ, ltb_ℤ}
use sshserv.Prelude.Text.{Text, bytes}
use sshserv.Utils.{is_string_in_slice}

abbrev pub perm_any : Text
perm_any = bytes "*"

abbrev pub perm_list_items : Text
perm_list_items = bytes "list"

abbrev pub perm_download : Text
perm_download = bytes "download"

abbrev pub perm_upload : Text
perm_upload = bytes "upload"

abbrev pub perm_delete : Text
perm_delete = bytes "delete"

abbrev pub perm_rename : Text
perm_rename = bytes "rename"

abbrev pub perm_create_dirs : Text
perm_create_dirs = bytes "create_dirs"

abbrev pub perm_create_symlinks : Text
perm_create_symlinks = bytes "create_symlinks"

abbrev pub perm_shell : Text
perm_shell = bytes "shell"

abbrev pub perm_tcp_forward : Text
perm_tcp_forward = bytes "tcpforward"

pub record User : Type 0 where
  pub id : ℤ
  pub username : Text
  pub password : Text
  pub public_keys : List Text
  pub home_dir : Text
  pub uid : ℤ
  pub gid : ℤ
  pub max_sessions : ℤ
  pub quota_size : ℤ
  pub quota_files : ℤ
  pub permissions : List Text
  pub used_quota_size : ℤ
  pub used_quota_files : ℤ
  pub last_quota_update : ℤ
  pub upload_bandwidth : ℤ
  pub download_bandwidth : ℤ

-- Go's zero value, `var user User`.
abbrev pub zero_user : User
zero_user = record {
  id = pos 0;
  username = [];
  password = [];
  public_keys = [];
  home_dir = [];
  uid = pos 0;
  gid = pos 0;
  max_sessions = pos 0;
  quota_size = pos 0;
  quota_files = pos 0;
  permissions = [];
  used_quota_size = pos 0;
  used_quota_files = pos 0;
  last_quota_update = pos 0;
  upload_bandwidth = pos 0;
  download_bandwidth = pos 0;
}

-- `HasPerm`
unfoldable pub has_perm : User → Text → Bool
has_perm u permission =
    if is_string_in_slice perm_any u.permissions
    then true
    else is_string_in_slice permission u.permissions

abbrev chown_id : ℤ → ℤ
chown_id i = if leb_ℤ i (pos 0) || ltb_ℤ (pos 65535) i then negsuc 0 else i

-- `GetUID`
unfoldable pub get_uid : User → ℤ
get_uid u = chown_id u.uid

-- `GetGID`
unfoldable pub get_gid : User → ℤ
get_gid u = chown_id u.gid

-- `HasQuotaRestrictions`
unfoldable pub has_quota_restrictions : User → Bool
has_quota_restrictions u = ltb_ℤ (pos 0) u.quota_files || ltb_ℤ (pos 0) u.quota_size
