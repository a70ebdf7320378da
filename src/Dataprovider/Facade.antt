-- ===== src/Dataprovider/Facade.antt =====
-- dataprovider/dataprovider.go: the `Provider` interface, and the functions that the servers call
-- on it, which the configuration may disable.
use sshserv.Prelude.{
  ℕ, suc, Bool, true, false, not, ◌&&◌, ◌||◌, Option, none, some, List, [], ◌∷◌, ◌++◌, Result, err,
  if◌then◌else◌, ltb, length, take, drop,
}
use sshserv.Prelude.Int.{ℤ, pos, add64, mul64, eqb_ℤ, ltb_ℤ}
use sshserv.Prelude.Text.{Text, bytes, text_eq}
use sshserv.Prelude.Format.{format_int64, scan_int64}
use sshserv.Dataprovider.User.{User, has_quota_restrictions}
use sshserv.Dataprovider.Errors.{ProviderError, manage_users_disabled, track_quota_disabled}
use sshserv.Dataprovider.Validate.{Hashing}
use sshserv.Dataprovider.Password.{Checking}
use sshserv.Dataprovider.Bolt.Store.{KeyValue, Json}
use sshserv.Dataprovider.Bolt.Provider as Bolt

-- The fields of `Config` that these functions read.
pub record Config : Type 0 where
  pub manage_users : ℤ
  pub track_quota : ℤ
  pub default_user_expire : ℤ

-- The interface `Provider`, over the state of the store.
pub record Provider (S : Type 0) : Type 0 where
  pub validate_user_and_pass : Text → Text → S → Result ProviderError User
  pub validate_user_and_pub_key : Text → Text → S → Result ProviderError User
  pub update_quota : Text → ℤ → ℤ → Bool → S → Option ProviderError × S
  pub get_used_quota : Text → S → Result ProviderError (ℤ × ℤ)
  pub user_exists : Text → S → Result ProviderError User
  pub add_user : User → S → Option ProviderError × S
  pub update_user : User → S → Option ProviderError × S
  pub delete_user : User → S → Option ProviderError × S
  pub get_users : ℤ → ℤ → Text → Text → S → List User × Option ProviderError
  pub get_user_by_id : ℤ → S → Result ProviderError User

-- `BoltProvider` as a `Provider`, at a time in milliseconds.
unfoldable pub bolt_provider :
    (kv : KeyValue) (json : Json) → Hashing → Checking → ℤ → Provider (Bolt.State kv json)
bolt_provider kv json hashing checking now = record {
  validate_user_and_pass = Bolt.validate_user_and_pass kv json checking;
  validate_user_and_pub_key = Bolt.validate_user_and_pub_key kv json checking;
  update_quota = λ name files size reset. Bolt.update_quota kv json name files size reset now;
  get_used_quota = Bolt.get_used_quota kv json;
  user_exists = Bolt.user_exists kv json;
  add_user = Bolt.add_user kv json hashing;
  update_user = Bolt.update_user kv json hashing;
  delete_user = Bolt.delete_user kv json;
  get_users = Bolt.get_users kv json;
  get_user_by_id = Bolt.get_user_by_id kv json;
}

abbrev pub expire_prefix : Text
expire_prefix = bytes "_expire:"

-- `len(p) < n || p[:8] != "_expire:"`, the test by which a loop passes a permission over.
abbrev pub passes_over : ℕ → Text → Bool
passes_over n p = ltb (length p) n || not (text_eq (take 8 p) expire_prefix)

-- The variable that `Sscanf` writes to, after the call.
unfoldable pub scan_into : ℤ → Text → ℤ
scan_into old s = elim (scan_int64 s) [ none ↦ old | some v ↦ v ]

-- `fmt.Sprintf("_expire:%d", now + minutes*60)`
unfoldable pub expire_stamp : ℤ → ℤ → Text
expire_stamp now minutes = expire_prefix ++ format_int64 (add64 now (mul64 minutes 60))

-- The loop of `AddUser` over the permissions from index `i` on, with the clock as read at each
-- index; `ex_tm` is the variable that the turns share. Also whether one of them was a date.
unfoldable pub stamp_permissions : (ℕ → ℤ) → ℕ → ℤ → List Text → List Text × Bool
stamp_permissions clock i ex_tm [] = ([], false)
stamp_permissions clock i ex_tm (p ∷ ps) =
    let skips = passes_over 9 p in
    let ex_tm' = if skips then ex_tm else scan_into ex_tm (drop 8 p) in
    let (ps', custom) = stamp_permissions clock (suc i) ex_tm' ps in
    if skips then (p ∷ ps', custom) else (expire_stamp (clock i) ex_tm' ∷ ps', true)

-- The permissions that `AddUser` stores.
unfoldable pub dated_permissions : Config → (ℕ → ℤ) → List Text → List Text
dated_permissions cfg clock ps =
    let (ps', custom) = stamp_permissions clock 0 (pos 0) ps in
    if not custom && ltb_ℤ (pos 0) cfg.default_user_expire
    then ps' ++ expire_stamp (clock (length ps)) cfg.default_user_expire ∷ []
    else ps'

module _ {S : Type 0} (cfg : Config) (p : Provider S) where
  -- `UpdateUserQuota`
  unfoldable pub update_user_quota : User → ℤ → ℤ → Bool → S → Option ProviderError × S
  update_user_quota user files_add size_add reset s =
      if eqb_ℤ cfg.track_quota (pos 0)
      then (some track_quota_disabled, s)
      else if eqb_ℤ cfg.track_quota (pos 2) && (not reset && not (has_quota_restrictions user))
      then (none, s)
      else p.update_quota user.username files_add size_add reset s

  -- `GetUsedQuota`
  unfoldable pub get_used_quota : Text → S → Result ProviderError (ℤ × ℤ)
  get_used_quota username s =
      if eqb_ℤ cfg.track_quota (pos 0)
      then err track_quota_disabled
      else p.get_used_quota username s

  -- `AddUser`
  unfoldable pub add_user : (ℕ → ℤ) → User → S → Option ProviderError × S
  add_user clock user s =
      if eqb_ℤ cfg.manage_users (pos 0)
      then (some manage_users_disabled, s)
      else p.add_user (record user { permissions = dated_permissions cfg clock user.permissions }) s

  -- `UpdateUser`
  unfoldable pub update_user : User → S → Option ProviderError × S
  update_user user s =
      if eqb_ℤ cfg.manage_users (pos 0)
      then (some manage_users_disabled, s)
      else p.update_user user s

  -- `DeleteUser`
  unfoldable pub delete_user : User → S → Option ProviderError × S
  delete_user user s =
      if eqb_ℤ cfg.manage_users (pos 0)
      then (some manage_users_disabled, s)
      else p.delete_user user s
