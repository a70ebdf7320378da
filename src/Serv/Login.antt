-- ===== src/Serv/Login.antt =====
-- serv/server.go: `loginUser`, `validatePasswordCredentials`, `validatePublicKeyCredentials`,
-- `_checkBaseKey` and `parseCommandPayload`. What a login gives is the user in JSON, which
-- `AcceptInboundConnection` reads.
pub mod Admitted
use sshserv.Prelude.{
  ℕ, Bool, true, false, not, ◌&&◌, Option, none, some, List, [], ◌∷◌, Result, ok, err,
  if◌then◌else◌,
}
use sshserv.Prelude.Int.{ℤ, pos, ltb_ℤ, leb_ℤ}
use sshserv.Prelude.Text.{Text, text_eq}
use sshserv.Prelude.Strings.{split}
use sshserv.Dataprovider.User.{User}
use sshserv.Dataprovider.Errors.{ProviderError}
use sshserv.Dataprovider.Validate.{is_abs}
use sshserv.Dataprovider.Bolt.Store.{Json}
use sshserv.Serv.Registry.{get_active_sessions}
use sshserv.Serv.Os.{OsError}
use sshserv.Serv.Env.{Env, Server, World, set_path_permissions}
use sshserv.Serv.Paths.{is_missing}

-- Why a login is refused.
pub data LoginError : Type 0 where
  invalid_home_dir : Text → LoginError
  too_many_sessions : ℕ → LoginError
  no_json : LoginError
  refused : ProviderError → LoginError

-- `BaseUser` of the configuration with the name in it, and the base public key.
pub record BaseKey : Type 0 where
  pub base_user : Text
  pub username : Text
  pub pub_key : Text

-- `parseCommandPayload`: the command and its arguments.
unfoldable pub parse_command_payload : Text → Text × List Text
parse_command_payload command = elim (split b' ' command) [
  | [] ↦ ([], [])
  | ◌∷◌ name rest ↦ (name, rest)
]

-- `_checkBaseKey`
unfoldable pub check_base_key : BaseKey → Text → Text → Option Text
check_base_key base user pub_key =
    if text_eq user base.username && text_eq pub_key base.pub_key then some base.base_user else none

module _ (env : Env) (json : Json) where
  open env use {os, provider}

  -- A home directory that is missing is created, if that succeeds.
  unfoldable pub create_home : User → World env → World env
  create_home user w =
      let made = os.mkdir_all user.home_dir w in
      if is_missing (os.stat user.home_dir w)
      then elim made.0 [
        | some _ ↦ made.1
        | none ↦ set_path_permissions env user.home_dir user made.1
      ]
      else w

  abbrev to_json : Option Text → Result LoginError Text
  to_json none = err no_json
  to_json (some t) = ok t

  -- `loginUser`
  unfoldable pub login_user : User → Server env → Result LoginError Text × Server env
  login_user user s =
      let sessions = get_active_sessions user.username s.registry in
      let s' = record s { world = create_home user s.world } in
      if not (is_abs user.home_dir)
      then (err (invalid_home_dir user.home_dir), s)
      else if ltb_ℤ (pos 0) user.max_sessions && leb_ℤ user.max_sessions (pos sessions)
      then (err (too_many_sessions sessions), s')
      else (to_json (json.marshal user), s')

  abbrev or_refuse : Result ProviderError User → Server env → Result LoginError Text × Server env
  or_refuse (err e) s = (err (refused e), s)
  or_refuse (ok user) s = login_user user s

  -- `validatePasswordCredentials`
  unfoldable pub validate_password_credentials :
      Text → Text → Server env → Result LoginError Text × Server env
  validate_password_credentials user pass s =
      or_refuse (provider.validate_user_and_pass user pass s.store) s

  -- `validatePublicKeyCredentials`
  unfoldable pub validate_public_key_credentials :
      BaseKey → Text → Text → Server env → Result LoginError Text × Server env
  validate_public_key_credentials base user pub_key s = elim (check_base_key base user pub_key) [
    | some p ↦ (ok p, s)
    | none ↦ or_refuse (provider.validate_user_and_pub_key user pub_key s.store) s
  ]
