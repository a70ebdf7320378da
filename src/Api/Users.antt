-- ===== src/Api/Users.antt =====
-- api/user.go: the users over HTTP.
pub mod Listed
use sshserv.Prelude.{
  ℕ, Bool, true, false, not, ◌&&◌, ◌||◌, Option, none, some, List, [], ◌∷◌, Result, ok, err, ◌>>=◌,
  or_err, guard, if◌then◌else◌,
}
use sshserv.Prelude.Int.{ℤ, pos, ltb_ℤ, eqb_ℤ}
use sshserv.Prelude.Text.{Text, bytes, text_eq}
use sshserv.Prelude.Strings.{parse_int64}
use sshserv.Dataprovider.User.{User, zero_user}
use sshserv.Dataprovider.Errors.{ProviderError, record_not_found}
use sshserv.Dataprovider.Facade as Facade
use sshserv.Dataprovider.Facade.{Config, Provider}
use sshserv.Api.{
  Response, failed, message, not_decoded, one_user, many_users, Query, Decode, get_resp_status,
}

-- A number of the query, its default, or the error that is sent.
abbrev number_or : ℤ → Text → Option Text → Result Response ℤ
number_or d text none = ok d
number_or d text (some t) = or_err (parse_int64 t) (message text 400)

abbrev pub at_most_500 : ℤ → ℤ
at_most_500 n = if ltb_ℤ (pos 500) n then pos 500 else n

-- The limit is cut only if it is given.
abbrev pub limit_of : Option Text → Result Response ℤ
limit_of t = number_or (pos 100) (bytes "Invalid limit") t >>= λ n. ok (at_most_500 n)

abbrev pub order_of : Option Text → Result Response Text
order_of none = ok (bytes "ASC")
order_of (some t) =
    if text_eq t (bytes "ASC") || text_eq t (bytes "DESC")
    then ok t
    else err (message (bytes "Invalid order") 400)

abbrev name_of : Option Text → Text
name_of none = []
name_of (some t) = t

abbrev pub either : Result Response Response → Response
either (ok r) = r
either (err r) = r

-- The user as it is sent: `user.Password = ""; user.PublicKeys = []string{}`
abbrev pub without_credentials : User → User
without_credentials u = record u { password = []; public_keys = [] }

abbrev pub listed : List User × Option ProviderError → Response
listed (users, none) = many_users users
listed (users, some e) = failed e 500

module _ {S : Type 0} (cfg : Config) (p : Provider S) where
  -- `getUsers`
  unfoldable pub get_users : Query → S → Response
  get_users q s = either (do
    limit ← limit_of q.limit
    offset ← number_or (pos 0) (bytes "Invalid offset") q.offset
    order ← order_of q.order
    ok (listed (p.get_users limit offset order (name_of q.username) s)))

  -- The status after a failed lookup by id.
  abbrev lookup_failed : ProviderError → Response
  lookup_failed record_not_found = failed record_not_found 404
  lookup_failed e = failed e 500

  abbrev shown : Result ProviderError User → Response
  shown (ok user) = one_user (without_credentials user)
  shown (err e) = lookup_failed e

  abbrev id_of : Text → Result Response ℤ
  id_of t = or_err (parse_int64 t) (message (bytes "Invalid userID") 400)

  -- `getUserByID`
  unfoldable pub get_user_by_id : Text → S → Response
  get_user_by_id user_id s = either (id_of user_id >>= (λ id. ok (shown (p.get_user_by_id id s))))

  -- `addUser` after `AddUser`, with the name that was sent.
  abbrev added : Text → Option ProviderError × S → Response × S
  added name (some e, s) = (failed e (get_resp_status e), s)
  added name (none, s) = elim (p.user_exists name s) [
    | ok user ↦ (one_user (without_credentials user), s)
    | err e ↦ (failed e 500, s)
  ]

  -- `addUser`, with the clock that `AddUser` reads.
  unfoldable pub add_user : Decode → (ℕ → ℤ) → Text → S → Response × S
  add_user decode clock body s = elim (decode body zero_user) [
    | none ↦ (not_decoded, s)
    | some user ↦ added user.username (Facade.add_user cfg p clock user s)
  ]

  abbrev updated : Option ProviderError × S → Response × S
  updated (some e, s) = (failed e (get_resp_status e), s)
  updated (none, s) = (message (bytes "User updated") 200, s)

  -- `updateUser` once the stored user is found.
  unfoldable pub update_found : Decode → ℤ → Text → User → S → Response × S
  update_found decode id body stored s = elim (decode body stored) [
    | none ↦ (not_decoded, s)
    | some user ↦
        let mismatch = bytes "user ID in request body does not match user ID in path parameter" in
        if not (eqb_ℤ user.id id)
        then (message mismatch 400, s)
        else updated (Facade.update_user cfg p user s)
  ]

  -- A lookup of the user of a path, and what is done with it.
  abbrev with_user : Text → (ℤ → User → S → Response × S) → S → Response × S
  with_user user_id next s = elim (parse_int64 user_id) [
    | none ↦ (message (bytes "Invalid userID") 400, s)
    | some id ↦ elim (p.get_user_by_id id s) [
      | err e ↦ (lookup_failed e, s)
      | ok user ↦ next id user s
    ]
  ]

  -- `updateUser`
  unfoldable pub update_user : Decode → Text → Text → S → Response × S
  update_user decode user_id body =
      with_user user_id (λ id stored. update_found decode id body stored)

  abbrev deleted : Option ProviderError × S → Response × S
  deleted (some e, s) = (failed e 500, s)
  deleted (none, s) = (message (bytes "User deleted") 200, s)

  -- `deleteUser`
  unfoldable pub delete_user : Text → S → Response × S
  delete_user user_id = with_user user_id (λ id user s. deleted (Facade.delete_user cfg p user s))
