-- ===== src/Api.antt =====
-- api/: the handlers of the REST API. A response is a value; the routing, the reading of the body
-- and the writing of the response are the libraries' chi and net/http.
pub mod Users
pub mod Connections
use sshserv.Prelude.{ℕ, List, Option}
use sshserv.Prelude.Text.{Text}
use sshserv.Dataprovider.User.{User}
use sshserv.Dataprovider.Errors.{
  ProviderError, validation, manage_users_disabled, track_quota_disabled,
}

-- What `sendAPIResponse` or `render.JSON` is called with: an error of the provider, a text with a
-- status, the error of a body that is not JSON, or a value.
pub data Response : Type 0 where
  failed : ProviderError → ℕ → Response
  message : Text → ℕ → Response
  not_decoded : Response
  one_user : User → Response
  many_users : List User → Response

-- The query of `getUsers`; a parameter may be missing.
pub record Query : Type 0 where
  pub limit : Option Text
  pub offset : Option Text
  pub order : Option Text
  pub username : Option Text

-- `render.DecodeJSON` of a body into a user, which keeps what the body does not name.
abbrev pub Decode : Type 0
Decode = Text → User → Option User

-- `getRespStatus`
unfoldable pub get_resp_status : ProviderError → ℕ
get_resp_status (validation i) = 400
get_resp_status manage_users_disabled = 403
get_resp_status track_quota_disabled = 403
get_resp_status _ = 500
