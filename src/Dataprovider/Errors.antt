-- ===== src/Dataprovider/Errors.antt =====
-- dataprovider/dataprovider.go: the kinds of error that callers tell apart.
use sshserv.Prelude.{ℕ}
use sshserv.Prelude.Text.{Text}

-- The checks of `validateUser`.
pub data Invalid : Type 0 where
  mandatory_missing no_credentials no_permissions home_not_absolute : Invalid
  invalid_permission : Text → Invalid
  invalid_key : ℕ → Invalid

-- `ValidationError`, `MethodDisabledError`, `RecordNotFoundError`, and the untyped errors:
-- those built by `errors.New` or `fmt.Errorf` here, and those that a library returned.
pub data ProviderError : Type 0 where
  validation : Invalid → ProviderError
  manage_users_disabled track_quota_disabled : ProviderError
  record_not_found : ProviderError
  already_exists : ProviderError
  missing_buckets : ProviderError
  empty_credentials invalid_credentials : ProviderError
  bad_hash_format unsupported_hash bad_iterations : ProviderError
  library_error : ProviderError
