-- ===== src/Error/AuthUser.antt =====
-- src/error.rs: `impl AuthUserError` and `impl ErrorInfo for AuthUserError`.
use servir.Prelude.{String, none, some}
use servir.Error.Context.{ErrorContext, new, error_only, empty}
use servir.Error.Kinds.{AuthUserError, ServirError}
use servir.Error.Info.{StatusCode, ErrorInfo}

-- `AuthUserError::empty_username`, and so on below.
abbrev pub empty_username : ServirError
empty_username = ServirError.auth_user AuthUserError.empty_username

abbrev pub weak_password : ServirError
weak_password = ServirError.auth_user AuthUserError.weak_password

abbrev pub already_exists : String → String → ServirError
already_exists username error = ServirError.auth_user (AuthUserError.already_exists username error)

abbrev pub invalid_credentials : String → ServirError
invalid_credentials username = ServirError.auth_user (AuthUserError.invalid_credentials username)

abbrev pub password_hash_failed : String → ServirError
password_hash_failed error = ServirError.auth_user (AuthUserError.password_hash_failed error)

abbrev pub status_code : AuthUserError → StatusCode
status_code AuthUserError.empty_username = 400
status_code AuthUserError.weak_password = 400
status_code (AuthUserError.already_exists username error) = 409
status_code (AuthUserError.invalid_credentials username) = 401
status_code (AuthUserError.password_hash_failed error) = 500

abbrev pub error_id : AuthUserError → String
error_id AuthUserError.empty_username = "EMPTY_USERNAME"
error_id AuthUserError.weak_password = "WEAK_PASSWORD"
error_id (AuthUserError.already_exists username error) = "ALREADY_EXISTS"
error_id (AuthUserError.invalid_credentials username) = "INVALID_CREDENTIALS"
error_id (AuthUserError.password_hash_failed error) = "PASSWORD_HASH_FAILED"

abbrev pub context : AuthUserError → ErrorContext
context (AuthUserError.already_exists username error) = new (some error) "username" username
context (AuthUserError.invalid_credentials username) = new none "username" username
context (AuthUserError.password_hash_failed error) = error_only error
context _ = empty

instance abbrev pub auth_user_error_info : ErrorInfo AuthUserError
auth_user_error_info = record { status_code = status_code; error_id = error_id; context = context }
