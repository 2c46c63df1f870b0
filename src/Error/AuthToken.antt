-- ===== src/Error/AuthToken.antt =====
-- src/error.rs: `impl AuthTokenError` and `impl ErrorInfo for AuthTokenError`.
use servir.Prelude.{String, none}
use servir.Error.Context.{ErrorContext, new, error_only, empty}
use servir.Error.Kinds.{AuthTokenError, ServirError}
use servir.Error.Info.{StatusCode, ErrorInfo}

-- `AuthTokenError::expired`, and so on below.
abbrev pub expired : ServirError
expired = ServirError.auth_token AuthTokenError.expired

abbrev pub invalid : String → ServirError
invalid error = ServirError.auth_token (AuthTokenError.invalid error)

abbrev pub missing_header : ServirError
missing_header = ServirError.auth_token AuthTokenError.missing_header

abbrev pub wrong_kind : ServirError
wrong_kind = ServirError.auth_token AuthTokenError.wrong_kind

abbrev pub invalid_refresh_token : ServirError
invalid_refresh_token = ServirError.auth_token AuthTokenError.invalid_refresh_token

abbrev pub user_not_found : String → ServirError
user_not_found user_id = ServirError.auth_token (AuthTokenError.user_not_found user_id)

abbrev pub missing_layer : ServirError
missing_layer = ServirError.auth_token AuthTokenError.missing_layer

abbrev pub encode_failed : String → ServirError
encode_failed error = ServirError.auth_token (AuthTokenError.encode_failed error)

abbrev pub status_code : AuthTokenError → StatusCode
status_code AuthTokenError.missing_layer = 500
status_code (AuthTokenError.encode_failed error) = 500
status_code _ = 401

abbrev pub error_id : AuthTokenError → String
error_id AuthTokenError.expired = "TOKEN_EXPIRED"
error_id (AuthTokenError.invalid error) = "TOKEN_INVALID"
error_id AuthTokenError.missing_header = "MISSING_AUTHORIZATION_HEADER"
error_id AuthTokenError.wrong_kind = "WRONG_TOKEN_KIND"
error_id AuthTokenError.invalid_refresh_token = "INVALID_REFRESH_TOKEN"
error_id (AuthTokenError.user_not_found user_id) = "USER_NOT_FOUND"
error_id AuthTokenError.missing_layer = "AUTH_LAYER_MISSING"
error_id (AuthTokenError.encode_failed error) = "TOKEN_ENCODE_FAILED"

abbrev pub context : AuthTokenError → ErrorContext
context (AuthTokenError.invalid error) = error_only error
context (AuthTokenError.user_not_found user_id) = new none "user_id" user_id
context (AuthTokenError.encode_failed error) = error_only error
context _ = empty

instance abbrev pub auth_token_error_info : ErrorInfo AuthTokenError
auth_token_error_info = record { status_code = status_code; error_id = error_id; context = context }
