-- ===== src/Error/Servir.antt =====
-- src/error.rs: `impl ServirError`, its `From` conversions, and `impl ErrorInfo for ServirError`.
use servir.Prelude.{String}
use servir.Error.Context.{ErrorContext, error_only, empty}
use servir.Error.Kinds.{DbError, AuthUserError, AuthTokenError, ServirError}
use servir.Error.Info.{StatusCode, ErrorInfo}
use servir.Error.Db
use servir.Error.AuthUser
use servir.Error.AuthToken

-- `ServirError::bad_request`
abbrev pub bad_request : String → ServirError
bad_request message = ServirError.bad_request message

-- `From<DbError>`, `From<AuthUserError>`, `From<AuthTokenError>` and `From<std::io::Error>`.
abbrev pub from_db : DbError → ServirError
from_db e = ServirError.db e

abbrev pub from_auth_user : AuthUserError → ServirError
from_auth_user e = ServirError.auth_user e

abbrev pub from_auth_token : AuthTokenError → ServirError
from_auth_token e = ServirError.auth_token e

abbrev pub from_io : String → ServirError
from_io e = ServirError.io e

abbrev pub status_code : ServirError → StatusCode
status_code (ServirError.db e) = Db.status_code e
status_code (ServirError.auth_user e) = AuthUser.status_code e
status_code (ServirError.auth_token e) = AuthToken.status_code e
status_code (ServirError.bad_request message) = 400
status_code ServirError.not_found = 404
status_code (ServirError.io e) = 500

abbrev pub error_id : ServirError → String
error_id (ServirError.db e) = Db.error_id e
error_id (ServirError.auth_user e) = AuthUser.error_id e
error_id (ServirError.auth_token e) = AuthToken.error_id e
error_id (ServirError.bad_request message) = "BAD_REQUEST"
error_id ServirError.not_found = "NOT_FOUND"
error_id (ServirError.io e) = "IO_ERROR"

abbrev pub context : ServirError → ErrorContext
context (ServirError.db e) = Db.context e
context (ServirError.auth_user e) = AuthUser.context e
context (ServirError.auth_token e) = AuthToken.context e
context (ServirError.bad_request message) = error_only message
context ServirError.not_found = empty
context (ServirError.io e) = error_only e

instance abbrev pub servir_error_info : ErrorInfo ServirError
servir_error_info = record { status_code = status_code; error_id = error_id; context = context }
