-- ===== src/Error/Db.antt =====
-- src/error.rs: `impl DbError` and `impl ErrorInfo for DbError`.
use servir.Prelude.{String, some}
use servir.Error.Context.{ErrorContext, new, error_only}
use servir.Error.Kinds.{DbError, ServirError}
use servir.Error.Info.{StatusCode, ErrorInfo}

-- `DbError::connection`, and so on below.
abbrev pub connection : String → String → ServirError
connection url error = ServirError.db (DbError.connection url error)

abbrev pub migration : String → ServirError
migration error = ServirError.db (DbError.migration error)

abbrev pub user_create : String → String → ServirError
user_create username error = ServirError.db (DbError.user_create username error)

abbrev pub user_find_by_username : String → String → ServirError
user_find_by_username username error = ServirError.db (DbError.user_find_by_username username error)

abbrev pub user_find_by_id : String → String → ServirError
user_find_by_id user_id error = ServirError.db (DbError.user_find_by_id user_id error)

abbrev pub store_refresh_token : String → String → ServirError
store_refresh_token username error = ServirError.db (DbError.store_refresh_token username error)

abbrev pub delete_refresh_tokens_for_user : String → String → ServirError
delete_refresh_tokens_for_user username error =
    ServirError.db (DbError.delete_refresh_tokens_for_user username error)

abbrev pub consume_refresh_token : String → ServirError
consume_refresh_token error = ServirError.db (DbError.consume_refresh_token error)

abbrev pub unknown : String → String → ServirError
unknown operation error = ServirError.db (DbError.unknown operation error)

abbrev pub status_code : DbError → StatusCode
status_code e = 500

abbrev pub error_id : DbError → String
error_id (DbError.connection url error) = "DB_CONNECTION_FAILED"
error_id (DbError.migration error) = "DB_MIGRATION_FAILED"
error_id (DbError.user_create username error) = "DB_USER_CREATE_FAILED"
error_id (DbError.user_find_by_username username error) = "DB_USER_FIND_BY_USERNAME_FAILED"
error_id (DbError.user_find_by_id user_id error) = "DB_USER_FIND_BY_ID_FAILED"
error_id (DbError.store_refresh_token username error) = "DB_STORE_REFRESH_TOKEN_FAILED"
error_id (DbError.delete_refresh_tokens_for_user username error) =
    "DB_DELETE_REFRESH_TOKENS_FOR_USER_FAILED"
error_id (DbError.consume_refresh_token error) = "DB_CONSUME_REFRESH_TOKEN_FAILED"
error_id (DbError.unknown operation error) = "DB_UNKNOWN"

abbrev pub context : DbError → ErrorContext
context (DbError.connection url error) = new (some error) "url" url
context (DbError.migration error) = error_only error
context (DbError.user_create username error) = new (some error) "username" username
context (DbError.user_find_by_username username error) = new (some error) "username" username
context (DbError.user_find_by_id user_id error) = new (some error) "user_id" user_id
context (DbError.store_refresh_token username error) = new (some error) "username" username
context (DbError.delete_refresh_tokens_for_user username error) =
    new (some error) "username" username
context (DbError.consume_refresh_token error) = error_only error
context (DbError.unknown operation error) = new (some error) "operation" operation

instance abbrev pub db_error_info : ErrorInfo DbError
db_error_info = record { status_code = status_code; error_id = error_id; context = context }
