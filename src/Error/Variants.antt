-- ===== src/Error/Variants.antt =====
-- src/error.rs: the variants of the error types, and the variant that an `error_id` stands for.
use servir.Prelude.{ℕ, String, ◌==◌, ◌≡◌, refl, if◌then◌else◌}
use servir.Error.Kinds.{DbError, AuthUserError, AuthTokenError, ServirError}
use servir.Error.Servir.{error_id}

-- A number for each variant, over all the error types.
abbrev pub variant : ServirError → ℕ
variant (ServirError.db (DbError.connection url error)) = 0
variant (ServirError.db (DbError.migration error)) = 1
variant (ServirError.db (DbError.user_create username error)) = 2
variant (ServirError.db (DbError.user_find_by_username username error)) = 3
variant (ServirError.db (DbError.user_find_by_id user_id error)) = 4
variant (ServirError.db (DbError.store_refresh_token username error)) = 5
variant (ServirError.db (DbError.delete_refresh_tokens_for_user username error)) = 6
variant (ServirError.db (DbError.consume_refresh_token error)) = 7
variant (ServirError.db (DbError.unknown operation error)) = 8
variant (ServirError.auth_user AuthUserError.empty_username) = 9
variant (ServirError.auth_user AuthUserError.weak_password) = 10
variant (ServirError.auth_user (AuthUserError.already_exists username error)) = 11
variant (ServirError.auth_user (AuthUserError.invalid_credentials username)) = 12
variant (ServirError.auth_user (AuthUserError.password_hash_failed error)) = 13
variant (ServirError.auth_token AuthTokenError.expired) = 14
variant (ServirError.auth_token (AuthTokenError.invalid error)) = 15
variant (ServirError.auth_token AuthTokenError.missing_header) = 16
variant (ServirError.auth_token AuthTokenError.wrong_kind) = 17
variant (ServirError.auth_token AuthTokenError.invalid_refresh_token) = 18
variant (ServirError.auth_token (AuthTokenError.user_not_found user_id)) = 19
variant (ServirError.auth_token AuthTokenError.missing_layer) = 20
variant (ServirError.auth_token (AuthTokenError.encode_failed error)) = 21
variant (ServirError.bad_request message) = 22
variant ServirError.not_found = 23
variant (ServirError.io error) = 24

-- What the documentation comments of the constructors promise: the variant of an error ID.
abbrev pub variant_of_id : String → ℕ
variant_of_id id =
    if id == "DB_CONNECTION_FAILED"
    then 0
    else if id == "DB_MIGRATION_FAILED"
    then 1
    else if id == "DB_USER_CREATE_FAILED"
    then 2
    else if id == "DB_USER_FIND_BY_USERNAME_FAILED"
    then 3
    else if id == "DB_USER_FIND_BY_ID_FAILED"
    then 4
    else if id == "DB_STORE_REFRESH_TOKEN_FAILED"
    then 5
    else if id == "DB_DELETE_REFRESH_TOKENS_FOR_USER_FAILED"
    then 6
    else if id == "DB_CONSUME_REFRESH_TOKEN_FAILED"
    then 7
    else if id == "DB_UNKNOWN"
    then 8
    else if id == "EMPTY_USERNAME"
    then 9
    else if id == "WEAK_PASSWORD"
    then 10
    else if id == "ALREADY_EXISTS"
    then 11
    else if id == "INVALID_CREDENTIALS"
    then 12
    else if id == "PASSWORD_HASH_FAILED"
    then 13
    else if id == "TOKEN_EXPIRED"
    then 14
    else if id == "TOKEN_INVALID"
    then 15
    else if id == "MISSING_AUTHORIZATION_HEADER"
    then 16
    else if id == "WRONG_TOKEN_KIND"
    then 17
    else if id == "INVALID_REFRESH_TOKEN"
    then 18
    else if id == "USER_NOT_FOUND"
    then 19
    else if id == "AUTH_LAYER_MISSING"
    then 20
    else if id == "TOKEN_ENCODE_FAILED"
    then 21
    else if id == "BAD_REQUEST"
    then 22
    else if id == "NOT_FOUND"
    then 23
    else 24

pub variant_of_id-error_id : (e : ServirError) → variant_of_id (error_id e) ≡ variant e
variant_of_id-error_id (ServirError.db (DbError.connection u v)) = refl
variant_of_id-error_id (ServirError.db (DbError.migration u)) = refl
variant_of_id-error_id (ServirError.db (DbError.user_create u v)) = refl
variant_of_id-error_id (ServirError.db (DbError.user_find_by_username u v)) = refl
variant_of_id-error_id (ServirError.db (DbError.user_find_by_id u v)) = refl
variant_of_id-error_id (ServirError.db (DbError.store_refresh_token u v)) = refl
variant_of_id-error_id (ServirError.db (DbError.delete_refresh_tokens_for_user u v)) = refl
variant_of_id-error_id (ServirError.db (DbError.consume_refresh_token u)) = refl
variant_of_id-error_id (ServirError.db (DbError.unknown u v)) = refl
variant_of_id-error_id (ServirError.auth_user AuthUserError.empty_username) = refl
variant_of_id-error_id (ServirError.auth_user AuthUserError.weak_password) = refl
variant_of_id-error_id (ServirError.auth_user (AuthUserError.already_exists u v)) = refl
variant_of_id-error_id (ServirError.auth_user (AuthUserError.invalid_credentials u)) = refl
variant_of_id-error_id (ServirError.auth_user (AuthUserError.password_hash_failed u)) = refl
variant_of_id-error_id (ServirError.auth_token AuthTokenError.expired) = refl
variant_of_id-error_id (ServirError.auth_token (AuthTokenError.invalid u)) = refl
variant_of_id-error_id (ServirError.auth_token AuthTokenError.missing_header) = refl
variant_of_id-error_id (ServirError.auth_token AuthTokenError.wrong_kind) = refl
variant_of_id-error_id (ServirError.auth_token AuthTokenError.invalid_refresh_token) = refl
variant_of_id-error_id (ServirError.auth_token (AuthTokenError.user_not_found u)) = refl
variant_of_id-error_id (ServirError.auth_token AuthTokenError.missing_layer) = refl
variant_of_id-error_id (ServirError.auth_token (AuthTokenError.encode_failed u)) = refl
variant_of_id-error_id (ServirError.bad_request u) = refl
variant_of_id-error_id ServirError.not_found = refl
variant_of_id-error_id (ServirError.io u) = refl
