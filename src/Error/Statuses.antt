-- ===== src/Error/Statuses.antt =====
-- src/error.rs: an `error_id` stands for one variant of one error type, and fixes its status.
use servir.Prelude.{String, Option, none, some, ◌==◌, ◌≡◌, refl, ap, sym, ◌∙◌, if◌then◌else◌}
use servir.Error.Kinds.{DbError, AuthUserError, AuthTokenError, ServirError}
use servir.Error.Info.{StatusCode}
use servir.Error.Servir.{status_code, error_id}
use servir.Error.Variants.{variant, variant_of_id, variant_of_id-error_id}

-- The status of each error ID that an error has.
abbrev status_of_id : String → StatusCode
status_of_id id =
    if id == "EMPTY_USERNAME"
    then 400
    else if id == "WEAK_PASSWORD"
    then 400
    else if id == "BAD_REQUEST"
    then 400
    else if id == "ALREADY_EXISTS"
    then 409
    else if id == "NOT_FOUND"
    then 404
    else if id == "INVALID_CREDENTIALS"
    then 401
    else if id == "TOKEN_EXPIRED"
    then 401
    else if id == "TOKEN_INVALID"
    then 401
    else if id == "MISSING_AUTHORIZATION_HEADER"
    then 401
    else if id == "WRONG_TOKEN_KIND"
    then 401
    else if id == "INVALID_REFRESH_TOKEN"
    then 401
    else if id == "USER_NOT_FOUND"
    then 401
    else 500

status_of_id-error_id : (e : ServirError) → status_of_id (error_id e) ≡ status_code e
status_of_id-error_id (ServirError.db (DbError.connection u v)) = refl
status_of_id-error_id (ServirError.db (DbError.migration u)) = refl
status_of_id-error_id (ServirError.db (DbError.user_create u v)) = refl
status_of_id-error_id (ServirError.db (DbError.user_find_by_username u v)) = refl
status_of_id-error_id (ServirError.db (DbError.user_find_by_id u v)) = refl
status_of_id-error_id (ServirError.db (DbError.store_refresh_token u v)) = refl
status_of_id-error_id (ServirError.db (DbError.delete_refresh_tokens_for_user u v)) = refl
status_of_id-error_id (ServirError.db (DbError.consume_refresh_token u)) = refl
status_of_id-error_id (ServirError.db (DbError.unknown u v)) = refl
status_of_id-error_id (ServirError.auth_user AuthUserError.empty_username) = refl
status_of_id-error_id (ServirError.auth_user AuthUserError.weak_password) = refl
status_of_id-error_id (ServirError.auth_user (AuthUserError.already_exists u v)) = refl
status_of_id-error_id (ServirError.auth_user (AuthUserError.invalid_credentials u)) = refl
status_of_id-error_id (ServirError.auth_user (AuthUserError.password_hash_failed u)) = refl
status_of_id-error_id (ServirError.auth_token AuthTokenError.expired) = refl
status_of_id-error_id (ServirError.auth_token (AuthTokenError.invalid u)) = refl
status_of_id-error_id (ServirError.auth_token AuthTokenError.missing_header) = refl
status_of_id-error_id (ServirError.auth_token AuthTokenError.wrong_kind) = refl
status_of_id-error_id (ServirError.auth_token AuthTokenError.invalid_refresh_token) = refl
status_of_id-error_id (ServirError.auth_token (AuthTokenError.user_not_found u)) = refl
status_of_id-error_id (ServirError.auth_token AuthTokenError.missing_layer) = refl
status_of_id-error_id (ServirError.auth_token (AuthTokenError.encode_failed u)) = refl
status_of_id-error_id (ServirError.bad_request u) = refl
status_of_id-error_id ServirError.not_found = refl
status_of_id-error_id (ServirError.io u) = refl

-- The `Status Code` that a documentation comment gives beside an `Error ID`.
abbrev pub documented_status : String → Option StatusCode
documented_status id =
    if id == "DB_CONNECTION_FAILED"
    then some 500
    else if id == "DB_MIGRATION_FAILED"
    then some 500
    else if id == "DB_USER_CREATE_FAILED"
    then some 500
    else if id == "DB_USER_FIND_BY_USERNAME_FAILED"
    then some 500
    else if id == "DB_USER_FIND_BY_ID_FAILED"
    then some 500
    else if id == "DB_STORE_REFRESH_TOKEN_FAILED"
    then some 500
    else if id == "DB_DELETE_REFRESH_TOKENS_FOR_USER_FAILED"
    then some 500
    else if id == "DB_CONSUME_REFRESH_TOKEN_FAILED"
    then some 500
    else if id == "DB_UNKNOWN"
    then some 500
    else if id == "EMPTY_USERNAME"
    then some 400
    else if id == "WEAK_PASSWORD"
    then some 400
    else if id == "ALREADY_EXISTS"
    then some 409
    else if id == "INVALID_CREDENTIALS"
    then some 401
    else if id == "PASSWORD_HASH_FAILED"
    then some 500
    else if id == "TOKEN_EXPIRED"
    then some 401
    else if id == "TOKEN_INVALID"
    then some 401
    else if id == "MISSING_AUTHORIZATION_HEADER"
    then some 401
    else if id == "WRONG_TOKEN_KIND"
    then some 401
    else if id == "INVALID_REFRESH_TOKEN"
    then some 401
    else if id == "USER_NOT_FOUND"
    then some 401
    else if id == "AUTH_LAYER_MISSING"
    then some 500
    else if id == "TOKEN_ENCODE_FAILED"
    then some 500
    else if id == "BAD_REQUEST"
    then some 400
    else none

-- The errors whose constructor has a documentation comment: all but `NotFound` and `Io`.
abbrev pub IsDocumented : ServirError → Type 0
IsDocumented ServirError.not_found = ⊥
IsDocumented (ServirError.io e) = ⊥
IsDocumented _ = Unit {0}

-- Every error whose constructor has a documentation comment, that is each but `NotFound` and `Io`, is
-- answered with the status that the comment gives beside the error's ID.
pub status_code-eq-documented_status :
    (e : ServirError) → IsDocumented e → documented_status (error_id e) ≡ some (status_code e)
status_code-eq-documented_status (ServirError.db (DbError.connection u v)) h = refl
status_code-eq-documented_status (ServirError.db (DbError.migration u)) h = refl
status_code-eq-documented_status (ServirError.db (DbError.user_create u v)) h = refl
status_code-eq-documented_status (ServirError.db (DbError.user_find_by_username u v)) h = refl
status_code-eq-documented_status (ServirError.db (DbError.user_find_by_id u v)) h = refl
status_code-eq-documented_status (ServirError.db (DbError.store_refresh_token u v)) h = refl
status_code-eq-documented_status (ServirError.db (DbError.delete_refresh_tokens_for_user u v)) h =
    refl
status_code-eq-documented_status (ServirError.db (DbError.consume_refresh_token u)) h = refl
status_code-eq-documented_status (ServirError.db (DbError.unknown u v)) h = refl
status_code-eq-documented_status (ServirError.auth_user AuthUserError.empty_username) h = refl
status_code-eq-documented_status (ServirError.auth_user AuthUserError.weak_password) h = refl
status_code-eq-documented_status (ServirError.auth_user (AuthUserError.already_exists u v)) h = refl
status_code-eq-documented_status (ServirError.auth_user (AuthUserError.invalid_credentials u)) h =
    refl
status_code-eq-documented_status (ServirError.auth_user (AuthUserError.password_hash_failed u)) h =
    refl
status_code-eq-documented_status (ServirError.auth_token AuthTokenError.expired) h = refl
status_code-eq-documented_status (ServirError.auth_token (AuthTokenError.invalid u)) h = refl
status_code-eq-documented_status (ServirError.auth_token AuthTokenError.missing_header) h = refl
status_code-eq-documented_status (ServirError.auth_token AuthTokenError.wrong_kind) h = refl
status_code-eq-documented_status (ServirError.auth_token AuthTokenError.invalid_refresh_token) h =
    refl
status_code-eq-documented_status (ServirError.auth_token (AuthTokenError.user_not_found u)) h = refl
status_code-eq-documented_status (ServirError.auth_token AuthTokenError.missing_layer) h = refl
status_code-eq-documented_status (ServirError.auth_token (AuthTokenError.encode_failed u)) h = refl
status_code-eq-documented_status (ServirError.bad_request u) h = refl
status_code-eq-documented_status ServirError.not_found h = absurd h
status_code-eq-documented_status (ServirError.io u) h = absurd h

-- Two errors with the same error ID are the same variant of the same error type, and are answered
-- with the same status: a client can dispatch on the error ID alone.
pub error_id-determines_variant :
    (e f : ServirError)
    → error_id e ≡ error_id f
    → (variant e ≡ variant f) × (status_code e ≡ status_code f)
error_id-determines_variant e f h = (
  sym (variant_of_id-error_id e) ∙ ap variant_of_id h ∙ variant_of_id-error_id f,
  sym (status_of_id-error_id e) ∙ ap status_of_id h ∙ status_of_id-error_id f,
)
