-- ===== src/Error/Kinds.antt =====
-- src/error.rs: the error types. An `std::io::Error` is kept as the text that it displays.
use servir.Prelude.{String}

pub data DbError : Type 0 where
  connection : (url error : String) → DbError
  migration : (error : String) → DbError
  user_create : (username error : String) → DbError
  user_find_by_username : (username error : String) → DbError
  user_find_by_id : (user_id error : String) → DbError
  store_refresh_token : (username error : String) → DbError
  delete_refresh_tokens_for_user : (username error : String) → DbError
  consume_refresh_token : (error : String) → DbError
  unknown : (operation error : String) → DbError

pub data AuthUserError : Type 0 where
  empty_username : AuthUserError
  weak_password : AuthUserError
  already_exists : (username error : String) → AuthUserError
  invalid_credentials : (username : String) → AuthUserError
  password_hash_failed : (error : String) → AuthUserError

pub data AuthTokenError : Type 0 where
  expired : AuthTokenError
  invalid : (error : String) → AuthTokenError
  missing_header : AuthTokenError
  wrong_kind : AuthTokenError
  invalid_refresh_token : AuthTokenError
  user_not_found : (user_id : String) → AuthTokenError
  missing_layer : AuthTokenError
  encode_failed : (error : String) → AuthTokenError

pub data ServirError : Type 0 where
  db : DbError → ServirError
  auth_user : AuthUserError → ServirError
  auth_token : AuthTokenError → ServirError
  bad_request : (message : String) → ServirError
  not_found : ServirError
  io : (error : String) → ServirError
