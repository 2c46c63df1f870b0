-- ===== src/Async/Parts.antt =====
-- src/db/auth.rs and src/auth/core.rs: what the handlers call, with each call of the clock, of a source
-- of randomness and of SQLite on its own.
use servir.Prelude.{ℕ, String, Bool, Option, map_err, ltb, as_i64, add_i64}
use mathlib.Core.Option
use servir.System.{System}
use servir.Error.Kinds.{ServirError}
use servir.Error.Db
use servir.Error.AuthUser
use servir.Error.AuthToken
use servir.Auth.Claims.{Claims, access, refresh as refresh_kind}
use servir.Auth.Config.{AuthConfig}
use servir.Auth.Token.{new_claims, token_error}
use servir.Db.Schema.{
  Tables, insert_user, select_user_by_username, select_user_by_id, insert_token, delete_live_token,
  delete_tokens_of,
}
use servir.Db.Repository.{User, from_row, create_user_error}
use servir.Async.Proc.{Async, pure, lift, call, query, ◌>>=◌, ◌>>◌}

module _ (sys : System) where
  unfoldable pub hash_password : String → Async Tables ServirError String
  hash_password plaintext = do
    salt ← call sys.salt
    lift (map_err AuthUser.password_hash_failed (sys.argon2_hash plaintext salt))

  unfoldable pub create_user : String → String → Async Tables ServirError User
  unfolding insert_user
  create_user username password_hash = do
    id ← call sys.uuid
    now ← call sys.clock
    query sys (create_user_error username) (
        insert_user sys (record {
          id = id;
          username = username;
          password_hash = password_hash;
          created_at = as_i64 now;
        }))
    pure (record { id = id; username = username; password_hash = password_hash })

  unfoldable pub find_user_by_username : String → Async Tables ServirError (Option User)
  find_user_by_username username = do
    row ←
        query sys (λ e. Db.user_find_by_username username e.text) (select_user_by_username username)
    pure (Option.map from_row row)

  unfoldable pub find_user_by_id : String → Async Tables ServirError (Option User)
  find_user_by_id user_id = do
    row ← query sys (λ e. Db.user_find_by_id user_id e.text) (select_user_by_id user_id)
    pure (Option.map from_row row)

  unfoldable pub store_refresh_token :
      String → String → String → ℕ → Async Tables ServirError (Unit {0})
  store_refresh_token jti user_id username ttl_secs = do
    now ← call sys.clock
    let expires_at = add_i64 (as_i64 now) (as_i64 ttl_secs)
    created ← call sys.clock
    query sys (λ e. Db.store_refresh_token username e.text)
        (insert_token sys (record {
          jti = jti;
          user_id = user_id;
          expires_at = expires_at;
          created_at = as_i64 created;
        }))

  unfoldable pub consume_refresh_token : String → Async Tables ServirError Bool
  consume_refresh_token jti = do
    now ← call sys.clock
    rows ← query sys (λ e. Db.consume_refresh_token e.text) (delete_live_token jti (as_i64 now))
    pure (ltb 0 rows)

  unfoldable pub delete_refresh_tokens_for_user : String → Async Tables ServirError (Unit {0})
  delete_refresh_tokens_for_user user_id =
      query sys (λ e. Db.delete_refresh_tokens_for_user user_id e.text) (delete_tokens_of user_id)

  unfoldable pub issue_access_token : String → String → AuthConfig → Async Tables ServirError String
  issue_access_token user_id username config = do
    now ← call sys.clock
    jti ← call sys.uuid
    lift (
        map_err AuthToken.encode_failed (
          sys.jwt_encode (new_claims user_id username now config.access_token_ttl_secs jti access)
            config.secret))

  unfoldable pub issue_refresh_token :
      String → String → AuthConfig → Async Tables ServirError (String × String)
  issue_refresh_token user_id username config = do
    now ← call sys.clock
    jti ← call sys.uuid
    token ← lift (
        map_err AuthToken.encode_failed (
          sys.jwt_encode
            (new_claims user_id username now config.refresh_token_ttl_secs jti refresh_kind)
            config.secret))
    pure (token, jti)

  unfoldable pub verify_token : String → AuthConfig → Async Tables ServirError Claims
  verify_token token config = do
    now ← call sys.clock
    lift (map_err token_error (sys.jwt_decode token config.secret now))
