-- ===== src/Db/Repository.antt =====
-- src/db/auth.rs: `impl AuthRepository for Db`. The bound parameters of a statement are evaluated in
-- the order that the source writes them.
use servir.Prelude.{ℕ, String, as_i64, add_i64, Bool, ltb, Option, none, some, if◌then◌else◌}
use mathlib.Core.Option
use servir.System.{System}
use servir.System.Actions.{SqlError, Action, pure, call, ◌>>=◌, ◌>>◌, map_error, execute}
use servir.Error.Kinds.{ServirError}
use servir.Error.Db
use servir.Error.AuthUser
use servir.Db.Schema.{
  UserRow, Tables, insert_user, select_user_by_username, select_user_by_id, insert_token,
  delete_live_token, delete_tokens_of, select_config, insert_config,
}

-- `User`, as `FromRow` reads it.
pub record User : Type 0 where
  pub id : String
  pub username : String
  pub password_hash : String

abbrev pub from_row : UserRow → User
from_row r = record { id = r.id; username = r.username; password_hash = r.password_hash }

-- The `map_err` of `create_user`.
abbrev pub create_user_error : String → SqlError → ServirError
create_user_error username e =
    if e.is_unique_violation
    then AuthUser.already_exists username e.text
    else Db.user_create username e.text

module _ (sys : System) where
  abbrev pub now_secs : Action Tables ServirError ℕ
  now_secs = call sys.clock

  unfoldable pub create_user : String → String → Action Tables ServirError User
  unfolding insert_user
  create_user username password_hash = do
    id ← call sys.uuid
    now ← now_secs
    map_error (create_user_error username) (
        execute sys (
          insert_user sys (record {
            id = id;
            username = username;
            password_hash = password_hash;
            created_at = as_i64 now;
          })))
    pure (record { id = id; username = username; password_hash = password_hash })

  unfoldable pub find_user_by_username : String → Action Tables ServirError (Option User)
  unfolding select_user_by_username
  find_user_by_username username = do
    row ←
        map_error (λ e. Db.user_find_by_username username e.text)
          (execute sys (select_user_by_username username))
    pure (Option.map from_row row)

  unfoldable pub find_user_by_id : String → Action Tables ServirError (Option User)
  unfolding select_user_by_id
  find_user_by_id user_id = do
    row ←
        map_error (λ e. Db.user_find_by_id user_id e.text) (execute sys (select_user_by_id user_id))
    pure (Option.map from_row row)

  unfoldable pub store_refresh_token :
      String → String → String → ℕ → Action Tables ServirError (Unit {0})
  unfolding insert_token
  store_refresh_token jti user_id username ttl_secs = do
    now ← now_secs
    let expires_at = add_i64 (as_i64 now) (as_i64 ttl_secs)
    created ← now_secs
    map_error (λ e. Db.store_refresh_token username e.text)
        (execute sys (
          insert_token sys (record {
            jti = jti;
            user_id = user_id;
            expires_at = expires_at;
            created_at = as_i64 created;
          })))

  unfoldable pub consume_refresh_token : String → Action Tables ServirError Bool
  unfolding delete_live_token
  consume_refresh_token jti = do
    now ← now_secs
    rows ←
        map_error (λ e. Db.consume_refresh_token e.text)
          (execute sys (delete_live_token jti (as_i64 now)))
    pure (ltb 0 rows)

  unfoldable pub delete_refresh_tokens_for_user : String → Action Tables ServirError (Unit {0})
  unfolding delete_tokens_of
  delete_refresh_tokens_for_user user_id =
      map_error (λ e. Db.delete_refresh_tokens_for_user user_id e.text)
        (execute sys (delete_tokens_of user_id))

  -- The branch of `load_or_generate_secret` with no stored secret.
  unfoldable pub generate_secret : Action Tables ServirError String
  unfolding insert_config
  generate_secret = do
    bytes ← call sys.random_bytes
    let secret = sys.hex_encode bytes
    map_error (λ e. Db.unknown "store_signing_secret" e.text)
        (execute sys (insert_config sys (record { key = "signing_secret"; value = secret })))
    pure secret

  unfoldable pub load_or_generate_secret : Action Tables ServirError String
  unfolding select_config generate_secret
  load_or_generate_secret = do
    existing ←
        map_error (λ e. Db.unknown "load_signing_secret" e.text)
          (execute sys (select_config "signing_secret"))
    elim existing [ some row ↦ pure row.value | none ↦ generate_secret ]
