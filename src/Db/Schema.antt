-- ===== src/Db/Schema.antt =====
-- src/db/auth.rs, src/db/migrations: the auth tables, and the SQL statements of the repository with
-- the constraints of the schema. SQLite checks references, as sqlx turns that on.
use servir.Prelude.{ℕ, String, ◌==◌, ℤ, lt_ℤ, Bool, ◌&&◌, Option, ok, err, List, ◌∷◌, if◌then◌else◌}
use servir.Sql.{select, has, delete, affected}
use servir.System.{
  System, users_id, users_username, refresh_tokens_jti, refresh_tokens_user_id, auth_config_key,
}
use servir.System.Actions.{Statement, unique_violation, other_violation}

-- A row of `users`.
pub record UserRow : Type 0 where
  pub id : String
  pub username : String
  pub password_hash : String
  pub created_at : ℤ

-- A row of `refresh_tokens`.
pub record TokenRow : Type 0 where
  pub jti : String
  pub user_id : String
  pub expires_at : ℤ
  pub created_at : ℤ

-- A row of `auth_config`.
pub record ConfigRow : Type 0 where
  pub key : String
  pub value : String

pub record Tables : Type 0 where
  pub users : List UserRow
  pub refresh_tokens : List TokenRow
  pub auth_config : List ConfigRow

-- The WHERE clauses.
abbrev pub user_id_is : String → UserRow → Bool
user_id_is id r = r.id == id

abbrev pub username_is : String → UserRow → Bool
username_is name r = r.username == name

abbrev pub jti_is : String → TokenRow → Bool
jti_is jti r = r.jti == jti

abbrev pub owner_is : String → TokenRow → Bool
owner_is id r = r.user_id == id

abbrev pub key_is : String → ConfigRow → Bool
key_is key r = r.key == key

-- jti = ? AND expires_at > ?
abbrev pub is_live : String → ℤ → TokenRow → Bool
is_live jti now r = r.jti == jti && lt_ℤ now r.expires_at

-- INSERT INTO users
unfoldable pub insert_user : System → UserRow → Statement Tables (Unit {0})
insert_user sys row t =
    if has (user_id_is row.id) t.users
    then err (unique_violation sys users_id)
    else if has (username_is row.username) t.users
    then err (unique_violation sys users_username)
    else ok (tt, record t { users = row ∷ t.users })

-- SELECT id, username, password_hash FROM users WHERE username = ?
unfoldable pub select_user_by_username : String → Statement Tables (Option UserRow)
select_user_by_username name t = ok (select (username_is name) t.users, t)

-- SELECT id, username, password_hash FROM users WHERE id = ?
unfoldable pub select_user_by_id : String → Statement Tables (Option UserRow)
select_user_by_id id t = ok (select (user_id_is id) t.users, t)

-- INSERT INTO refresh_tokens
unfoldable pub insert_token : System → TokenRow → Statement Tables (Unit {0})
insert_token sys row t =
    if has (jti_is row.jti) t.refresh_tokens
    then err (unique_violation sys refresh_tokens_jti)
    else if has (user_id_is row.user_id) t.users
    then ok (tt, record t { refresh_tokens = row ∷ t.refresh_tokens })
    else err (other_violation sys refresh_tokens_user_id)

-- DELETE FROM refresh_tokens WHERE jti = ? AND expires_at > ?, with the number of rows
unfoldable pub delete_live_token : String → ℤ → Statement Tables ℕ
delete_live_token jti now t = ok (
  affected (is_live jti now) t.refresh_tokens,
  record t { refresh_tokens = delete (is_live jti now) t.refresh_tokens },
)

-- DELETE FROM refresh_tokens WHERE user_id = ?
unfoldable pub delete_tokens_of : String → Statement Tables (Unit {0})
delete_tokens_of id t = ok (tt, record t { refresh_tokens = delete (owner_is id) t.refresh_tokens })

-- SELECT value FROM auth_config WHERE key = ?
unfoldable pub select_config : String → Statement Tables (Option ConfigRow)
select_config key t = ok (select (key_is key) t.auth_config, t)

-- INSERT INTO auth_config
unfoldable pub insert_config : System → ConfigRow → Statement Tables (Unit {0})
insert_config sys row t =
    if has (key_is row.key) t.auth_config
    then err (unique_violation sys auth_config_key)
    else ok (tt, record t { auth_config = row ∷ t.auth_config })
