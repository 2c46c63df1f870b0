-- ===== src/System.antt =====
-- What the program calls and does not implement, as one parameter `System`: the clock, the sources
-- of randomness, SQLite's failures and messages, Argon2 and JSON web tokens. A source that answers
-- differently at each call is a function of the tick, the number of such calls made before.
-- `Actions` has the state that the calls thread through; `Laws` the documented behaviour.
pub mod Actions
pub mod Parts
pub mod Posts
pub mod Laws
pub mod Sample
use servir.Prelude.{ℕ, String, Bool, List, Option, Result}
use servir.Auth.Claims.{Claims}

-- A `jsonwebtoken` error: its kind, as far as the program tells kinds apart, and its text.
pub data JwtErrorKind : Type 0 where
  expired_signature other : JwtErrorKind

pub record JwtError : Type 0 where
  pub kind : JwtErrorKind
  pub text : String

-- The constraints of the schemas, by table and column.
pub data Constraint : Type 0 where
  users_id users_username refresh_tokens_jti refresh_tokens_user_id : Constraint
  auth_config_key user_profiles_id : Constraint

pub record System : Type 0 where
  -- `SystemTime::now()` in whole seconds after the epoch
  pub clock : ℕ → ℕ
  -- `Uuid::new_v4().to_string()`
  pub uuid : ℕ → String
  -- `SaltString::generate(&mut OsRng)`
  pub salt : ℕ → String
  -- `getrandom::fill` on 32 bytes
  pub random_bytes : ℕ → List ℕ
  pub hex_encode : List ℕ → String
  -- the text of an error of the database that is no constraint violation, where the call at this
  -- tick meets one
  pub fault : ℕ → Option String
  -- `SqliteConnectOptions::from_str`: whether the URL is one, or the error's text
  pub parse_url : String → Result String (Unit {0})
  -- the text of SQLite's error for a violated constraint
  pub constraint_text : Constraint → String
  -- `Argon2::hash_password` of a password and a salt: the PHC string, or the error's text
  pub argon2_hash : String → String → Result String String
  -- `PasswordHash::new`: the parsed hash, kept as its text, or the error's text
  pub phc_parse : String → Result String String
  -- `Argon2::verify_password(..).is_ok()` of a password and a parsed hash
  pub argon2_verify : String → String → Bool
  -- `jsonwebtoken::encode` with the default header, of claims and a secret
  pub jwt_encode : Claims → String → Result String String
  -- `jsonwebtoken::decode` with the default validation, of a token, a secret and the time
  pub jwt_decode : String → String → ℕ → Result JwtError Claims
