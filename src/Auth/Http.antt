-- ===== src/Auth/Http.antt =====
-- src/auth/http.rs: the handlers behind `mount_auth_routes`. The state of the routes is the database,
-- which is the world's, and the configuration. `Sessions` proves what opening a session does,
-- `Register`, `Login` and `Refresh` what the handlers do, `Bearers` what their tokens are good for, and
-- `Availability` when they succeed.
pub mod Sessions
pub mod Register
pub mod Login
pub mod Refresh
pub mod Bearers
pub mod Availability
use servir.Prelude.{String, is_empty, len, ltb, not}
use servir.Json.{str, obj, entry, end, Serialize}
use servir.Response.{ApiResponse, ok_data}
use servir.System.{System}
use servir.System.Actions.{Action, pure, lift, fail_if, or_fail, ◌>>=◌, ◌>>◌}
use servir.Auth.Claims.{same_kind, refresh as refresh_kind}
use servir.Auth.Config.{AuthConfig}
use servir.Auth.Password.{hash_password, verify_password}
use servir.Auth.Token.{issue_access_token, issue_refresh_token, verify_token}
use servir.Auth.Extractor.{Parts, auth_user}
use servir.Db.Schema.{Tables}
use servir.Db.Repository.{
  User, create_user, find_user_by_username, find_user_by_id, store_refresh_token,
  consume_refresh_token, delete_refresh_tokens_for_user,
}
use servir.Error.Kinds.{ServirError}
use servir.Error.AuthUser
use servir.Error.AuthToken

pub record RegisterRequest : Type 0 where
  pub username : String
  pub password : String

pub record LoginRequest : Type 0 where
  pub username : String
  pub password : String

pub record RefreshRequest : Type 0 where
  pub refresh_token : String

pub record LogoutRequest : Type 0 where
  pub refresh_token : String

pub record TokenResponse : Type 0 where
  pub access_token : String
  pub refresh_token : String
  pub token_type : String

pub record MeResponse : Type 0 where
  pub user_id : String
  pub username : String

instance abbrev pub token_response_serialize : Serialize TokenResponse
token_response_serialize = record {
  to_json = λ r. obj (
      entry "access_token" (str r.access_token)
        (entry "refresh_token" (str r.refresh_token) (entry "token_type" (str r.token_type) end)));
}

instance abbrev pub me_response_serialize : Serialize MeResponse
me_response_serialize = record {
  to_json = λ r. obj (entry "user_id" (str r.user_id) (entry "username" (str r.username) end));
}

module _ (sys : System) (config : AuthConfig) where
  -- The end of `register`, `login` and `refresh`: both tokens, the stored `jti`, and the answer.
  unfoldable pub issue_tokens : User → Action Tables ServirError (ApiResponse TokenResponse)
  issue_tokens user = do
    access_token ← issue_access_token sys user.id user.username config
    (refresh_token, jti) ← issue_refresh_token sys user.id user.username config
    store_refresh_token sys jti user.id user.username config.refresh_token_ttl_secs
    pure (
        ok_data (record {
          access_token = access_token;
          refresh_token = refresh_token;
          token_type = "Bearer";
        }))

  unfoldable pub register : RegisterRequest → Action Tables ServirError (ApiResponse TokenResponse)
  unfolding issue_tokens
  register body = do
    fail_if (is_empty body.username) AuthUser.empty_username
    fail_if (ltb (len body.password) 8) AuthUser.weak_password
    hash ← hash_password sys body.password
    user ← create_user sys body.username hash
    issue_tokens user

  unfoldable pub login : LoginRequest → Action Tables ServirError (ApiResponse TokenResponse)
  unfolding issue_tokens
  login body = do
    found ← find_user_by_username sys body.username
    user ← or_fail found (AuthUser.invalid_credentials body.username)
    matches ← lift (verify_password sys body.password user.password_hash)
    fail_if (not matches) (AuthUser.invalid_credentials body.username)
    issue_tokens user

  unfoldable pub refresh : RefreshRequest → Action Tables ServirError (ApiResponse TokenResponse)
  unfolding issue_tokens
  refresh body = do
    claims ← verify_token sys body.refresh_token config
    fail_if (not (same_kind claims.kind refresh_kind)) AuthToken.wrong_kind
    valid ← consume_refresh_token sys claims.jti
    fail_if (not valid) AuthToken.invalid_refresh_token
    found ← find_user_by_id sys claims.sub
    user ← or_fail found (AuthToken.user_not_found claims.sub)
    issue_tokens user

  unfoldable pub logout : LogoutRequest → Action Tables ServirError (ApiResponse (Unit {0}))
  logout body = do
    claims ← verify_token sys body.refresh_token config
    fail_if (not (same_kind claims.kind refresh_kind)) AuthToken.wrong_kind
    delete_refresh_tokens_for_user sys claims.sub
    pure (ok_data tt)

-- The extractor `AuthUser`, then the handler's body.
unfoldable pub me : {D : Type 0} → System → Parts → Action D ServirError (ApiResponse MeResponse)
me sys parts = do
  claims ← auth_user sys parts
  pure (ok_data (record { user_id = claims.sub; username = claims.username }))
