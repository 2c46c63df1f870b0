-- ===== src/Async/Handlers.antt =====
-- src/auth/http.rs: the handlers and the routes, call by call.
use servir.Prelude.{String, is_empty, len, ltb, not, Result}
use servir.Json.{unit_serialize}
use servir.System.{System}
use servir.Error.Kinds.{ServirError}
use servir.Error.AuthUser
use servir.Error.AuthToken
use servir.Response.{ApiResponse, Response, ok_data, respond}
use servir.Auth.Claims.{Claims, same_kind, access, refresh as refresh_kind}
use servir.Auth.Config.{AuthConfig}
use servir.Auth.Password.{verify_password}
use servir.Auth.Extractor.{Parts, call_layer, bearer_token}
use servir.Auth.Http.{
  RegisterRequest, LoginRequest, RefreshRequest, LogoutRequest, TokenResponse, MeResponse,
  token_response_serialize, me_response_serialize,
}
use servir.Auth.Service.{Request, post_register, post_login, post_refresh, post_logout, get_me}
use servir.Db.Schema.{Tables}
use servir.Db.Repository.{User}
use servir.Server.AppJson.{from_request}
use servir.Async.Proc.{Proc, Async, finish, pure, lift, fail_if, or_fail, ◌>>=◌, ◌>>◌}
use servir.Async.Parts.{
  hash_password, create_user, find_user_by_username, find_user_by_id, store_refresh_token,
  consume_refresh_token, delete_refresh_tokens_for_user, issue_access_token, issue_refresh_token,
  verify_token,
}

module _ (sys : System) (config : AuthConfig) where
  unfoldable pub issue_tokens : User → Async Tables ServirError (ApiResponse TokenResponse)
  issue_tokens user = do
    access_token ← issue_access_token sys user.id user.username config
    (refresh_token, jti) ← issue_refresh_token sys user.id user.username config
    store_refresh_token sys jti user.id user.username config.refresh_token_ttl_secs
    pure (
        ok_data (record {
          access_token = access_token;
          refresh_token = refresh_token;
          token_type = "Bearer";
        }))

  unfoldable pub register : RegisterRequest → Async Tables ServirError (ApiResponse TokenResponse)
  register body = do
    fail_if (is_empty body.username) AuthUser.empty_username
    fail_if (ltb (len body.password) 8) AuthUser.weak_password
    hash ← hash_password sys body.password
    user ← create_user sys body.username hash
    issue_tokens user

  unfoldable pub login : LoginRequest → Async Tables ServirError (ApiResponse TokenResponse)
  login body = do
    found ← find_user_by_username sys body.username
    user ← or_fail found (AuthUser.invalid_credentials body.username)
    matches ← lift (verify_password sys body.password user.password_hash)
    fail_if (not matches) (AuthUser.invalid_credentials body.username)
    issue_tokens user

  unfoldable pub refresh : RefreshRequest → Async Tables ServirError (ApiResponse TokenResponse)
  refresh body = do
    claims ← verify_token sys body.refresh_token config
    fail_if (not (same_kind claims.kind refresh_kind)) AuthToken.wrong_kind
    valid ← consume_refresh_token sys claims.jti
    fail_if (not valid) AuthToken.invalid_refresh_token
    found ← find_user_by_id sys claims.sub
    user ← or_fail found (AuthToken.user_not_found claims.sub)
    issue_tokens user

  unfoldable pub logout : LogoutRequest → Async Tables ServirError (ApiResponse (Unit {0}))
  logout body = do
    claims ← verify_token sys body.refresh_token config
    fail_if (not (same_kind claims.kind refresh_kind)) AuthToken.wrong_kind
    delete_refresh_tokens_for_user sys claims.sub
    pure (ok_data tt)

module _ (sys : System) where
  unfoldable pub auth_user : Parts → Async Tables ServirError Claims
  auth_user parts = do
    config ← or_fail parts.extension AuthToken.missing_layer
    token ← or_fail (bearer_token parts) AuthToken.missing_header
    claims ← verify_token sys token config
    fail_if (not (same_kind claims.kind access)) AuthToken.wrong_kind
    pure claims

  unfoldable pub me : Parts → Async Tables ServirError (ApiResponse MeResponse)
  me parts = do
    claims ← auth_user parts
    pure (ok_data (record { user_id = claims.sub; username = claims.username }))

unfoldable pub with_body :
    {B A : Type 0} → (B → Async Tables ServirError A) → Result String B → Async Tables ServirError A
with_body handler body = do value ← lift (from_request body); handler value

-- A request from its arrival to its response.
unfoldable pub serve : System → AuthConfig → Request → Proc Tables Response
serve sys config (post_register body) = finish respond (with_body (register sys config) body)
serve sys config (post_login body) = finish respond (with_body (login sys config) body)
serve sys config (post_refresh body) = finish respond (with_body (refresh sys config) body)
serve sys config (post_logout body) = finish respond (with_body (logout sys config) body)
serve sys config (get_me parts) = finish respond (
    call_layer {F = Async Tables ServirError (ApiResponse MeResponse)} (record { config = config })
      (me sys) parts)
