-- ===== src/Auth/Service.antt =====
-- src/auth/http.rs: the routes of `mount_auth_routes` under the `AuthLayer`, as one function from a
-- request to its response. A request comes with what axum makes of its body or its headers. `Traces`
-- is sequences of requests, `Safety` and `Credentials` what they cannot do, `Sessions` and `Rotation`
-- what a user can do, and `Restart` what a restart keeps.
pub mod Traces
pub mod Safety
pub mod Credentials
pub mod Sessions
pub mod Restart
pub mod Rotation
use servir.Prelude.{String, Result, List, [], ◌∷◌}
use servir.Json.{Serialize, unit_serialize}
use servir.Response.{ApiResponse, Response, respond}
use servir.Error.Kinds.{ServirError}
use servir.System.{System}
use servir.System.Actions.{World, Action, lift, ◌>>=◌}
use servir.Auth.Config.{AuthConfig}
use servir.Auth.Extractor.{Parts, AuthLayer, call_layer}
use servir.Auth.Http.{
  RegisterRequest, LoginRequest, RefreshRequest, LogoutRequest, MeResponse,
  token_response_serialize, me_response_serialize, register, login, refresh, logout, me,
}
use servir.Db.Schema.{Tables}
use servir.Server.AppJson.{from_request}

-- The routes, each with its body: the value, or the text of axum's rejection.
pub data Request : Type 0 where
  post_register : Result String RegisterRequest → Request
  post_login : Result String LoginRequest → Request
  post_refresh : Result String RefreshRequest → Request
  post_logout : Result String LogoutRequest → Request
  get_me : Parts → Request

-- A handler's result as the response, and the world after it.
unfoldable pub answer :
    {T : Type 0} ⦃s : Serialize T⦄
    → Result ServirError (ApiResponse T) × World Tables
    → Response × World Tables
answer out = (respond out.0, out.1)

-- The extractor `AppJson(body)`, then the handler.
unfoldable pub with_body :
    {B A : Type 0}
    → (B → Action Tables ServirError A)
    → Result String B
    → Action Tables ServirError A
unfolding from_request
with_body handler body = do value ← lift (from_request body); handler value

-- The server whose routes and layer were given `config`.
unfoldable pub serve : System → AuthConfig → Request → World Tables → Response × World Tables
unfolding answer with_body
serve sys config (post_register body) w = answer (with_body (register sys config) body w)
serve sys config (post_login body) w = answer (with_body (login sys config) body w)
serve sys config (post_refresh body) w = answer (with_body (refresh sys config) body w)
serve sys config (post_logout body) w = answer (with_body (logout sys config) body w)
serve sys config (get_me parts) w = answer (
    call_layer {F = Action Tables ServirError (ApiResponse MeResponse)} (record { config = config })
      (me sys) parts w)
