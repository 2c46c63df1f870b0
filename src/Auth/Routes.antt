-- ===== src/Auth/Routes.antt =====
-- src/auth/http.rs: `mount_auth_routes`, with the handlers behind their extractors as axum's endpoints, and
-- the `AuthLayer` as a function of endpoints.
use servir.Prelude.{String, Result, ◌>>=◌, none}
use servir.Json.{Serialize, unit_serialize}
use servir.System.{System}
use servir.System.Parts.{Part, on_part}
use servir.System.Actions.{Action}
use servir.Error.Kinds.{ServirError}
use servir.Response.{ApiResponse, Response, into_response, respond}
use servir.Auth.Config.{AuthConfig}
use servir.Auth.Extractor.{Parts, AuthLayer, call_layer}
use servir.Auth.Http.{
  register, login, refresh, logout, me, token_response_serialize, me_response_serialize,
}
use servir.Auth.Service.{answer, with_body}
use servir.Db.Schema.{Tables}
use servir.Server.Axum.{HttpResponse, Endpoint, Body, get, post, Axum}

-- A response of a handler has no request ID.
abbrev pub sent : Response → HttpResponse
sent r = record { status = r.status; x_request_id = none; body = r.body }

module _ {D T : Type 0} ⦃s : Serialize T⦄ where
  -- A handler on a database whose extractor is `AppJson`.
  unfoldable pub json_handler :
      {B : Type 0}
      → Part D Tables
      → (Body → Result String B)
      → (B → Action Tables ServirError (ApiResponse T))
      → Endpoint D
  unfolding answer with_body
  json_handler part parse handler req w =
      let out = on_part part (λ v. answer (with_body handler (parse req.body) v)) w in
      (sent out.0, out.1)

  -- A handler on a database whose extractor reads the parts.
  unfoldable pub parts_handler :
      {P : Type 0} → Part D P → (Parts → Action P ServirError (ApiResponse T)) → Endpoint D
  parts_handler part handler req w =
      let out = on_part part (handler req.parts) w in (sent (respond out.0), out.1)

  -- A handler that answers an envelope, whatever the request.
  unfoldable pub plain_handler : ApiResponse T → Endpoint D
  plain_handler r req w = (sent (into_response r), w)

-- `AuthLayer` on an endpoint.
unfoldable pub auth_layer : {D : Type 0} → AuthLayer → Endpoint D → Endpoint D
unfolding call_layer
auth_layer l inner req = call_layer l (λ parts. inner (record req { parts = parts })) req.parts

module _ {D Router Addr Listener : Type 0} (sys : System) (axum : Axum D Router Addr Listener)
    (part : Part D Tables) where
  unfoldable pub mount_auth_routes : AuthConfig → Result String Router
  unfolding json_handler parts_handler
  mount_auth_routes config = do
    r₁ ←
        axum.route "/auth/register" post
          (json_handler part axum.json_register (register sys config)) axum.new
    r₂ ← axum.route "/auth/login" post (json_handler part axum.json_login (login sys config)) r₁
    r₃ ←
        axum.route "/auth/refresh" post (json_handler part axum.json_refresh (refresh sys config))
          r₂
    r₄ ← axum.route "/auth/logout" post (json_handler part axum.json_logout (logout sys config)) r₃
    axum.route "/auth/me" get (parts_handler part (me sys)) r₄
