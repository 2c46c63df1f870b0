-- ===== src/Server/Axum.antt =====
-- src/server.rs, src/auth/http.rs: what they use of axum, tower and tokio, as one parameter `Axum` over
-- their types of routers and addresses; and HTTP messages, as far as the program reads and writes them.
-- `Laws` is the documented behaviour of a router and of the layers of tower-http.
pub mod Laws
pub mod Sample
use servir.Prelude.{ℕ, String, Option, Result}
use servir.Json.{Json}
use servir.System.Actions.{World}
use servir.Error.Info.{StatusCode}
use servir.Auth.Extractor.{HeaderValue, Parts}
use servir.Auth.Http.{RegisterRequest, LoginRequest, RefreshRequest, LogoutRequest}

pub data Method : Type 0 where
  get post other : Method

-- A body as it is sent.
pub record Body : Type 0 where
  pub content_type : Option HeaderValue
  pub bytes : String

pub record HttpRequest : Type 0 where
  pub method : Method
  pub path : String
  pub parts : Parts
  pub x_request_id : Option HeaderValue
  pub body : Body

pub record HttpResponse : Type 0 where
  pub status : StatusCode
  pub x_request_id : Option HeaderValue
  pub body : Json

-- A `tower::Service` that answers every request.
abbrev pub Endpoint : Type 0 → Type 0
Endpoint D = HttpRequest → World D → HttpResponse × World D

pub record Axum (D Router Addr Listener : Type 0) : Type 0 where
  -- `Router::new()`
  pub new : Router
  -- `route(path, get(handler))` and `route(path, post(handler))`, `merge(other)`, and
  -- `outer.nest(path, inner)`: the router, or the text of the panic over routes that overlap
  pub route : String → Method → Endpoint D → Router → Result String Router
  pub merge : Router → Router → Result String Router
  pub nest : String → Router → Router → Result String Router
  -- `layer(..)` of a function from services to services
  pub layer : (Endpoint D → Endpoint D) → Router → Router
  pub fallback : Endpoint D → Router → Router
  -- `TraceLayer`, `PropagateRequestIdLayer::x_request_id()`, and `SetRequestIdLayer::x_request_id(make)`
  pub trace : Endpoint D → Endpoint D
  pub propagate_request_id : Endpoint D → Endpoint D
  pub set_request_id : (ℕ → String) → Endpoint D → Endpoint D
  -- `axum::Json`: the value, or the text of the rejection
  pub json_register : Body → Result String RegisterRequest
  pub json_login : Body → Result String LoginRequest
  pub json_refresh : Body → Result String RefreshRequest
  pub json_logout : Body → Result String LogoutRequest
  -- `TcpListener::bind`, `local_addr` and `axum::serve`: each may end in an I/O error
  pub bind : Addr → ℕ → Result String Listener
  pub local_addr : Listener → ℕ → Result String Addr
  pub run : Listener → Router → ℕ → Result String (Unit {0})
