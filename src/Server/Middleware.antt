-- ===== src/Server/Middleware.antt =====
-- src/server.rs: `standard_middleware`. `Wraps` is what it makes of an endpoint.
pub mod Wraps
use servir.System.{System}
use servir.Server.Axum.{Axum}

module _ {D Router Addr Listener : Type 0} (sys : System) (axum : Axum D Router Addr Listener) where
  unfoldable pub standard_middleware : Router → Router
  standard_middleware router =
      axum.layer (axum.set_request_id sys.uuid)
        (axum.layer axum.propagate_request_id (axum.layer axum.trace router))
