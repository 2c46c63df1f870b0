-- ===== src/Server/Builder.antt =====
-- src/server.rs: `ServerBuilder`, `Servir`, and the handlers of the server itself, with the features
-- `auth` and `telemetry`. Tracing is left out. `Build` and `Success` are about `build`, `Overlaps` and
-- `Panics` about the panics of axum, `Routed`, `Assembled` and `Answers` about the router.
pub mod Build
pub mod Success
pub mod Routed
pub mod Assembled
pub mod Overlaps
pub mod Panics
pub mod Answers
use servir.Prelude.{ℕ, String, Option, none, some, Result, ok, and_then, map_err}
use servir.Json.{str, obj, entry, end, Serialize, unit_serialize}
use servir.System.{System}
use servir.System.Parts.{Part}
use servir.System.Actions.{Action, lift, call, pure, or_fail, map_error, ◌>>=◌, ◌>>◌}
use servir.Error.Kinds.{ServirError, not_found as not_found_error}
use servir.Error.Servir.{from_io}
use servir.Response.{ApiResponse, ok_data, from_error}
use servir.Auth.Config.{
  AuthConfig, with_defaults, set_access_token_ttl, set_refresh_token_ttl, set_secret,
}
use servir.Auth.Extractor.{new_layer}
use servir.Auth.Routes.{mount_auth_routes, plain_handler, auth_layer}
use servir.Server.Axum.{Axum, get}
use servir.Server.Middleware.{standard_middleware}
use servir.Db.Schema.{Tables}
use servir.Db.Connection.{connect, migrate_auth}
use servir.Db.Repository.{load_or_generate_secret}

pub record HealthResponse : Type 0 where
  pub status : String

instance abbrev pub health_serialize : Serialize HealthResponse
health_serialize = record { to_json = λ r. obj (entry "status" (str r.status) end) }

abbrev pub health : ApiResponse HealthResponse
health = ok_data (record { status = "healthy" })

abbrev pub not_found : ApiResponse (Unit {0})
not_found = from_error not_found_error

-- An error, or the message of a panic.
pub data Failure : Type 0 where
  failed : ServirError → Failure
  panicked : String → Failure

pub record Servir (Router Addr : Type 0) : Type 0 where
  pub router : Router
  pub addr : Addr

pub record ServerBuilder (Router Addr : Type 0) : Type 0 where
  pub service_name : Option String
  pub addr : Option Addr
  pub routes : Option Router
  pub auth_database_url : Option String
  pub access_token_ttl_secs : Option ℕ
  pub refresh_token_ttl_secs : Option ℕ

-- `if let Some(ttl) = ttl { set(ttl) }`
abbrev set_if : Option ℕ → (ℕ → AuthConfig → AuthConfig) → AuthConfig → AuthConfig
set_if none set c = c
set_if (some ttl) set c = set ttl c

module _ {Router Addr : Type 0} where
  -- `Servir::builder`
  abbrev pub builder : ServerBuilder Router Addr
  builder = record {
    service_name = none;
    addr = none;
    routes = none;
    auth_database_url = none;
    access_token_ttl_secs = none;
    refresh_token_ttl_secs = none;
  }

  abbrev pub service_name : String → ServerBuilder Router Addr → ServerBuilder Router Addr
  service_name name b = record b { service_name = some name }

  abbrev pub addr : Addr → ServerBuilder Router Addr → ServerBuilder Router Addr
  addr a b = record b { addr = some a }

  abbrev pub routes : Router → ServerBuilder Router Addr → ServerBuilder Router Addr
  routes router b = record b { routes = some router }

  abbrev pub auth_database_url : String → ServerBuilder Router Addr → ServerBuilder Router Addr
  auth_database_url url b = record b { auth_database_url = some url }

  abbrev pub access_token_ttl_secs : ℕ → ServerBuilder Router Addr → ServerBuilder Router Addr
  access_token_ttl_secs secs b = record b { access_token_ttl_secs = some secs }

  abbrev pub refresh_token_ttl_secs : ℕ → ServerBuilder Router Addr → ServerBuilder Router Addr
  refresh_token_ttl_secs secs b = record b { refresh_token_ttl_secs = some secs }

  -- The configuration before the secret is set.
  abbrev pub ttl_config : ServerBuilder Router Addr → AuthConfig
  ttl_config b =
      set_if b.refresh_token_ttl_secs set_refresh_token_ttl
        (set_if b.access_token_ttl_secs set_access_token_ttl with_defaults)

  module _ {D Listener : Type 0} (sys : System) (axum : Axum D Router Addr Listener)
      (part : Part D Tables) where
    -- The routes under `/api/v1`; the auth database is this part of the process's state. It panics where
    -- axum does.
    unfoldable pub api_routes : AuthConfig → Router → Result String Router
    unfolding mount_auth_routes plain_handler auth_layer
    api_routes config api = and_then (mount_auth_routes sys axum part config) (λ auth.
        and_then (axum.merge api auth) (λ merged.
          and_then (axum.route "/health" get (plain_handler health) merged)
            (λ all. ok (axum.layer (auth_layer (new_layer config)) all))))

    -- The router around the application's routes, or a panic of axum.
    unfoldable pub assemble : AuthConfig → Router → Result String Router
    unfolding api_routes standard_middleware
    assemble config api = and_then (api_routes config api) (λ inner.
        and_then (axum.nest "/api/v1" inner axum.new) (λ outer.
          ok (standard_middleware sys axum (axum.fallback (plain_handler not_found) outer))))

    -- `ServerBuilder::build`
    unfoldable pub build : ServerBuilder Router Addr → Action Tables Failure (Servir Router Addr)
    unfolding assemble
    build b = do
      api ← or_fail b.routes (panicked "routes must be set before calling serve()")
      url ←
          or_fail b.auth_database_url
            (panicked "auth_database_url must be set before calling build()")
      map_error failed (connect sys url)
      map_error failed (migrate_auth sys)
      secret ← map_error failed (load_or_generate_secret sys)
      let auth_config = set_secret secret (ttl_config b)
      router ← lift (map_err panicked (assemble auth_config api))
      address ← or_fail b.addr (panicked "addr must be set before calling build()")
      pure (record { router = router; addr = address })

    -- `serve`, which logs the local address.
    unfoldable pub serve : Addr → Router → Action Tables String (Unit {0})
    serve address router = do
      bound ← call (axum.bind address)
      listener ← lift bound
      found ← call (axum.local_addr listener)
      local_addr ← lift found
      served ← call (axum.run listener router)
      lift served

    -- `Servir::serve`
    unfoldable pub serve_servir : Servir Router Addr → Action Tables Failure (Unit {0})
    unfolding serve
    serve_servir s = map_error (λ e. failed (from_io e)) (serve s.addr s.router)

    -- `ServerBuilder::serve`
    unfoldable pub serve_builder : ServerBuilder Router Addr → Action Tables Failure (Unit {0})
    unfolding build serve_servir
    serve_builder b = do servir ← build b; serve_servir servir
