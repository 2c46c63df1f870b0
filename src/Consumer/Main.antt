-- ===== src/Consumer/Main.antt =====
-- consumer/src/main.rs: the program, with its arguments parsed, over the state of the process and both
-- databases. `Runs` is how it ends.
pub mod Runs
use servir.Prelude.{ℕ, String, append, Option, none, some, Result, ok, err, and_then}
use servir.System.{System}
use servir.System.Actions.{World, Action, map_error, ◌>>=◌, ◌>>◌}
use servir.System.Parts.{Part, on_part}
use servir.Error.Kinds.{ServirError}
use servir.Db.Schema.{Tables}
use servir.Server.Axum.{Axum}
use servir.Server.Builder.{
  Failure, failed, panicked, ServerBuilder, builder, service_name, addr, auth_database_url, routes,
  serve_builder,
}
use servir.Server.Telemetry.{Tracing, init_tracing, init_logging}
use servir.Consumer.{ProfileTable, connect, migrate}
use servir.Consumer.App.{app_routes}

pub record Args : Type 0 where
  pub auth_db : String
  pub data_db : String
  pub log_dir : String

-- A panic: of a library in setting up the logging, of the builder or of axum over the routes, or of an
-- `expect` with its message and the error.
pub data Panic : Type 0 where
  library_panic builder_panic : String → Panic
  unexpected : (message : String) (error : ServirError) → Panic

-- `.expect("server failed")`
abbrev pub server_failed : Failure → Panic
server_failed (failed e) = unexpected "server failed" e
server_failed (panicked message) = builder_panic message

-- The name under which `build` calls `init_tracing`.
abbrev pub tracing_name : {Router Addr : Type 0} → ServerBuilder Router Addr → String
tracing_name b = elim b.service_name [ some name ↦ name | none ↦ "servir" ]

module _ {D Router Addr Listener Global Guard : Type 0} (sys : System)
    (axum : Axum D Router Addr Listener) (tracing : Tracing Global Guard)
    (socket_addr : ℕ → ℕ → ℕ → ℕ → ℕ → Addr) (auth_part : Part D Tables)
    (app_part : Part D ProfileTable) where
  -- The app's database.
  unfoldable pub open_app : Args → Action D Panic (Unit {0})
  open_app args = do
    let data_db_url = append "sqlite://" args.data_db
    map_error (unexpected "app db connect") (on_part app_part (connect sys data_db_url))
    map_error (unexpected "app db migrate") (on_part app_part (migrate sys))

  -- The builder, or the panic of axum in `app_routes`.
  abbrev pub configured : Args → Result String (ServerBuilder Router Addr)
  configured args = and_then (app_routes sys axum app_part) (λ api. ok (
      routes api (
        auth_database_url (append "sqlite://" args.auth_db)
          (addr (socket_addr 0 0 0 0 3000) (service_name "echo-server" builder)))))

  -- The server, on the auth database.
  unfoldable pub run_server : ServerBuilder Router Addr → Action D Panic (Unit {0})
  run_server b = map_error server_failed (on_part auth_part (serve_builder sys axum auth_part b))

  -- The end of `main`, after the builder was made or not.
  abbrev pub after_routes :
      Global
      → World D
      → Result String (ServerBuilder Router Addr)
      → Result Panic (Unit {0}) × Global × World D
  after_routes g w (err text) = (err (builder_panic text), g, w)
  after_routes g w (ok b) =
      let out = run_server b w in (out.0, init_tracing tracing (tracing_name b) g, out.1)

  -- The end of `main`, after the app's database was opened or not.
  abbrev pub after_open :
      Args → Global → Result Panic (Unit {0}) × World D → Result Panic (Unit {0}) × Global × World D
  after_open args g (err p, w) = (err p, g, w)
  after_open args g (ok done, w) = after_routes g w (configured args)

  abbrev pub after_logging :
      Args → World D → Result String Guard × Global → Result Panic (Unit {0}) × Global × World D
  after_logging args w (err text, g) = (err (library_panic text), g, w)
  after_logging args w (ok guard, g) = after_open args g (open_app args w)

  unfoldable pub main : Args → Global → World D → Result Panic (Unit {0}) × Global × World D
  main args g w = after_logging args w (init_logging tracing args.log_dir "echo-server" g)
