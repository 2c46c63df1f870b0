-- ===== src/Consumer/App.antt =====
-- consumer/src/lib.rs: `app_routes`, on the app's database among those of the process. `Answers` is what the
-- server answers at its route.
pub mod Answers
use servir.Prelude.{String, Result}
use servir.System.{System}
use servir.System.Parts.{Part}
use servir.Auth.Routes.{parts_handler}
use servir.Consumer.{ProfileTable, user, user_response_serialize}
use servir.Server.Axum.{Axum, get}

-- `AppState` is the database.
module _ {D Router Addr Listener : Type 0} (sys : System) (axum : Axum D Router Addr Listener)
    (part : Part D ProfileTable) where
  -- It panics where axum does.
  unfoldable pub app_routes : Result String Router
  unfolding parts_handler
  app_routes = axum.route "/user" get (parts_handler part (user sys)) axum.new
