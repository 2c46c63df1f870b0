-- ===== src/Server/Builder/Panics.antt =====
-- src/server.rs, src/auth/http.rs: when axum panics over the routes of the application and those of the
-- program.
use servir.Prelude.{
  String, ◌≡◌, ◌∙◌, true, err, and_then_err, and_then_next, Result-cases, inl, inr,
}
use servir.Json.{unit_serialize}
use servir.System.{System}
use servir.System.Parts.{Part}
use servir.Auth.Config.{AuthConfig}
use servir.Auth.Routes.{plain_handler}
use servir.Db.Schema.{Tables}
use servir.Server.Axum.{Axum, Method, get}
use servir.Server.Axum.Laws.{RouterLaws}
use servir.Server.Builder
use servir.Server.Builder.{api_routes, assemble, health_serialize}
use servir.Server.Builder.Routed.{Mounted, mount_auth_routes-Mounted}
use servir.Server.Builder.Overlaps.{
  IsAuthRoute, register, login, refresh, logout, me, mount_auth_routes_ok,
}

-- The routes that the program adds to the application's.
pub data IsProgramRoute : Method → String → Type 0 where
  of_auth : {m : Method} {p : String} → IsAuthRoute m p → IsProgramRoute m p
  of_health : IsProgramRoute get "/health"

module _ {D Router Addr Listener : Type 0} (sys : System) (axum : Axum D Router Addr Listener)
    (part : Part D Tables) (laws : RouterLaws axum) (config : AuthConfig) where
  -- The auth routes are all there.
  auth_route :
      (auth : Router)
      → Mounted sys axum part laws config auth
      → (m : Method) (p : String) → IsAuthRoute m p
      → laws.has_route auth m p ≡ true
  auth_route auth mounted _ _ me = laws.has_route-added _ _ _ _ _ mounted.me
  auth_route auth mounted _ _ logout =
      laws.has_route-kept _ _ _ _ _ _ _ mounted.me (laws.has_route-added _ _ _ _ _ mounted.logout)
  auth_route auth mounted _ _ refresh = laws.has_route-kept _ _ _ _ _ _ _ mounted.me (
      laws.has_route-kept _ _ _ _ _ _ _ mounted.logout
        (laws.has_route-added _ _ _ _ _ mounted.refresh))
  auth_route auth mounted _ _ login = laws.has_route-kept _ _ _ _ _ _ _ mounted.me (
      laws.has_route-kept _ _ _ _ _ _ _ mounted.logout (
        laws.has_route-kept _ _ _ _ _ _ _ mounted.refresh
          (laws.has_route-added _ _ _ _ _ mounted.login)))
  auth_route auth mounted _ _ register = laws.has_route-kept _ _ _ _ _ _ _ mounted.me (
      laws.has_route-kept _ _ _ _ _ _ _ mounted.logout (
        laws.has_route-kept _ _ _ _ _ _ _ mounted.refresh (
          laws.has_route-kept _ _ _ _ _ _ _ mounted.login
            (laws.has_route-added _ _ _ _ _ mounted.register))))

  -- The result of `api_routes` once the auth routes are there.
  api_routes_panics :
      (api : Router) (m : Method) (p : String)
      → IsProgramRoute m p
      → laws.has_route api m p ≡ true
      → (text : String) × (api_routes sys axum part config api ≡ err text)
  unfolding api_routes
  api_routes_panics api m p (of_auth route) there =
      let (auth, mounts) = mount_auth_routes_ok sys axum part laws config in
      let mounted = mount_auth_routes-Mounted sys axum part laws config auth mounts in
      let (text, panics) =
        laws.merge-overlap api auth m p there (auth_route auth mounted m p route) in
      (text, and_then_next _ _ auth mounts ∙ and_then_err _ _ text panics)
  api_routes_panics api _ _ of_health there =
      let (auth, mounts) = mount_auth_routes_ok sys axum part laws config in
      elim (Result-cases (axum.merge api auth)) [
        | inr (text, panics) ↦ (text, and_then_next _ _ auth mounts ∙ and_then_err _ _ text panics)
        | inl (merged, merges) ↦
            let (text, panics) =
              laws.route-overlap "/health" get (plain_handler Builder.health) merged
                (laws.has_route-merged api auth merged get "/health" merges there) in
            (
              text,
              and_then_next _ _ auth mounts
                  ∙ and_then_next _ _ merged merges
                  ∙ and_then_err _ _ text panics,
            )
      ]

  -- Where the application has one of the program's routes, `GET /health` or a route of
  -- `mount_auth_routes`, axum panics over it and no server is made, where axum behaves as documented.
  pub assemble_panics :
      (api : Router) (m : Method) (p : String)
      → IsProgramRoute m p
      → laws.has_route api m p ≡ true
      → (text : String) × (assemble sys axum part config api ≡ err text)
  unfolding assemble
  assemble_panics api m p route there =
      let (text, panics) = api_routes_panics api m p route there in
      (text, and_then_err _ _ text panics)
