-- ===== src/Consumer/App/Answers.antt =====
-- consumer/src/lib.rs: what a server with the routes of `app_routes` answers.
use servir.Prelude.{
  String, ok, and_then, and_then_ok, false, ◌==◌, append, ne_of_test, ◌≡◌, ◌≢◌, refl, ◌∙◌, some,
}
use servir.System.{System}
use servir.System.Parts.{Part, on_part}
use servir.System.Actions.{World, Action}
use servir.Error.Kinds.{ServirError}
use servir.Response.{ApiResponse, Response, respond}
use servir.Auth.Config.{AuthConfig}
use servir.Auth.Extractor.{Parts, new_layer, call_layer}
use servir.Auth.Routes.{parts_handler, auth_layer}
use servir.Auth.Service.{Request, serve}
use servir.Consumer.{ProfileTable, UserResponse, user, user_response_serialize}
use servir.Consumer.App.{app_routes}
use servir.Db.Schema.{Tables}
use servir.Server.Axum.{HttpRequest, Method, Axum, get}
use servir.Server.Axum.Laws.{RouterLaws, TowerLaws, at_path}
use servir.Server.Builder.{assemble}
use servir.Server.Builder.Overlaps.{IsApart, free_after, assemble_ok}
use servir.Server.Builder.Routed.{IsRouted, IsElsewhere, hit}
use servir.Server.Builder.Answers.{assemble-app, assemble-serve}
use servir.Server.Middleware.Wraps.{Answered, identified, stamp}

-- The handler `user` behind the layer, and its response.
abbrev pub user_response :
    System → AuthConfig → Parts → World ProfileTable → Response × World ProfileTable
user_response sys config parts w =
    let out =
      call_layer {F = Action ProfileTable ServirError (ApiResponse UserResponse)} (new_layer config)
        (user sys) parts w in
    (respond out.0, out.1)

module _ {D Router Addr Listener : Type 0} (sys : System) (axum : Axum D Router Addr Listener)
    (app_part : Part D ProfileTable) (laws : RouterLaws axum) where
  pub app_routes_ok : (api : Router) × (app_routes sys axum app_part ≡ ok api)
  unfolding app_routes
  app_routes_ok = laws.route-ok "/user" get _ axum.new refl refl (laws.has_route-new get "/user")

  module _ (api : Router) (made : app_routes sys axum app_part ≡ ok api) where
    app_routes-free :
        (m : Method) (p : String) → (p == "/user") ≡ false → laws.has_route api m p ≡ false
    unfolding app_routes
    app_routes-free m p other = free_after laws _ p _ m _ _ api made other (laws.has_route-new m p)

    pub app_routes-IsApart : IsApart laws api
    app_routes-IsApart = record {
      health = app_routes-free _ _ refl;
      register = app_routes-free _ _ refl;
      login = app_routes-free _ _ refl;
      refresh = app_routes-free _ _ refl;
      logout = app_routes-free _ _ refl;
      me = app_routes-free _ _ refl;
    }

module _ {D Router Addr Listener : Type 0} (sys : System) (axum : Axum D Router Addr Listener)
    (auth_part : Part D Tables) (app_part : Part D ProfileTable) (laws : RouterLaws axum)
    (tower : TowerLaws axum) (config : AuthConfig) (req : HttpRequest) (w : World D) where
  user_IsElsewhere : IsElsewhere "/user"
  user_IsElsewhere = record {
    register = ne_of_test "/user" "/auth/register" refl;
    login = ne_of_test "/user" "/auth/login" refl;
    refresh = ne_of_test "/user" "/auth/refresh" refl;
    logout = ne_of_test "/user" "/auth/logout" refl;
    me = ne_of_test "/user" "/auth/me" refl;
  }

  module _ (api : Router) (made : app_routes sys axum app_part ≡ ok api) where
    user_found :
        (req' : HttpRequest)
        → req'.method ≡ get
        → req'.path ≡ "/user"
        → laws.find api req' ≡ some (parts_handler app_part (user sys))
    unfolding app_routes
    user_found req' method path =
        hit sys axum auth_part laws config "/user" get _ _ api req' made refl method path
          (laws.find-new req')

  -- The router of a server with these routes is made without a panic.
  pub app_server_ok :
      (router : Router) × (api : Router) × (app_routes sys axum app_part ≡ ok api)
      × (assemble sys axum auth_part config api ≡ ok router)
  app_server_ok =
      let (api, made) = app_routes_ok sys axum app_part laws in
      let (router, assembled) =
        assemble_ok sys axum auth_part laws config api
          (app_routes-IsApart sys axum app_part laws api made) in
      (router, api, made, assembled)

  -- axum makes a router of `app_routes` and the program's routes, and there `GET /api/v1/user` is answered
  -- by the handler `user` on the app's database, with the configuration that the auth routes have, and with
  -- the header `x-request-id` of the request or a fresh one, where axum and tower-http behave as
  -- documented.
  pub assemble-user :
      req.method ≡ get
      → req.path ≡ "/api/v1/user"
      → (router : Router) × (and_then
            (app_routes sys axum app_part)
            (assemble sys axum auth_part config)
          ≡ ok router)
        × Answered laws router req w
            (stamp (on_part app_part (user_response sys config req.parts)) (identified sys req w))
  unfolding auth_layer parts_handler
  assemble-user method path =
      let (router, api, made, assembled) = app_server_ok in
      (
        router,
        and_then_ok _ _ api router made assembled,
        assemble-app sys axum auth_part laws config tower api router assembled req w "user" _ _ path
            user_IsElsewhere (ne_of_test "/user" "/health" refl)
            (user_found api made (at_path "/user" req) method refl) (λ id w. refl),
      )

  -- `app_routes` has no route of the auth routes, so they are answered as by `serve`.
  pub app-serve :
      (p : String) (request : Request) (api router : Router)
      → app_routes sys axum app_part ≡ ok api
      → assemble sys axum auth_part config api ≡ ok router
      → req.path ≡ append "/api/v1" (append "/" p)
      → (append "/" p) ≢ "/user"
      → IsRouted axum (at_path (append "/" p) req) request
      → Answered laws router req w
          (stamp (on_part auth_part (serve sys config request)) (identified sys req w))
  unfolding app_routes
  app-serve p request api router made assembled path away route =
      assemble-serve sys axum auth_part laws config tower api router assembled req w p path
        (laws.find-route_other _ _ _ _ _ _ made refl away ∙ laws.find-new _) request route
