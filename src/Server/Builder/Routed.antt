-- ===== src/Server/Builder/Routed.antt =====
-- src/auth/http.rs: the endpoint that `mount_auth_routes` has for a request.
use servir.Prelude.{
  String, ok, ap, and_then-ok, ne_of_test, ◌==◌, true, false, ◌≡◌, ◌≢◌, refl, sym, ◌∙◌, Option,
  none, some,
}
use servir.Json.{unit_serialize}
use servir.System.{System}
use servir.System.Parts.{Part, on_part}
use servir.System.Actions.{World}
use servir.Auth.Config.{AuthConfig}
use servir.Auth.Extractor.{HeaderValue, new_layer}
use servir.Auth.Routes.{sent, auth_layer, mount_auth_routes, json_handler, parts_handler}
use servir.Auth.Http
use servir.Auth.Http.{token_response_serialize, me_response_serialize}
use servir.Auth.Service.{
  Request, post_register, post_login, post_refresh, post_logout, get_me, serve,
}
use servir.Db.Schema.{Tables}
use servir.Server.Axum.{HttpRequest, Endpoint, Axum, Method, get, post}
use servir.Server.Axum.Laws.{RouterLaws, is_static}
use servir.Server.Builder.{health_serialize}

-- The request that the auth routes make of an HTTP request, by its method and path.
pub data IsRouted {D Router Addr Listener : Type 0} (axum : Axum D Router Addr Listener)
    (req : HttpRequest) : Request → Type 0 where
  registers :
      req.method ≡ post
      → req.path ≡ "/auth/register"
      → IsRouted axum req (post_register (axum.json_register req.body))
  logs_in :
      req.method ≡ post
      → req.path ≡ "/auth/login"
      → IsRouted axum req (post_login (axum.json_login req.body))
  refreshes :
      req.method ≡ post
      → req.path ≡ "/auth/refresh"
      → IsRouted axum req (post_refresh (axum.json_refresh req.body))
  logs_out :
      req.method ≡ post
      → req.path ≡ "/auth/logout"
      → IsRouted axum req (post_logout (axum.json_logout req.body))
  shows_me : req.method ≡ get → req.path ≡ "/auth/me" → IsRouted axum req (get_me req.parts)

-- No auth route has this path.
pub record IsElsewhere (p : String) : Type 0 where
  pub register : p ≢ "/auth/register"
  pub login : p ≢ "/auth/login"
  pub refresh : p ≢ "/auth/refresh"
  pub logout : p ≢ "/auth/logout"
  pub me : p ≢ "/auth/me"

pub IsRouted-not_health :
    {D Router Addr Listener : Type 0} (axum : Axum D Router Addr Listener) (req : HttpRequest)
    (request : Request)
    → IsRouted axum req request
    → req.path ≢ "/health"
IsRouted-not_health axum req _ (registers method path) e =
    ne_of_test "/auth/register" "/health" refl (sym path ∙ e)
IsRouted-not_health axum req _ (logs_in method path) e =
    ne_of_test "/auth/login" "/health" refl (sym path ∙ e)
IsRouted-not_health axum req _ (refreshes method path) e =
    ne_of_test "/auth/refresh" "/health" refl (sym path ∙ e)
IsRouted-not_health axum req _ (logs_out method path) e =
    ne_of_test "/auth/logout" "/health" refl (sym path ∙ e)
IsRouted-not_health axum req _ (shows_me method path) e =
    ne_of_test "/auth/me" "/health" refl (sym path ∙ e)

module _ {D Router Addr Listener : Type 0} (sys : System) (axum : Axum D Router Addr Listener)
    (part : Part D Tables) (laws : RouterLaws axum) (config : AuthConfig) where
  -- The endpoint of a request behind the auth layer does what `serve` says.
  abbrev pub Serves : Endpoint D → HttpRequest → Request → Type 0
  Serves e req request =
      (id : Option HeaderValue) (w : World D)
      → auth_layer (new_layer config) e (record req { x_request_id = id }) w ≡ (
        sent (on_part part (serve sys config request) w).0,
        (on_part part (serve sys config request) w).1,
      )

  pub hit :
      (p : String) (m : Method) (h : Endpoint D) (r r' : Router) (req : HttpRequest)
      → axum.route p m h r ≡ ok r'
      → is_static p ≡ true
      → req.method ≡ m
      → req.path ≡ p
      → laws.find r req ≡ none
      → laws.find r' req ≡ some h
  hit p m h r r' req added static method path missed =
      laws.find-route p h r r' req (ap (λ m. axum.route p m h r) method ∙ added) static path missed

  miss :
      (p q : String) (m : Method) (h : Endpoint D) (r r' : Router) (req : HttpRequest)
      {found : Option (Endpoint D)}
      → axum.route p m h r ≡ ok r'
      → is_static p ≡ true
      → (q == p) ≡ false
      → req.path ≡ q
      → laws.find r req ≡ found
      → laws.find r' req ≡ found
  miss p q m h r r' req added static other path rest =
      laws.find-route_other p m h r r' req added static (λ e. ne_of_test q p other (sym path ∙ e))
      ∙ rest

  -- The routers that `mount_auth_routes` makes on the way to its own.
  pub record Mounted (auth : Router) : Type 0 where
    pub r₁ : Router
    pub r₂ : Router
    pub r₃ : Router
    pub r₄ : Router
    pub register :
        axum.route "/auth/register" post
          (json_handler part axum.json_register (Http.register sys config))
          axum.new
        ≡ ok r₁
    pub login :
        axum.route "/auth/login" post (json_handler part axum.json_login (Http.login sys config)) r₁
        ≡ ok r₂
    pub refresh :
        axum.route "/auth/refresh" post
          (json_handler part axum.json_refresh (Http.refresh sys config))
          r₂
        ≡ ok r₃
    pub logout :
        axum.route "/auth/logout" post
          (json_handler part axum.json_logout (Http.logout sys config))
          r₃
        ≡ ok r₄
    pub me : axum.route "/auth/me" get (parts_handler part (Http.me sys)) r₄ ≡ ok auth

  pub mount_auth_routes-Mounted :
      (auth : Router) → mount_auth_routes sys axum part config ≡ ok auth → Mounted auth
  unfolding mount_auth_routes
  mount_auth_routes-Mounted auth e =
      let (r₁, e₁, f₁) = and_then-ok _ _ auth e in
      let (r₂, e₂, f₂) = and_then-ok _ _ auth f₁ in
      let (r₃, e₃, f₃) = and_then-ok _ _ auth f₂ in
      let (r₄, e₄, e₅) = and_then-ok _ _ auth f₃ in
      record {
        r₁ = r₁;
        r₂ = r₂;
        r₃ = r₃;
        r₄ = r₄;
        register = e₁;
        login = e₂;
        refresh = e₃;
        logout = e₄;
        me = e₅;
      }

  module _ (auth : Router) (mounted : Mounted auth) where
    pub routed :
        (req : HttpRequest) (request : Request)
        → IsRouted axum req request
        → (e : Endpoint D) × (laws.find auth req ≡ some e) × Serves e req request
    unfolding json_handler parts_handler serve auth_layer
    routed req _ (registers method path) = (
      _,
      miss _ _ _ _ _ _ req mounted.me refl refl path (
          miss _ _ _ _ _ _ req mounted.logout refl refl path (
            miss _ _ _ _ _ _ req mounted.refresh refl refl path (
              miss _ _ _ _ _ _ req mounted.login refl refl path
                (hit _ _ _ _ _ req mounted.register refl method path (laws.find-new req))))),
      λ id w. refl,
    )
    routed req _ (logs_in method path) = (
      _,
      miss _ _ _ _ _ _ req mounted.me refl refl path (
          miss _ _ _ _ _ _ req mounted.logout refl refl path (
            miss _ _ _ _ _ _ req mounted.refresh refl refl path (
              hit _ _ _ _ _ req mounted.login refl method path
                (miss _ _ _ _ _ _ req mounted.register refl refl path (laws.find-new req))))),
      λ id w. refl,
    )
    routed req _ (refreshes method path) = (
      _,
      miss _ _ _ _ _ _ req mounted.me refl refl path (
          miss _ _ _ _ _ _ req mounted.logout refl refl path (
            hit _ _ _ _ _ req mounted.refresh refl method path (
              miss _ _ _ _ _ _ req mounted.login refl refl path
                (miss _ _ _ _ _ _ req mounted.register refl refl path (laws.find-new req))))),
      λ id w. refl,
    )
    routed req _ (logs_out method path) = (
      _,
      miss _ _ _ _ _ _ req mounted.me refl refl path (
          hit _ _ _ _ _ req mounted.logout refl method path (
            miss _ _ _ _ _ _ req mounted.refresh refl refl path (
              miss _ _ _ _ _ _ req mounted.login refl refl path
                (miss _ _ _ _ _ _ req mounted.register refl refl path (laws.find-new req))))),
      λ id w. refl,
    )
    routed req _ (shows_me method path) = (
      _,
      hit _ _ _ _ _ req mounted.me refl method path (
          miss _ _ _ _ _ _ req mounted.logout refl refl path (
            miss _ _ _ _ _ _ req mounted.refresh refl refl path (
              miss _ _ _ _ _ _ req mounted.login refl refl path
                (miss _ _ _ _ _ _ req mounted.register refl refl path (laws.find-new req))))),
      λ id w. refl,
    )

    pub unrouted : (req : HttpRequest) → IsElsewhere req.path → laws.find auth req ≡ none
    unrouted req h =
        laws.find-route_other _ _ _ _ _ req mounted.me refl h.me
        ∙ laws.find-route_other _ _ _ _ _ req mounted.logout refl h.logout
        ∙ laws.find-route_other _ _ _ _ _ req mounted.refresh refl h.refresh
        ∙ laws.find-route_other _ _ _ _ _ req mounted.login refl h.login
        ∙ laws.find-route_other _ _ _ _ _ req mounted.register refl h.register
        ∙ laws.find-new req
