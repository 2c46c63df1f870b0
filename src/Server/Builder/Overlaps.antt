-- ===== src/Server/Builder/Overlaps.antt =====
-- src/server.rs, src/auth/http.rs: when axum does not panic over the routes of the application and those of
-- the program.
use servir.Prelude.{
  String, ◌==◌, ne_of_test, ◌≡◌, ◌≢◌, refl, ◌∙◌, Bool-cases, true, false, ok, and_then_ok, inl, inr,
}
use servir.Json.{unit_serialize}
use servir.System.{System}
use servir.System.Parts.{Part}
use servir.Auth.Config.{AuthConfig}
use servir.Auth.Routes.{mount_auth_routes, plain_handler}
use servir.Db.Schema.{Tables}
use servir.Server.Axum.{Axum, Endpoint, Method, get, post}
use servir.Server.Axum.Laws.{RouterLaws, is_static}
use servir.Server.Builder
use servir.Server.Builder.{api_routes, assemble, health_serialize}
use servir.Server.Builder.Routed.{Mounted, mount_auth_routes-Mounted}

-- The routes of `mount_auth_routes`.
pub data IsAuthRoute : Method → String → Type 0 where
  register : IsAuthRoute post "/auth/register"
  login : IsAuthRoute post "/auth/login"
  refresh : IsAuthRoute post "/auth/refresh"
  logout : IsAuthRoute post "/auth/logout"
  me : IsAuthRoute get "/auth/me"

IsAuthRoute-not_health : (m : Method) (p : String) → IsAuthRoute m p → "/health" ≢ p
IsAuthRoute-not_health _ _ register = ne_of_test "/health" "/auth/register" refl
IsAuthRoute-not_health _ _ login = ne_of_test "/health" "/auth/login" refl
IsAuthRoute-not_health _ _ refresh = ne_of_test "/health" "/auth/refresh" refl
IsAuthRoute-not_health _ _ logout = ne_of_test "/health" "/auth/logout" refl
IsAuthRoute-not_health _ _ me = ne_of_test "/health" "/auth/me" refl

IsAuthRoute-static : (m : Method) (p : String) → IsAuthRoute m p → is_static p ≡ true
IsAuthRoute-static _ _ register = refl
IsAuthRoute-static _ _ login = refl
IsAuthRoute-static _ _ refresh = refl
IsAuthRoute-static _ _ logout = refl
IsAuthRoute-static _ _ me = refl

module _ {D Router Addr Listener : Type 0} {axum : Axum D Router Addr Listener}
    (laws : RouterLaws axum) where
  -- The application has none of the program's routes.
  pub record IsApart (api : Router) : Type 0 where
    pub health : laws.has_route api get "/health" ≡ false
    pub register : laws.has_route api post "/auth/register" ≡ false
    pub login : laws.has_route api post "/auth/login" ≡ false
    pub refresh : laws.has_route api post "/auth/refresh" ≡ false
    pub logout : laws.has_route api post "/auth/logout" ≡ false
    pub me : laws.has_route api get "/auth/me" ≡ false

  IsApart-free :
      (api : Router) (m : Method) (p : String)
      → IsApart api
      → IsAuthRoute m p
      → laws.has_route api m p ≡ false
  IsApart-free api _ _ apart register = apart.register
  IsApart-free api _ _ apart login = apart.login
  IsApart-free api _ _ apart refresh = apart.refresh
  IsApart-free api _ _ apart logout = apart.logout
  IsApart-free api _ _ apart me = apart.me

  -- A path that is not there is not there after a route for another.
  pub free_after :
      (p q : String) (m n : Method) (h : Endpoint D) (r r' : Router)
      → axum.route p m h r ≡ ok r'
      → (q == p) ≡ false
      → laws.has_route r n q ≡ false
      → laws.has_route r' n q ≡ false
  free_after p q m n h r r' added other free = elim (Bool-cases (laws.has_route r' n q)) [
    | inr missing ↦ missing
    | inl there ↦ elim (laws.has_route-route p q m n h r r' added there) [
      | inl (method, path) ↦ absurd (ne_of_test q p other path)
      | inr before ↦ absurd (cc)
    ]
  ]

module _ {D Router Addr Listener : Type 0} (sys : System) (axum : Axum D Router Addr Listener)
    (part : Part D Tables) (laws : RouterLaws axum) (config : AuthConfig) where
  pub mount_auth_routes_ok : (auth : Router) × (mount_auth_routes sys axum part config ≡ ok auth)
  unfolding mount_auth_routes
  mount_auth_routes_ok =
      let (r₁, e₁) =
        laws.route-ok "/auth/register" post _ axum.new refl refl (laws.has_route-new _ _) in
      let (r₂, e₂) =
        laws.route-ok "/auth/login" post _ r₁ refl refl
          (free_after laws _ _ _ _ _ _ _ e₁ refl (laws.has_route-new _ _)) in
      let (r₃, e₃) = laws.route-ok "/auth/refresh" post _ r₂ refl refl (
        free_after laws _ _ _ _ _ _ _ e₂ refl
          (free_after laws _ _ _ _ _ _ _ e₁ refl (laws.has_route-new _ _))) in
      let (r₄, e₄) = laws.route-ok "/auth/logout" post _ r₃ refl refl (
        free_after laws _ _ _ _ _ _ _ e₃ refl (
          free_after laws _ _ _ _ _ _ _ e₂ refl
            (free_after laws _ _ _ _ _ _ _ e₁ refl (laws.has_route-new _ _)))) in
      let (r₅, e₅) = laws.route-ok "/auth/me" get _ r₄ refl refl (
        free_after laws _ _ _ _ _ _ _ e₄ refl (
          free_after laws _ _ _ _ _ _ _ e₃ refl (
            free_after laws _ _ _ _ _ _ _ e₂ refl
              (free_after laws _ _ _ _ _ _ _ e₁ refl (laws.has_route-new _ _))))) in
      (
        r₅,
        and_then_ok _ _ r₁ r₅ e₁
            (and_then_ok _ _ r₂ r₅ e₂ (and_then_ok _ _ r₃ r₅ e₃ (and_then_ok _ _ r₄ r₅ e₄ e₅))),
      )

  module _ (auth : Router) (mounted : Mounted sys axum part laws config auth) where
    auth_routes : (m : Method) (p : String) → laws.has_route auth m p ≡ true → IsAuthRoute m p
    auth_routes m p h = elim (laws.has_route-route _ p _ m _ _ _ mounted.me h) [
      | inl (method, path) ↦ rw (method, path) me
      | inr h ↦ elim (laws.has_route-route _ p _ m _ _ _ mounted.logout h) [
        | inl (method, path) ↦ rw (method, path) logout
        | inr h ↦ elim (laws.has_route-route _ p _ m _ _ _ mounted.refresh h) [
          | inl (method, path) ↦ rw (method, path) refresh
          | inr h ↦ elim (laws.has_route-route _ p _ m _ _ _ mounted.login h) [
            | inl (method, path) ↦ rw (method, path) login
            | inr h ↦ elim (laws.has_route-route _ p _ m _ _ _ mounted.register h) [
              | inl (method, path) ↦ rw (method, path) register
              | inr h ↦ absurd (let free = laws.has_route-new m p in cc)
            ]
          ]
        ]
      ]
    ]

    auth_fallback : laws.has_fallback auth ≡ false
    auth_fallback =
        laws.has_fallback-route _ _ _ _ _ mounted.me
        ∙ laws.has_fallback-route _ _ _ _ _ mounted.logout
        ∙ laws.has_fallback-route _ _ _ _ _ mounted.refresh
        ∙ laws.has_fallback-route _ _ _ _ _ mounted.login
        ∙ laws.has_fallback-route _ _ _ _ _ mounted.register
        ∙ laws.has_fallback-new

    module _ (api : Router) (apart : IsApart laws api) where
      merge_ok : (merged : Router) × (axum.merge api auth ≡ ok merged)
      merge_ok =
          laws.merge-ok api auth
            (λ m p there.
              let route = auth_routes m p there in
              (IsAuthRoute-static m p route, IsApart-free laws api m p apart route))
            auth_fallback

      health_free :
          (merged : Router)
          → axum.merge api auth ≡ ok merged
          → laws.has_route merged get "/health" ≡ false
      health_free merged merges = elim (Bool-cases (laws.has_route merged get "/health")) [
        | inr missing ↦ missing
        | inl there ↦ elim (laws.has_route-merge api auth merged get "/health" merges there) [
          | inl before ↦ absurd (let free = apart.health in cc)
          | inr own ↦ absurd (IsAuthRoute-not_health _ _ (auth_routes get "/health" own) refl)
        ]
      ]

  api_routes_ok :
      (api : Router)
      → IsApart laws api
      → (r : Router) × (api_routes sys axum part config api ≡ ok r)
  unfolding api_routes
  api_routes_ok api apart =
      let (auth, mounts) = mount_auth_routes_ok in
      let mounted = mount_auth_routes-Mounted sys axum part laws config auth mounts in
      let (merged, merges) = merge_ok auth mounted api apart in
      let (all, adds) =
        laws.route-ok "/health" get (plain_handler Builder.health) merged refl refl
          (health_free auth mounted api apart merged merges) in
      (
        _,
        and_then_ok _ _ auth _ mounts
            (and_then_ok _ _ merged _ merges (and_then_ok _ _ all _ adds refl)),
      )

  -- Where the application has none of the program's routes, axum does not panic.
  pub assemble_ok :
      (api : Router) → IsApart laws api → (r : Router) × (assemble sys axum part config api ≡ ok r)
  unfolding assemble
  assemble_ok api apart =
      let (inner, made) = api_routes_ok api apart in
      let (outer, nests) = laws.nest-ok "/api/v1" inner refl refl in
      (_, and_then_ok _ _ inner _ made (and_then_ok _ _ outer _ nests refl))
