-- ===== src/Server/Builder/Assembled.antt =====
-- src/server.rs: how `api_routes` and `assemble` make their routers, and the endpoints that the first has.
use servir.Prelude.{
  String, ok, and_then-ok, eq_of_ok, ne_of_test, ◌==◌, false, ◌≡◌, ◌≢◌, refl, sym, ◌∙◌, ap, Option,
  none, some,
}
use mathlib.Core.Option
use servir.Json.{unit_serialize}
use servir.System.{System}
use servir.System.Parts.{Part}
use servir.Auth.Config.{AuthConfig}
use servir.Auth.Extractor.{new_layer}
use servir.Auth.Routes.{plain_handler, auth_layer}
use servir.Db.Schema.{Tables}
use servir.Server.Axum.{HttpRequest, Endpoint, Axum, get}
use servir.Server.Axum.Laws.{RouterLaws}
use servir.Server.Builder.{api_routes, assemble, health, not_found, health_serialize}
use servir.Server.Middleware.{standard_middleware}
use servir.Server.Builder.Routed.{IsElsewhere, Mounted, mount_auth_routes-Mounted, hit, unrouted}

module _ {D Router Addr Listener : Type 0} (sys : System) (axum : Axum D Router Addr Listener)
    (part : Part D Tables) (laws : RouterLaws axum) (config : AuthConfig) where
  -- How `api_routes` makes its router.
  pub record IsApi (api r : Router) : Type 0 where
    pub auth : Router
    pub mounted : Mounted sys axum part laws config auth
    pub merged : Router
    pub merges : axum.merge api auth ≡ ok merged
    pub all : Router
    pub adds : axum.route "/health" get (plain_handler health) merged ≡ ok all
    pub same : r ≡ axum.layer (auth_layer (new_layer config)) all

  api_routes-IsApi : (api r : Router) → api_routes sys axum part config api ≡ ok r → IsApi api r
  unfolding api_routes
  api_routes-IsApi api r e =
      let (auth, e₁, f₁) = and_then-ok _ _ r e in
      let (merged, e₂, f₂) = and_then-ok _ _ r f₁ in
      let (all, e₃, f₃) = and_then-ok _ _ r f₂ in
      record {
        auth = auth;
        mounted = mount_auth_routes-Mounted sys axum part laws config auth e₁;
        merged = merged;
        merges = e₂;
        all = all;
        adds = e₃;
        same = sym (eq_of_ok _ r f₃);
      }

  module _ (api r : Router) (is_api : IsApi api r) (req : HttpRequest) where
    -- What the routes before the layer have, behind the layer.
    layered :
        {o : Option (Endpoint D)}
        → laws.find is_api.all req ≡ o
        → laws.find r req ≡ Option.map (auth_layer (new_layer config)) o
    layered e =
        ap (λ r. laws.find r req) is_api.same
        ∙ laws.find-layer _ _ req
        ∙ ap (Option.map (auth_layer (new_layer config))) e

    -- Another path than `/health`.
    not_health : req.path ≢ "/health" → laws.find is_api.all req ≡ laws.find is_api.merged req
    not_health other = laws.find-route_other _ _ _ _ _ req is_api.adds refl other

    module _ (free : laws.find api req ≡ none) where
      merged_auth : laws.find is_api.merged req ≡ laws.find is_api.auth req
      merged_auth = laws.find-merge_right api _ _ req is_api.merges free

      pub in_api :
          (e : Endpoint D)
          → req.path ≢ "/health"
          → laws.find is_api.auth req ≡ some e
          → laws.find r req ≡ some (auth_layer (new_layer config) e)
      in_api e other found = layered (not_health other ∙ merged_auth ∙ found)

      pub not_in_api : IsElsewhere req.path → req.path ≢ "/health" → laws.find r req ≡ none
      not_in_api h other = layered (
          not_health other
          ∙ merged_auth
          ∙ unrouted sys axum part laws config is_api.auth is_api.mounted req h)

      pub in_health :
          req.method ≡ get
          → req.path ≡ "/health"
          → laws.find r req ≡ some (auth_layer (new_layer config) (plain_handler health))
      in_health method path = layered (
          hit sys axum part laws config _ _ _ _ _ req is_api.adds refl method path (
            merged_auth
            ∙ unrouted sys axum part laws config is_api.auth is_api.mounted req health_IsElsewhere))
        where
          at : (q : String) → ("/health" == q) ≡ false → req.path ≢ q
          at q other e = ne_of_test "/health" q other (sym path ∙ e)

          health_IsElsewhere : IsElsewhere req.path
          health_IsElsewhere = record {
            register = at _ refl;
            login = at _ refl;
            refresh = at _ refl;
            logout = at _ refl;
            me = at _ refl;
          }

    -- A route of the application, behind the auth layer.
    pub in_app :
        (e : Endpoint D)
        → IsElsewhere req.path
        → req.path ≢ "/health"
        → laws.find api req ≡ some e
        → laws.find r req ≡ some (auth_layer (new_layer config) e)
    in_app e away other found = layered (
        not_health other
        ∙ laws.find-merge_left api _ _ req is_api.merges
            (unrouted sys axum part laws config is_api.auth is_api.mounted req away)
        ∙ found)

  -- How `assemble` makes its router.
  pub record IsAssembled (api r : Router) : Type 0 where
    pub inner : Router
    pub is_api : IsApi api inner
    pub outer : Router
    pub nests : axum.nest "/api/v1" inner axum.new ≡ ok outer
    pub same : r ≡ standard_middleware sys axum (axum.fallback (plain_handler not_found) outer)

  pub assemble-IsAssembled :
      (api r : Router) → assemble sys axum part config api ≡ ok r → IsAssembled api r
  unfolding assemble
  assemble-IsAssembled api r e =
      let (inner, e₁, f₁) = and_then-ok _ _ r e in
      let (outer, e₂, f₂) = and_then-ok _ _ r f₁ in
      record {
        inner = inner;
        is_api = api_routes-IsApi api inner e₁;
        outer = outer;
        nests = e₂;
        same = sym (eq_of_ok _ r f₂);
      }
