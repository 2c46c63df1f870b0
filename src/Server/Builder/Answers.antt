-- ===== src/Server/Builder/Answers.antt =====
-- src/server.rs, src/auth/http.rs: what the assembled router answers, path by path.
use servir.Prelude.{String, ok, append, ◌≡◌, ◌≢◌, refl, sym, ◌∙◌, ap, Option, none, some}
use mathlib.Core.Path.{subst}
use mathlib.Core.Option
use servir.Json.{unit_serialize}
use servir.System.{System}
use servir.System.Parts.{Part, on_part}
use servir.System.Actions.{World}
use servir.Auth.Config.{AuthConfig}
use servir.Auth.Extractor.{HeaderValue, new_layer, call_layer}
use servir.Auth.Routes.{sent, plain_handler, auth_layer}
use servir.Auth.Service.{Request, serve}
use servir.Db.Schema.{Tables}
use servir.Server.Axum.{HttpRequest, HttpResponse, Endpoint, Axum, get}
use servir.Server.Axum.Laws.{RouterLaws, TowerLaws, at_path}
use servir.Server.Builder.{assemble, health, not_found, health_serialize}
use servir.Response.{Response, into_response}
use servir.Server.Middleware.{standard_middleware}
use servir.Server.Middleware.Wraps.{
  Answered, identified, identified_answer_of, stamp, standard_middleware-Answered,
}
use servir.Server.Builder.Assembled.{
  IsAssembled, assemble-IsAssembled, in_api, not_in_api, in_health, in_app,
}
use servir.Server.Builder.Routed.{IsRouted, IsElsewhere, routed, IsRouted-not_health}

-- No route has the path: it is not under `/api/v1`, or neither the application nor the program has it.
pub data IsUnmatched {D Router Addr Listener : Type 0} {axum : Axum D Router Addr Listener}
    (laws : RouterLaws axum) (api : Router) (req : HttpRequest) : Type 0 where
  outside :
      req.path ≢ "/api/v1"
      → ((p : String) → req.path ≢ append "/api/v1" (append "/" p))
      → IsUnmatched laws api req
  unknown :
      (p : String)
      → req.path ≡ append "/api/v1" (append "/" p)
      → laws.find api (at_path (append "/" p) req) ≡ none
      → IsElsewhere (append "/" p)
      → append "/" p ≢ "/health"
      → IsUnmatched laws api req

module _ {D Router Addr Listener : Type 0} (sys : System) (axum : Axum D Router Addr Listener)
    (part : Part D Tables) (laws : RouterLaws axum) (config : AuthConfig) where
  module _ (tower : TowerLaws axum) (api router : Router)
      (assembled : assemble sys axum part config api ≡ ok router) (req : HttpRequest)
      (w : World D) where
    made : IsAssembled sys axum part laws config api router
    made = assemble-IsAssembled sys axum part laws config api router assembled

    outermost :
        (out : HttpResponse × World D)
        → Answered laws
            (standard_middleware sys axum (axum.fallback (plain_handler not_found) made.outer))
            req
            w
            out
        → Answered laws router req w out
    outermost out h = subst (λ r. Answered laws r req w out) (sym made.same) h

    -- A request that an endpoint of the API is found for.
    nested :
        (p : String) (e : Endpoint D) (f : World D → Response × World D)
        → req.path ≡ append "/api/v1" (append "/" p)
        → laws.find made.inner (at_path (append "/" p) req) ≡ some e
        → ((id : Option HeaderValue) (w : World D)
            → e (record (at_path (append "/" p) req) { x_request_id = id }) w
              ≡ (sent (f w).0, (f w).1))
        → Answered laws router req w (stamp f (identified sys req w))
    nested p e f path found does = outermost _ (
        subst (Answered laws _ req w)
          (identified_answer_of sys (λ req. e (at_path (append "/" p) req)) f req w does)
          (standard_middleware-Answered sys axum laws tower _ req w _ (
            laws.find-fallback_matched _ _ _ req (
              laws.find-nest "/api/v1" p _ _ _ req made.nests refl path (laws.find-new req)
              ∙ ap (Option.map (λ h req. h (at_path (append "/" p) req))) found))))

    -- A route of the application.
    pub assemble-app :
        (p : String) (e : Endpoint D) (f : World D → Response × World D)
        → req.path ≡ append "/api/v1" (append "/" p)
        → IsElsewhere (append "/" p)
        → append "/" p ≢ "/health"
        → laws.find api (at_path (append "/" p) req) ≡ some e
        → ((id : Option HeaderValue) (w : World D)
            → auth_layer
                (new_layer config)
                e
                (record (at_path (append "/" p) req) { x_request_id = id })
                w
              ≡ (sent (f w).0, (f w).1))
        → Answered laws router req w (stamp f (identified sys req w))
    assemble-app p e f path away other found does =
        nested p _ f path
          (in_app sys axum part laws config api made.inner made.is_api (at_path (append "/" p) req)
            e away other found)
          does

    -- A request that no endpoint is found for.
    fallen_through :
        laws.find made.outer req ≡ none
        → Answered laws router req w
            (stamp (λ w. (into_response not_found, w)) (identified sys req w))
    unfolding plain_handler
    fallen_through missed = outermost _ (
        subst (Answered laws _ req w)
          (identified_answer_of sys (plain_handler not_found) (λ w. (into_response not_found, w))
            req w (λ id w. refl))
          (standard_middleware-Answered sys axum laws tower _ req w _
            (laws.find-fallback _ _ req missed)))

    module _ (p : String) (path : req.path ≡ append "/api/v1" (append "/" p))
        (free : laws.find api (at_path (append "/" p) req) ≡ none) where
      -- Under `/api/v1`, the router that `assemble` makes answers the auth routes as `serve` does, with the
      -- header `x-request-id` of the request or a fresh one, where no application route has the path, and
      -- axum and tower-http behave as documented.
      pub assemble-serve :
          (request : Request)
          → IsRouted axum (at_path (append "/" p) req) request
          → Answered laws router req w
              (stamp (on_part part (serve sys config request)) (identified sys req w))
      assemble-serve request route =
          let req' = at_path (append "/" p) req in
          let (e, found, does) =
            routed sys axum part laws config made.is_api.auth made.is_api.mounted req' request
              route in
          nested p _ _ path
            (in_api sys axum part laws config api made.inner made.is_api req' free e
              (IsRouted-not_health axum req' request route) found)
            does

      pub assemble-health :
          req.method ≡ get
          → append "/" p ≡ "/health"
          → Answered laws router req w
              (stamp (λ w. (into_response health, w)) (identified sys req w))
      unfolding auth_layer call_layer plain_handler
      assemble-health method is =
          nested p _ _ path
            (in_health sys axum part laws config api made.inner made.is_api
              (at_path (append "/" p) req) free method is)
            (λ id w. refl)

    -- A request for a path that is not under `/api/v1`, or that neither the application nor the program
    -- has a route for, is answered with the envelope of `not_found`, with the header `x-request-id` of the
    -- request or a fresh one, by the router that `assemble` makes, where axum and tower-http behave as
    -- documented.
    pub assemble-not_found :
        IsUnmatched laws api req
        → Answered laws router req w
            (stamp (λ w. (into_response not_found, w)) (identified sys req w))
    assemble-not_found (outside a b) =
        fallen_through
          (laws.find-nest_other "/api/v1" _ _ _ req made.nests refl a b ∙ laws.find-new req)
    assemble-not_found (unknown p path free away other) =
        let req' = at_path (append "/" p) req in
        fallen_through (
          laws.find-nest "/api/v1" p _ _ _ req made.nests refl path (laws.find-new req)
          ∙ ap (Option.map (λ h req. h (at_path (append "/" p) req))) (
              not_in_api sys axum part laws config api made.inner made.is_api req' free away other))
