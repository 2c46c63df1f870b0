-- ===== src/Server/Middleware/Wraps.antt =====
-- src/server.rs: what the middleware makes of an endpoint.
use servir.Prelude.{◌≡◌, sym, ◌∙◌, ap, Option, none, some, Option-cases, inl, inr}
use mathlib.Core.Option
use servir.System.{System}
use servir.System.Actions.{World}
use servir.Auth.Extractor.{HeaderValue, text}
use servir.Response.{Response}
use servir.Auth.Routes.{sent}
use servir.Server.Axum.{HttpRequest, HttpResponse, Endpoint, Axum}
use servir.Server.Axum.Laws.{RouterLaws, TowerLaws, with_request_id, tagged, ticked}
use servir.Server.Middleware.{standard_middleware}

-- A request with its ID: its own, or a fresh UUID.
abbrev pub with_id :
    {D : Type 0} → System → HttpRequest → World D → Option HeaderValue → HttpRequest × World D
with_id sys req w (some id) = (req, w)
with_id sys req w none = (with_request_id (text (sys.uuid w.tick)) req, ticked w)

abbrev pub identified : {D : Type 0} → System → HttpRequest → World D → HttpRequest × World D
identified sys req w = with_id sys req w req.x_request_id

-- The header `x-request-id` of the request on the answer.
abbrev pub answered : {D : Type 0} → Endpoint D → HttpRequest × World D → HttpResponse × World D
answered e (req, w) = (tagged req.x_request_id (e req w).0, (e req w).1)

-- What an endpoint answers to the request with its ID, with the ID in the header `x-request-id` unless the
-- endpoint sets that.
abbrev pub identified_answer :
    {D : Type 0} → System → Endpoint D → HttpRequest → World D → HttpResponse × World D
identified_answer sys e req w = answered e (identified sys req w)

-- A response of the program, in the world in which the ID was given, with the ID in the header.
abbrev pub stamp :
    {D : Type 0} → (World D → Response × World D) → HttpRequest × World D → HttpResponse × World D
stamp f (req, w) = (tagged req.x_request_id (sent (f w).0), (f w).1)

-- An endpoint that does not look at the header answers so.
pub identified_answer_of :
    {D : Type 0} (sys : System) (e : Endpoint D) (f : World D → Response × World D)
    (req : HttpRequest) (w : World D)
    → ((id : Option HeaderValue) (w : World D)
        → e (record req { x_request_id = id }) w ≡ (sent (f w).0, (f w).1))
    → identified_answer sys e req w ≡ stamp f (identified sys req w)
identified_answer_of sys e f req w h = go req.x_request_id
  where
    go : (o : Option HeaderValue) → answered e (with_id sys req w o) ≡ stamp f (with_id sys req w o)
    go (some id) = ap (λ out. (tagged req.x_request_id out.0, out.1)) (h req.x_request_id w)
    go none =
        ap (λ out. (tagged (some (text (sys.uuid w.tick))) out.0, out.1))
          (h (some (text (sys.uuid w.tick))) (ticked w))

-- The router has an endpoint for the request, which answers so.
abbrev pub Answered :
    {D Router Addr Listener : Type 0} {axum : Axum D Router Addr Listener}
    → RouterLaws axum
    → Router
    → HttpRequest
    → World D
    → HttpResponse × World D
    → Type 0
Answered {D} laws r req w out = (e : Endpoint D) × (laws.find r req ≡ some e) × (e req w ≡ out)

module _ {D Router Addr Listener : Type 0} (sys : System) (axum : Axum D Router Addr Listener)
    (router_laws : RouterLaws axum) (tower : TowerLaws axum) where
  module _ (e : Endpoint D) where
    abbrev wrapped : Endpoint D
    wrapped = axum.set_request_id sys.uuid (axum.propagate_request_id (axum.trace e))

    propagated :
        (req : HttpRequest) (w : World D)
        → axum.propagate_request_id (axum.trace e) req w
          ≡ (tagged req.x_request_id (e req w).0, (e req w).1)
    propagated req w =
        tower.propagate_request_id-call (axum.trace e) req w
        ∙ ap (λ out. (tagged req.x_request_id out.0, out.1)) (tower.trace-call e req w)

    wrapped-call : (req : HttpRequest) (w : World D) → wrapped req w ≡ identified_answer sys e req w
    wrapped-call req w = elim (Option-cases req.x_request_id) [
      | inl missing ↦
          tower.set_request_id-call_none sys.uuid _ req w missing
          ∙ propagated _ (ticked w)
          ∙ sym (ap (λ o. answered e (with_id sys req w o)) missing)
      | inr (id, there) ↦
          tower.set_request_id-call sys.uuid _ req w id there
          ∙ propagated req w
          ∙ sym (ap (λ o. answered e (with_id sys req w o)) there)
    ]

  -- Behind the middleware, a router answers what its endpoint answers to the request with its ID: a
  -- request without an `x-request-id` gets a fresh UUID, and the response carries the request's ID, unless
  -- the endpoint sets the header itself.
  pub standard_middleware-Answered :
      (r : Router) (req : HttpRequest) (w : World D) (e : Endpoint D)
      → router_laws.find r req ≡ some e
      → Answered router_laws (standard_middleware sys axum r) req w (identified_answer sys e req w)
  unfolding standard_middleware
  standard_middleware-Answered r req w e found = (
    wrapped e,
    router_laws.find-layer _ _ req
        ∙ ap (Option.map (axum.set_request_id sys.uuid)) (
            router_laws.find-layer _ _ req
            ∙ ap (Option.map axum.propagate_request_id)
                (router_laws.find-layer _ _ req ∙ ap (Option.map axum.trace) found)),
    wrapped-call e req w,
  )
