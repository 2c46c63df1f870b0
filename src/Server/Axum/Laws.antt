-- ===== src/Server/Axum/Laws.antt =====
-- The documented behaviour of axum's router and of the layers of tower-http. `find` is the endpoint that a
-- router has for a request, or none, where the request falls through to a fallback.
use servir.Prelude.{
  suc, ℕ, String, append, ◌≡◌, ◌≢◌, Bool, true, false, Option, none, some, ok, err, ◌⊎◌,
  if◌then◌else◌, ltb,
}
use Prim.Native.String.{[], ◌∷◌}
use Prim.Native.Char.{code}
use mathlib.Core.Option
use package.text.Mathlib.Text.{starts_with}
use servir.System.Actions.{World}
use servir.Auth.Extractor.{HeaderValue, text}
use servir.Server.Axum.{HttpRequest, HttpResponse, Endpoint, Method, Axum}

-- A path of a route without captures, which stand in braces.
abbrev pub is_static : String → Bool
is_static [] = true
is_static (c ∷ s) =
    let rest = is_static s in
    if ltb (code c) 123 then rest else if ltb 123 (code c) then rest else false

abbrev pub at_path : String → HttpRequest → HttpRequest
at_path p req = record req { path = p }

abbrev pub with_request_id : HeaderValue → HttpRequest → HttpRequest
with_request_id id req = record req { x_request_id = some id }

-- The header `x-request-id` of a request on its response, unless there is one.
abbrev pub tagged : Option HeaderValue → HttpResponse → HttpResponse
tagged id r = record r { x_request_id = elim r.x_request_id [ some own ↦ some own | none ↦ id ] }

-- The world after one call.
abbrev pub ticked : {D : Type 0} → World D → World D
ticked w = record w { tick = suc w.tick }

module _ {D Router Addr Listener : Type 0} where
  pub record RouterLaws (axum : Axum D Router Addr Listener) : Type 0 where
    -- Whether a route with this path, as it was given to `route`, and this method is there already.
    pub has_route : Router → Method → String → Bool
    pub has_fallback : Router → Bool
    pub has_route-new : (m : Method) (p : String) → has_route axum.new m p ≡ false
    pub has_fallback-new : has_fallback axum.new ≡ false
    -- A route on a router panics only where it overlaps with another.
    pub route-ok :
        (p : String) (m : Method) (h : Endpoint D) (r : Router)
        → is_static p ≡ true
        → starts_with p "/" ≡ true
        → has_route r m p ≡ false
        → (r' : Router) × (axum.route p m h r ≡ ok r')
    pub route-overlap :
        (p : String) (m : Method) (h : Endpoint D) (r : Router)
        → has_route r m p ≡ true
        → (text : String) × (axum.route p m h r ≡ err text)
    pub has_route-route :
        (p q : String) (m n : Method) (h : Endpoint D) (r r' : Router)
        → axum.route p m h r ≡ ok r'
        → has_route r' n q ≡ true
        → ((n ≡ m) × (q ≡ p)) ⊎ (has_route r n q ≡ true)
    pub has_route-added :
        (p : String) (m : Method) (h : Endpoint D) (r r' : Router)
        → axum.route p m h r ≡ ok r'
        → has_route r' m p ≡ true
    pub has_route-kept :
        (p q : String) (m n : Method) (h : Endpoint D) (r r' : Router)
        → axum.route p m h r ≡ ok r'
        → has_route r n q ≡ true
        → has_route r' n q ≡ true
    pub has_fallback-route :
        (p : String) (m : Method) (h : Endpoint D) (r r' : Router)
        → axum.route p m h r ≡ ok r'
        → has_fallback r' ≡ has_fallback r
    -- Two routers merge where no route of the second, which have no captures, is in the first, and the
    -- second has no fallback; not where both have a route.
    pub merge-ok :
        (r s : Router)
        → ((m : Method) (p : String)
            → has_route s m p ≡ true
            → (is_static p ≡ true) × (has_route r m p ≡ false))
        → has_fallback s ≡ false
        → (t : Router) × (axum.merge r s ≡ ok t)
    pub merge-overlap :
        (r s : Router) (m : Method) (p : String)
        → has_route r m p ≡ true
        → has_route s m p ≡ true
        → (text : String) × (axum.merge r s ≡ err text)
    pub has_route-merged :
        (r s t : Router) (m : Method) (p : String)
        → axum.merge r s ≡ ok t
        → has_route r m p ≡ true
        → has_route t m p ≡ true
    pub has_route-merge :
        (r s t : Router) (m : Method) (p : String)
        → axum.merge r s ≡ ok t
        → has_route t m p ≡ true
        → (has_route r m p ≡ true) ⊎ (has_route s m p ≡ true)
    -- There is nothing to overlap with in a new router.
    pub nest-ok :
        (prefix : String) (inner : Router)
        → is_static prefix ≡ true
        → starts_with prefix "/" ≡ true
        → (r : Router) × (axum.nest prefix inner axum.new ≡ ok r)
    pub find : Router → HttpRequest → Option (Endpoint D)
    pub find-new : (req : HttpRequest) → find axum.new req ≡ none
    pub find-route :
        (p : String) (h : Endpoint D) (r r' : Router) (req : HttpRequest)
        → axum.route p req.method h r ≡ ok r'
        → is_static p ≡ true
        → req.path ≡ p
        → find r req ≡ none
        → find r' req ≡ some h
    -- Another path; a path with another method is answered by axum itself.
    pub find-route_other :
        (p : String) (m : Method) (h : Endpoint D) (r r' : Router) (req : HttpRequest)
        → axum.route p m h r ≡ ok r'
        → is_static p ≡ true
        → req.path ≢ p
        → find r' req ≡ find r req
    pub find-merge_left :
        (r s t : Router) (req : HttpRequest)
        → axum.merge r s ≡ ok t
        → find s req ≡ none
        → find t req ≡ find r req
    pub find-merge_right :
        (r s t : Router) (req : HttpRequest)
        → axum.merge r s ≡ ok t
        → find r req ≡ none
        → find t req ≡ find s req
    pub find-layer :
        (f : Endpoint D → Endpoint D) (r : Router) (req : HttpRequest)
        → find (axum.layer f r) req ≡ Option.map f (find r req)
    -- The inner router sees the path without the prefix.
    pub find-nest :
        (prefix p : String) (inner outer r : Router) (req : HttpRequest)
        → axum.nest prefix inner outer ≡ ok r
        → is_static prefix ≡ true
        → req.path ≡ append prefix (append "/" p)
        → find outer req ≡ none
        → find r req
          ≡ Option.map
              (λ h req. h (at_path (append "/" p) req))
              (find inner (at_path (append "/" p) req))
    pub find-nest_other :
        (prefix : String) (inner outer r : Router) (req : HttpRequest)
        → axum.nest prefix inner outer ≡ ok r
        → is_static prefix ≡ true
        → req.path ≢ prefix
        → ((p : String) → req.path ≢ append prefix (append "/" p))
        → find r req ≡ find outer req
    pub find-fallback :
        (h : Endpoint D) (r : Router) (req : HttpRequest)
        → find r req ≡ none
        → find (axum.fallback h r) req ≡ some h
    pub find-fallback_matched :
        (h e : Endpoint D) (r : Router) (req : HttpRequest)
        → find r req ≡ some e
        → find (axum.fallback h r) req ≡ some e

  pub record TowerLaws (axum : Axum D Router Addr Listener) : Type 0 where
    -- Tracing changes no message.
    pub trace-call :
        (e : Endpoint D) (req : HttpRequest) (w : World D) → axum.trace e req w ≡ e req w
    pub propagate_request_id-call :
        (e : Endpoint D) (req : HttpRequest) (w : World D)
        → axum.propagate_request_id e req w ≡ (tagged req.x_request_id (e req w).0, (e req w).1)
    -- A request with the header is passed on; one without it gets an ID that is made for it.
    pub set_request_id-call :
        (make : ℕ → String) (e : Endpoint D) (req : HttpRequest) (w : World D) (id : HeaderValue)
        → req.x_request_id ≡ some id
        → axum.set_request_id make e req w ≡ e req w
    pub set_request_id-call_none :
        (make : ℕ → String) (e : Endpoint D) (req : HttpRequest) (w : World D)
        → req.x_request_id ≡ none
        → axum.set_request_id make e req w ≡ e (with_request_id (text (make w.tick)) req) (ticked w)
