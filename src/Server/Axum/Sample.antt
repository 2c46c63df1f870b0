-- ===== src/Server/Axum/Sample.antt =====
-- A concrete router, and layers of tower-http, that behave as documented. `Routes` is its list of
-- routes, `Paths` the path that a nested router sees.
mod Routes
mod Paths
use servir.Prelude.{
  ℕ, String, append, strip_prefix, strip_prefix-append, ◌==◌, eq_refl, test_of_ne, ◌≡◌, ◌≢◌, refl,
  sym, ◌∙◌, ap, Bool, Bool-cases, true, false, Option, none, some, inl, inr, Result, ok, err,
  eq_of_ok, List, [], ◌∷◌, ◌++◌, arith, if◌then◌else◌,
}
use package.text.Mathlib.Text.{starts_with}
use package.text.Mathlib.TextEquality.{starts_with_iff}
use package.text.Mathlib.TextPositions.{starts_with-append}
use package.text.Mathlib.TextLemmas.{append_assoc}
use mathlib.Core.Option
use servir.Auth.Extractor.{HeaderValue, text}
use servir.Sql.{has}
use servir.Server.Axum.Sample.Routes.{
  Route, same_method, same_method_refl, is_at, is_at_refl, overlap, has-head, has-tail, has-append,
  has-append_left, overlap-apart, overlap-shared,
}
use servir.Server.Axum.Sample.Paths.{sample_tail, tail_nested, tail_other}
use mathlib.Core.Path.{subst}
use servir.Server.Axum.{Method, HttpRequest, Endpoint, Axum, Body}
use servir.Server.Axum.Laws.{RouterLaws, TowerLaws, at_path, ticked, with_request_id, tagged}
use servir.Json.{null}

module _ (D : Type 0) where
  abbrev pub Finder : Type 0
  Finder = HttpRequest → Option (Endpoint D)

  pub record SampleRouter : Type 0 where
    pub endpoint : Finder
    pub routes : List Route
    pub with_fallback : Bool

  abbrev method_not_allowed : Endpoint D
  method_not_allowed req w = (record { status = 405; x_request_id = none; body = null }, w)

  abbrev or_else : Option (Endpoint D) → Option (Endpoint D) → Option (Endpoint D)
  or_else none o = o
  or_else (some e) o = some e

  abbrev at_route : String → Method → Endpoint D → Finder → Finder
  at_route p m h f req =
      if req.path == p
      then or_else (f req) (some (if same_method req.method m then h else method_not_allowed))
      else f req

  abbrev with_route : String → Method → Endpoint D → SampleRouter → SampleRouter
  with_route p m h r = record {
    endpoint = at_route p m h r.endpoint;
    routes = record { method = m; path = p } ∷ r.routes;
    with_fallback = r.with_fallback;
  }

  abbrev overlapping : String
  overlapping = "Overlapping method route. Handler already exists"

  abbrev sample_route : String → Method → Endpoint D → SampleRouter → Result String SampleRouter
  sample_route p m h r =
      if has (is_at m p) r.routes then err overlapping else ok (with_route p m h r)

  abbrev both : SampleRouter → SampleRouter → SampleRouter
  both r s = record {
    endpoint = λ req. or_else (r.endpoint req) (s.endpoint req);
    routes = r.routes ++ s.routes;
    with_fallback = if r.with_fallback then true else s.with_fallback;
  }

  abbrev sample_merge : SampleRouter → SampleRouter → Result String SampleRouter
  sample_merge r s =
      if overlap s.routes r.routes
      then err overlapping
      else if s.with_fallback
      then if r.with_fallback
        then err "Cannot merge two `Router`s that both have a fallback"
        else ok (both r s)
      else ok (both r s)

  abbrev nested : Finder → Finder → HttpRequest → Option String → Option (Endpoint D)
  nested inner outer req none = outer req
  nested inner outer req (some p) = Option.map (λ h req. h (at_path p req)) (inner (at_path p req))

  abbrev stamped : Option HeaderValue → (ℕ → String) → Endpoint D → Endpoint D
  stamped (some id) make e req w = e req w
  stamped none make e req w = e (with_request_id (text (make w.tick)) req) (ticked w)

  abbrev json : {A : Type 0} → (String → A) → Body → Result String A
  json read body =
      if body.bytes == "" then err "EOF while parsing a value" else ok (read body.bytes)

  unfoldable pub sample_axum : Axum D SampleRouter ℕ ℕ
  sample_axum = record {
    new = record { endpoint = λ req. none; routes = []; with_fallback = false };
    route = sample_route;
    merge = sample_merge;
    nest = λ prefix inner outer. ok (record outer {
      endpoint = λ req. nested inner.endpoint outer.endpoint req (sample_tail prefix req.path);
    });
    layer = λ f r. record r { endpoint = λ req. Option.map f (r.endpoint req) };
    fallback = λ h r. record r {
      endpoint = λ req. or_else (r.endpoint req) (some h);
      with_fallback = true;
    };
    trace = λ e. e;
    propagate_request_id = λ e req w. let out = e req w in (tagged req.x_request_id out.0, out.1);
    set_request_id = λ make e req w. stamped req.x_request_id make e req w;
    json_register = json (λ text. record { username = text; password = "password" });
    json_login = json (λ text. record { username = text; password = "password" });
    json_refresh = json (λ text. record { refresh_token = text });
    json_logout = json (λ text. record { refresh_token = text });
    bind = λ a t. ok a;
    local_addr = λ l t. ok l;
    run = λ l r t. ok tt;
  }

  or_else-some :
      (o : Option (Endpoint D)) (h e : Endpoint D) → o ≡ some e → or_else o (some h) ≡ some e
  or_else-some o h e found = rw found refl

  or_else-none : (o o' : Option (Endpoint D)) → o' ≡ none → or_else o o' ≡ o
  or_else-none none o' missing = missing
  or_else-none (some e) o' missing = refl

  route_hit :
      (p : String) (h : Endpoint D) (f : Finder) (req : HttpRequest)
      → req.path ≡ p
      → f req ≡ none
      → at_route p req.method h f req ≡ some h
  route_hit p h f req path missed =
      let this : (req.path == p) ≡ true = ap (λ q. q == p) path ∙ eq_refl p in
      rw (this, missed, same_method_refl req.method) refl

  route_other :
      (p : String) (m : Method) (h : Endpoint D) (f : Finder) (req : HttpRequest)
      → req.path ≢ p
      → at_route p m h f req ≡ f req
  route_other p m h f req away = rw (test_of_ne req.path p away) refl

  -- What a router is with another route, or merged with another, where that does not panic.
  routed :
      (p : String) (m : Method) (h : Endpoint D) (r r' : SampleRouter)
      → sample_route p m h r ≡ ok r'
      → with_route p m h r ≡ r'
  routed p m h r r' e = elim (Bool-cases (has (is_at m p) r.routes)) [
    | inl there ↦ absurd (ground (arith, e, there))
    | inr free ↦ eq_of_ok _ r' (rw free refl ∙ e)
  ]

  merged : (r s t : SampleRouter) → sample_merge r s ≡ ok t → both r s ≡ t
  merged r s t e = elim (Bool-cases (overlap s.routes r.routes)) [
    | inl there ↦ absurd (ground (arith, e, there))
    | inr apart ↦ elim (Bool-cases s.with_fallback) [
      | inr unmet ↦ eq_of_ok _ t (rw (apart, unmet) refl ∙ e)
      | inl met ↦ elim (Bool-cases r.with_fallback) [
        | inr without ↦ eq_of_ok _ t (rw (apart, met, without) refl ∙ e)
        | inl also ↦ absurd (ground (arith, e, apart, met, also))
      ]
    ]
  ]

  pub sample-RouterLaws : RouterLaws sample_axum
  unfolding sample_axum
  sample-RouterLaws = record {
    has_route = λ r m p. has (is_at m p) r.routes;
    has_fallback = λ r. r.with_fallback;
    has_route-new = λ m p. refl;
    has_fallback-new = refl;
    route-ok = λ p m h r static slash free. (with_route p m h r, rw free refl);
    route-overlap = λ p m h r there. (overlapping, rw there refl);
    has_route-route = λ p q m n h r r' e there.
        has-head m n p q r.routes
          (subst (λ r. has (is_at n q) r.routes ≡ true) (sym (routed p m h r r' e)) there);
    has_route-added = λ p m h r r' e.
        subst (λ r. has (is_at m p) r.routes ≡ true) (routed p m h r r' e)
          (rw (is_at_refl m p) refl);
    has_route-kept = λ p q m n h r r' e there.
        subst (λ r. has (is_at n q) r.routes ≡ true) (routed p m h r r' e)
          (has-tail (is_at n q) _ r.routes there);
    has_fallback-route = λ p m h r r' e. ap (λ r. r.with_fallback) (sym (routed p m h r r' e));
    merge-ok = λ r s apart none_own. (
      both r s,
      rw (overlap-apart s.routes r.routes (λ m p there. (apart m p there).1), none_own) refl,
    );
    merge-overlap = λ r s m p left right.
        (overlapping, rw (overlap-shared s.routes r.routes m p right left) refl);
    has_route-merged = λ r s t m p e there.
        subst (λ r. has (is_at m p) r.routes ≡ true) (merged r s t e)
          (has-append_left (is_at m p) r.routes s.routes there);
    has_route-merge = λ r s t m p e there.
        has-append (is_at m p) r.routes s.routes
          (subst (λ r. has (is_at m p) r.routes ≡ true) (sym (merged r s t e)) there);
    nest-ok = λ prefix inner static slash. (_, refl);
    find = λ r req. r.endpoint req;
    find-new = λ req. refl;
    find-route = λ p h r r' req e static path missed.
        ap (λ r. r.endpoint req) (sym (routed p req.method h r r' e))
        ∙ route_hit p h r.endpoint req path missed;
    find-route_other = λ p m h r r' req e static away.
        ap (λ r. r.endpoint req) (sym (routed p m h r r' e))
        ∙ route_other p m h r.endpoint req away;
    find-merge_left = λ r s t req e missed.
        ap (λ r. r.endpoint req) (sym (merged r s t e))
        ∙ or_else-none (r.endpoint req) (s.endpoint req) missed;
    find-merge_right = λ r s t req e missed.
        ap (λ r. r.endpoint req) (sym (merged r s t e))
        ∙ ap (λ o. or_else o (s.endpoint req)) missed;
    find-layer = λ f r req. refl;
    find-nest = λ prefix p inner outer r req e static path missed.
        ap (λ r. r.endpoint req) (sym (eq_of_ok _ r e))
        ∙ ap (nested inner.endpoint outer.endpoint req) (tail_nested prefix p req.path path);
    find-nest_other = λ prefix inner outer r req e static other away.
        ap (λ r. r.endpoint req) (sym (eq_of_ok _ r e))
        ∙ ap (nested inner.endpoint outer.endpoint req) (tail_other prefix req.path away);
    find-fallback = λ h r req missed. ap (λ o. or_else o (some h)) missed;
    find-fallback_matched = λ h e r req found. or_else-some (r.endpoint req) h e found;
  }

  pub sample-find :
      (r : SampleRouter) (req : HttpRequest) → sample-RouterLaws.find r req ≡ r.endpoint req
  unfolding sample_axum sample-RouterLaws
  sample-find r req = refl

  pub sample-has_route :
      (r : SampleRouter) (m : Method) (p : String)
      → sample-RouterLaws.has_route r m p ≡ has (is_at m p) r.routes
  unfolding sample_axum sample-RouterLaws
  sample-has_route r m p = refl

  pub sample-TowerLaws : TowerLaws sample_axum
  unfolding sample_axum
  sample-TowerLaws = record {
    trace-call = λ e req w. refl;
    propagate_request_id-call = λ e req w. refl;
    set_request_id-call = λ make e req w id there. ap (λ o. stamped o make e req w) there;
    set_request_id-call_none = λ make e req w missing. ap (λ o. stamped o make e req w) missing;
  }
