-- ===== src/Consumer/Main/Runs.antt =====
-- consumer/src/main.rs: how the program ends, and the logging then.
use servir.Prelude.{
  ℕ, String, ◌≡◌, refl, sym, ap, ◌∙◌, false, and_then_ok, some, inl, inr, Result, ok, err,
}
use mathlib.Core.Path.{subst}
use servir.System.{System}
use servir.System.Actions.{World, Action}
use servir.System.Parts.{Part, on_part}
use servir.System.Posts.{Post, Post-bind, Post-weaken, Post-map_error}
use servir.Db.Schema.{Tables}
use servir.Server.Axum.{Axum}
use servir.Server.Builder.{Failure, failed, panicked, ServerBuilder, serve_servir, serve_builder}
use servir.Server.Builder.{assemble}
use servir.Server.Builder.Build.{IsReason, IsOverlap, build-IsBuilt}
use servir.Server.Builder.Overlaps.{IsApart, assemble_ok}
use servir.Consumer.App.Answers.{app_routes_ok, app_routes-IsApart}
use servir.Server.Axum.Laws.{RouterLaws}
use mathlib.Core.Option.{some_inj}
use servir.Server.Telemetry.{Tracing, init_logging}
use servir.Server.Telemetry.Logging.{TracingLaws, IsLogging, Outcome, init_logging-Outcome}
use servir.Consumer.{ProfileTable}
use servir.Consumer.Main.{
  Args, Panic, library_panic, builder_panic, unexpected, server_failed, open_app, configured,
  run_server, after_routes, after_open, after_logging, main,
}

-- Whatever is returned.
Post-any :
    {D E A : Type 0} (out : Result E A × World D)
    → Post {D = D} {E = E} (λ a w. Unit {0}) (λ e w. Unit {0}) out
Post-any (ok a, w) = record { holds = tt }
Post-any (err e, w) = record { holds = tt }

Post-on_part :
    {D T E A : Type 0} {Q : A → Type 0} {R : E → Type 0} (part : Part D T) (m : Action T E A)
    (w : World D)
    → Post (λ a v. Q a) (λ e v. R e) (m (record { db = part.read w.db; tick = w.tick }))
    → Post (λ a v. Q a) (λ e v. R e) (on_part part m w)
Post-on_part {D} {T} {E} {A} {Q} {R} part m w p =
    go (m (record { db = part.read w.db; tick = w.tick })) p
  where
    go :
        (out : Result E A × World T)
        → Post (λ a v. Q a) (λ e v. R e) out
        → Post {D = D}
            (λ a v. Q a)
            (λ e v. R e)
            (out.0, record { db = part.write out.1.db w.db; tick = out.1.tick })
    go (ok a, v) p = record { holds = p.holds }
    go (err e, v) p = record { holds = p.holds }

-- No panic.
abbrev IsError : Failure → Type 0
IsError (failed e) = Unit {0}
IsError (panicked message) = ⊥

-- A panic of an `expect`.
abbrev IsOther : Panic → Type 0
IsOther (library_panic text) = ⊥
IsOther (builder_panic message) = ⊥
IsOther (unexpected message e) = Unit {0}

module _ {D Router Addr Listener : Type 0} (sys : System) (axum : Axum D Router Addr Listener)
    (part : Part D Tables) (laws : RouterLaws axum) (b : ServerBuilder Router Addr) (api : Router)
    (address : Addr) (url : String) (routes : b.routes ≡ some api) (apart : IsApart laws api)
    (addr : b.addr ≡ some address) (set : b.auth_database_url ≡ some url) where
  no_overlap : (message : String) (w : World Tables) → IsOverlap sys axum part b w message → ⊥
  no_overlap message w h =
      let same : api ≡ h.api = some_inj.0 (sym routes ∙ h.routes) in
      let (r, made) = assemble_ok sys axum part laws h.config api apart in
      let fails : assemble sys axum part h.config api ≡ err message =
        ap (assemble sys axum part h.config) same ∙ h.panics in
      cc

  set_IsError : (f : Failure) (w : World Tables) → IsReason sys axum part b w f → IsError f
  set_IsError (failed e) w h = tt
  set_IsError (panicked message) w (inl h) = absurd (cc)
  set_IsError (panicked message) w (inr (inl h)) = absurd (cc)
  set_IsError (panicked message) w (inr (inr (inl h))) = absurd (cc)
  set_IsError (panicked message) w (inr (inr (inr h))) = no_overlap message w h

  serve_builder_lem :
      (w : World Tables)
      → Post (λ a v. Unit {0}) (λ f v. IsError f) (serve_builder sys axum part b w)
  unfolding serve_builder serve_servir
  serve_builder_lem w =
      Post-bind _ _ _ _
        (Post-weaken _ (build-IsBuilt sys axum part b w) (λ s v q. q)
          (λ f v q. set_IsError f w q.0))
        (λ s v q. Post-map_error _ _ _ (Post-any _))

module _ {D Router Addr Listener Global Guard : Type 0} (sys : System)
    (axum : Axum D Router Addr Listener) (router_laws : RouterLaws axum)
    (tracing : Tracing Global Guard) (laws : TracingLaws tracing)
    (socket_addr : ℕ → ℕ → ℕ → ℕ → ℕ → Addr) (auth_part : Part D Tables)
    (app_part : Part D ProfileTable) where
  run_server-IsOther :
      (b : ServerBuilder Router Addr) (w : World D)
      → ((v : World Tables)
          → Post (λ a v. Unit {0}) (λ f v. IsError f) (serve_builder sys axum auth_part b v))
      → Post
          (λ a v. Unit {0})
          (λ p v. IsOther p)
          (run_server sys axum tracing socket_addr auth_part app_part b w)
  unfolding run_server
  run_server-IsOther b w serves = Post-map_error server_failed _ w (
      Post-weaken _
        (Post-on_part auth_part (serve_builder sys axum auth_part b) w
          (serves (record { db = auth_part.read w.db; tick = w.tick })))
        (λ a v q. tt) server_other)
    where
      server_other : (f : Failure) (v : World D) → IsError f → IsOther (server_failed f)
      server_other (failed e) v h = tt
      server_other (panicked message) v h = absurd h

  -- The builder is made, and lacks nothing.
  configured_lem :
      (args : Args)
      → (b : ServerBuilder Router Addr) × (configured sys axum tracing socket_addr auth_part
            app_part args
          ≡ ok b)
        × ((v : World Tables)
            → Post (λ a v. Unit {0}) (λ f v. IsError f) (serve_builder sys axum auth_part b v))
  configured_lem args =
      let (api, made) = app_routes_ok sys axum app_part router_laws in
      (
        _,
        and_then_ok _ _ api _ made refl,
        serve_builder_lem sys axum auth_part router_laws _ api _ _ refl
            (app_routes-IsApart sys axum app_part router_laws api made) refl refl,
      )

  open_app-IsOther :
      (args : Args) (w : World D)
      → Post
          (λ a v. Unit {0})
          (λ p v. IsOther p)
          (open_app sys axum tracing socket_addr auth_part app_part args w)
  unfolding open_app
  open_app-IsOther args w =
      Post-bind (λ a v. Unit {0}) _ _ _ (Post-map_error _ _ _ (Post-any _))
        (λ u v q. Post-map_error _ _ _ (Post-any _))

  -- What `main` leaves, by how it ended: where the panic is of a library at its start, the logging before;
  -- else its own logging.
  abbrev pub Ended : Args → Global → Result Panic (Unit {0}) × Global × World D → Type 0
  Ended args g (ok done, g', w) = IsLogging tracing laws args.log_dir "echo-server" g g'
  Ended args g (err (library_panic text), g', w) =
      (laws.installed g' ≡ laws.installed g) × (laws.hook g' ≡ laws.hook g)
  Ended args g (err (builder_panic message), g', w) = ⊥
  Ended args g (err (unexpected message e), g', w) =
      IsLogging tracing laws args.log_dir "echo-server" g g'

  module _ (args : Args) (g : Global) (unset : laws.log_logger g ≡ false) where
    kept_logging :
        (g' : Global) (out : Result Panic (Unit {0}) × World D)
        → IsLogging tracing laws args.log_dir "echo-server" g g'
        → Post (λ a v. Unit {0}) (λ p v. IsOther p) out
        → Ended args g (out.0, g', out.1)
    kept_logging g' (ok done, w) logging p = logging
    kept_logging g' (err (library_panic text), w) logging p = absurd p.holds
    kept_logging g' (err (builder_panic message), w) logging p = absurd p.holds
    kept_logging g' (err (unexpected message e), w) logging p = logging

    opened :
        (g' : Global) (out : Result Panic (Unit {0}) × World D)
        → IsLogging tracing laws args.log_dir "echo-server" g g'
        → Post (λ a v. Unit {0}) (λ p v. IsOther p) out
        → Ended args g (after_open sys axum tracing socket_addr auth_part app_part args g' out)
    opened g' (err x, w) logging p = kept_logging g' (err x, w) logging p
    opened g' (ok done, w) logging p =
        let (b, made, serves) = configured_lem args in
        let out = run_server sys axum tracing socket_addr auth_part app_part b w in
        subst
          (λ r. Ended args g (after_routes sys axum tracing socket_addr auth_part app_part g' w r))
          (sym made)
          (subst (λ g'. Ended args g (out.0, g', out.1)) (sym (logging.stays _))
            (kept_logging g' out logging (run_server-IsOther b w serves)))

    -- However `main` ends, it is not by a panic over something that the builder was not given, nor by one
    -- of axum over the routes. Where it ends by a panic in setting up the logging, the subscriber and the
    -- panic hook are those before; else they are those of `init_logging`, in spite of the builder's call of
    -- `init_tracing`. The crate `log` has no logger at the start of the process; axum, the tracing crates and
    -- the standard library behave as documented.
    pub main-Ended :
        (w : World D) → Ended args g (main sys axum tracing socket_addr auth_part app_part args g w)
    unfolding main
    main-Ended w =
        go (init_logging tracing args.log_dir "echo-server" g)
          (init_logging-Outcome tracing laws args.log_dir "echo-server" g)
      where
        go :
            (out : Result String Guard × Global)
            → Outcome tracing laws args.log_dir "echo-server" g out
            → Ended args g
                (after_logging sys axum tracing socket_addr auth_part app_part args w out)
        go (err text, g') (inl same, hook) = (same, hook)
        go (err text, g') (inr (set, free, left), hook) = absurd (cc)
        go (ok guard, g') logging =
            opened g' (open_app sys axum tracing socket_addr auth_part app_part args w) logging
              (open_app-IsOther args w)
