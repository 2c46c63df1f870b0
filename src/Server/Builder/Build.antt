-- ===== src/Server/Builder/Build.antt =====
-- src/server.rs: what `build` makes, when it panics, and what it leaves in the database.
use mathlib.Core.Path.{subst}
use servir.Prelude.{
  String, sym, ok, err, map_err, map_err-err, eq_of_map_err, ◌≡◌, refl, ◌∙◌, ap, none, some, ◌⊎◌,
  inl, inr,
}
use servir.System.{System}
use servir.System.Parts.{Part}
use servir.System.Actions.{World, Action, map_error}
use servir.System.Posts.{
  Post, Post-pure, Post-bind, Post-or_fail, Post-map_error, Post-weaken, Post-lift,
}
use servir.Error.Kinds.{ServirError}
use servir.Auth.Config.{AuthConfig, set_secret}
use servir.Db.Schema.{Tables}
use servir.Db.History.{History, Steps}
use servir.Db.Connection.{connect, migrate_auth}
use servir.Db.Refines.{Kept, query_lem}
use servir.Db.Secret.{IsSecret, load_or_generate_secret_lem}
use servir.Server.Axum.{Axum}
use servir.Server.Builder.{
  Failure, failed, panicked, Servir, ServerBuilder, ttl_config, assemble, build,
}

module _ (sys : System) {w₀ : World Tables} (w : World Tables) (h : History sys w₀ w) where
  migrate_auth_lem : Post (Kept sys w h) (Kept sys w h) (migrate_auth sys w)
  unfolding migrate_auth
  migrate_auth_lem = Post-weaken _ (query_lem sys w h _ tt _ refl) (λ a w' q. q.0) (λ e w' q. q)

  connect_lem : (url : String) → Post (Kept sys w h) (Kept sys w h) (connect sys url w)
  unfolding connect
  connect_lem url =
      Post-lift _ _ _
        (λ u parsed. Post-weaken _ (query_lem sys w h _ tt _ refl) (λ a w' q. q.0) (λ e w' q. q))
        (λ e broken. (h, refl))

module _ {D Router Addr Listener : Type 0} (sys : System) (axum : Axum D Router Addr Listener)
    (part : Part D Tables) (b : ServerBuilder Router Addr) (w : World Tables) where
  -- No user and no refresh token changed.
  abbrev pub SameSessions : World Tables → Type 0
  SameSessions w' = (w'.db.users ≡ w.db.users) × (w'.db.refresh_tokens ≡ w.db.refresh_tokens)

  -- A server whose routes and whose layer have one configuration: the given or default lifetimes, and
  -- the stored secret.
  pub record IsBuilt (s : Servir Router Addr) (w' : World Tables) : Type 0 where
    pub api : Router
    pub routes : b.routes ≡ some api
    pub secret : String
    pub stored : IsSecret secret w'.db
    pub router : assemble sys axum part (set_secret secret (ttl_config b)) api ≡ ok s.router
    pub addr : b.addr ≡ some s.addr
    pub same : SameSessions w'

  -- axum panics over the routes of the application and the program's.
  pub record IsOverlap (message : String) : Type 0 where
    pub api : Router
    pub routes : b.routes ≡ some api
    pub config : AuthConfig
    pub panics : assemble sys axum part config api ≡ err message

  -- The reason of a panic: what was not set, or what overlaps.
  abbrev pub IsReason : Failure → Type 0
  IsReason (failed e) = Unit {0}
  IsReason (panicked message) =
      (b.routes ≡ none) ⊎ (b.auth_database_url ≡ none) ⊎ (b.addr ≡ none) ⊎ IsOverlap message

  same : (w' : World Tables) → w'.db ≡ w.db → SameSessions w'
  same w' e = (ap (λ t. t.users) e, ap (λ t. t.refresh_tokens) e)

  abbrev pub BuildFails : Failure → World Tables → Type 0
  BuildFails f w' = IsReason f × SameSessions w'

  -- A panic of axum.
  overlapping :
      (config : AuthConfig) (api : Router)
      → b.routes ≡ some api
      → (f : Failure) (w' : World Tables) → SameSessions w'
      → map_err panicked (assemble sys axum part config api) ≡ err f
      → BuildFails f w'
  overlapping config api routes f w' same' broken =
      let (message, panics, is) = map_err-err panicked _ f broken in
      subst (λ f. BuildFails f w') (sym is)
        (
          inr (inr (inr (record { api = api; routes = routes; config = config; panics = panics }))),
          same',
        )

  -- A step that fails with an error, and leaves the tables.
  leaving :
      (v : World Tables) (h : History sys w v) (m : Action Tables ServirError (Unit {0}))
      → v.db ≡ w.db
      → Post (Kept sys v h) (Kept sys v h) (m v)
      → Post (Kept sys v h) BuildFails (map_error failed m v)
  leaving v h m e p =
      Post-map_error _ _ _ (Post-weaken _ p (λ a w' q. q) (λ x w' q. (tt, same w' (q.1 ∙ e))))

  pub build-IsBuilt : Post IsBuilt BuildFails (build sys axum part b w)
  unfolding build
  build-IsBuilt =
      Post-or_fail _ _ _ _
        (λ api routes.
          Post-or_fail _ _ _ _
            (λ url set.
              Post-bind _ _ _ _ (leaving w Steps.here _ refl (connect_lem sys w Steps.here url))
                (λ u w₁ (h₁, kept₁).
                  Post-bind _ _ _ _ (leaving w₁ h₁ _ kept₁ (migrate_auth_lem sys w₁ h₁))
                    (λ u' w₂ (h₂, kept₂).
                      Post-bind _ _ _ _
                        (Post-map_error _ _ _ (
                          Post-weaken _ (load_or_generate_secret_lem sys w₂) (λ s w₃ q. q)
                            (λ e w₃ q. (tt, same w₃ (q.1 ∙ kept₂ ∙ kept₁)))))
                        (λ secret w₃ q.
                          let same₃ : SameSessions w₃ = (
                            q.users ∙ ap (λ t. t.users) (kept₂ ∙ kept₁),
                            q.refresh_tokens ∙ ap (λ t. t.refresh_tokens) (kept₂ ∙ kept₁),
                          ) in
                          Post-lift _ _ _
                            (λ router made.
                              Post-or_fail _ _ _ _
                                (λ address given. Post-pure _ _ (record {
                                  api = api;
                                  routes = routes;
                                  secret = secret;
                                  stored = q.stored;
                                  router = eq_of_map_err panicked _ _ made;
                                  addr = given;
                                  same = same₃;
                                }))
                                (λ missing. (inr (inr (inl missing)), same₃)))
                            (λ f broken. overlapping _ api routes f w₃ same₃ broken)))))
            (λ missing. (inr (inl missing), (refl, refl))))
        (λ missing. (inl missing, (refl, refl)))
