-- ===== src/Auth/Service/Restart.antt =====
-- src/db/auth.rs: a server that restarts on the same database signs with the same secret.
use servir.Prelude.{String, ◌≡◌, sym, ◌∙◌, ap, ok, some, List, [], ◌∷◌}
use servir.Sql.{select}
use servir.System.{System}
use servir.System.Actions.{World}
use servir.System.Posts.{Post-ok}
use servir.Auth.Config.{AuthConfig}
use servir.Auth.Service.{Request}
use servir.Auth.Service.Traces.{after, serve-History}
use servir.Db.Schema.{Tables, ConfigRow, key_is}
use servir.Db.Repository.{load_or_generate_secret}
use servir.Db.Secret.{secret_key, config-Steps, load_or_generate_secret_lem}

some_inj : {a b : ConfigRow} → some a ≡ some b → a ≡ b
some_inj h = cc

module _ (sys : System) (config : AuthConfig) where
  after-config :
      (reqs : List Request) (key : String) (r : ConfigRow) (w : World Tables)
      → select (key_is key) w.db.auth_config ≡ some r
      → select (key_is key) (after sys config reqs w).db.auth_config ≡ some r
  after-config [] key r w h = h
  after-config (req ∷ reqs) key r w h =
      after-config reqs key r _ (config-Steps sys key r (serve-History sys w config req) h)

  -- Once the secret was loaded or generated, loading it again after any requests, where it succeeds,
  -- answers the same secret.
  pub secret_survives :
      (w : World Tables) (reqs : List Request) (secret secret' : String)
      → (load_or_generate_secret sys w).0 ≡ ok secret
      → (load_or_generate_secret sys (after sys config reqs (load_or_generate_secret sys w).1)).0
        ≡ ok secret'
      → secret' ≡ secret
  secret_survives w reqs secret secret' e e' =
      let v = after sys config reqs (load_or_generate_secret sys w).1 in
      let d = Post-ok _ secret (load_or_generate_secret_lem sys w) e in
      let d' = Post-ok _ secret' (load_or_generate_secret_lem sys v) e' in
      let (row, there, value) = d.stored in
      let (row', there', value') = d'.stored in
      let kept = after-config reqs secret_key row _ there in
      let still = config-Steps sys secret_key row d'.history kept in
      sym value' ∙ ap (λ r. r.value) (some_inj (sym there' ∙ still)) ∙ value
