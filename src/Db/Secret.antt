-- ===== src/Db/Secret.antt =====
-- src/db/auth.rs: the signing secret is made once, and stays.
use servir.Prelude.{
  ℕ, String, ◌==◌, eq_refl, eq_of_test, ◌≡◌, refl, sym, ◌∙◌, ap, true, false, ok, some, none,
  Option, List, [], ◌∷◌, arith, Result, suc, Option-cases, inl, inr,
}
use servir.Sql.{has, select}
use servir.Sql.Laws.{select-some-has}
use servir.System.{System}
use servir.System.Actions.{World}
use servir.System.Posts.{
  Post, Post-pure, Post-call, Post-bind, Post-map_error, Post-execute, Post-weaken,
}
use servir.Db.Schema.{Tables, ConfigRow, key_is, insert_config}
use servir.Db.Repository.{generate_secret, load_or_generate_secret}
use servir.Db.History.{
  add_config, Step, elapsed, user_added, token_added, token_spent, tokens_revoked, secret_added,
  Steps, here, next, History,
}
use servir.Db.Refines.{Kept, query_lem}

-- The key of the secret.
abbrev pub secret_key : String
secret_key = "signing_secret"

-- `secret` is the stored one.
abbrev pub IsSecret : String → Tables → Type 0
IsSecret secret t =
    (row : ConfigRow) × (select (key_is secret_key) t.auth_config ≡ some row) × (row.value ≡ secret)

insert_config-ok :
    (sys : System) (row : ConfigRow) (t d : Tables) (a : Unit {0})
    → insert_config sys row t ≡ ok (a, d)
    → (d ≡ add_config row t) × (has (key_is row.key) t.auth_config ≡ false)
unfolding insert_config
insert_config-ok sys row t d a h = ground arith

module _ (sys : System) where
  config-Step :
      {base : ℕ} {w v : World Tables} (key : String) (r : ConfigRow)
      → Step sys base w v
      → select (key_is key) w.db.auth_config ≡ some r
      → select (key_is key) v.db.auth_config ≡ some r
  config-Step {w} key r (secret_added row a) e = first (key_is key row) refl
    where
      first :
          (b : servir.Prelude.Bool)
          → key_is key row ≡ b
          → select (key_is key) (row ∷ w.db.auth_config) ≡ some r
      first true h =
          let there = select-some-has (key_is key) w.db.auth_config r e in
          let same = eq_of_test row.key key h in absurd (ground (arith, there, same, a))
      first false h = rw h e
  config-Step key r (user_added row d a b) e = e
  config-Step key r elapsed e = e
  config-Step key r (token_added row d a b) e = e
  config-Step key r (token_spent jti now) e = e
  config-Step key r (tokens_revoked i) e = e

  pub config-Steps :
      {base : ℕ} {w v : World Tables} (key : String) (r : ConfigRow)
      → Steps sys base w v
      → select (key_is key) w.db.auth_config ≡ some r
      → select (key_is key) v.db.auth_config ≡ some r
  config-Steps key r here e = e
  config-Steps key r (next h s) e = config-Step key r s (config-Steps key r h e)

  module _ {w₀ : World Tables} (w : World Tables) (h : History sys w₀ w) where
    -- The tables hold the answered secret, and changed at most by it.
    pub record IsLoaded (secret : String) (w' : World Tables) : Type 0 where
      pub history : History sys w₀ w'
      pub stored : IsSecret secret w'.db
      pub users : w'.db.users ≡ w.db.users
      pub refresh_tokens : w'.db.refresh_tokens ≡ w.db.refresh_tokens

    -- Where there is no secret, one is stored.
    generate_secret_lem : Post IsLoaded (Kept sys w h) (generate_secret sys w)
    unfolding generate_secret
    generate_secret_lem =
        let row : ConfigRow = record {
          key = secret_key;
          value = sys.hex_encode (sys.random_bytes w.tick);
        } in
        Post-call _ _ _ (
          Post-bind (λ a w'. IsLoaded row.value w') _ _ _
            (Post-map_error _ _ _ (
              Post-execute _ _ _
                (λ a d e.
                  let (added, free) = insert_config-ok sys row w.db d a e in
                  record {
                    history =
                        rw added
                          (Steps.next (Steps.next h Step.elapsed) (Step.secret_added row free));
                    stored = rw added (row, refl, refl);
                    users = rw added refl;
                    refresh_tokens = rw added refl;
                  })
                (λ e. (Steps.next (Steps.next h Step.elapsed) Step.elapsed, refl))))
            (λ a w' q. Post-pure _ _ q))

  -- `load_or_generate_secret` that succeeds answers the secret that the tables then hold, and changes
  -- no user and no token; one that fails leaves the tables.
  pub load_or_generate_secret_lem :
      (w : World Tables)
      → Post (IsLoaded w Steps.here) (Kept sys w Steps.here) (load_or_generate_secret sys w)
  unfolding load_or_generate_secret
  load_or_generate_secret_lem w =
      Post-bind _ _ _ _
        (query_lem sys w Steps.here _ (select (key_is secret_key) w.db.auth_config) _ refl)
        (λ existing w₁ ((h₁, kept), answer). elim (Option-cases existing) [
          | inl missing ↦ rw missing (
              Post-weaken _ (generate_secret_lem w₁ h₁)
                (λ s w₂ q. record {
                  history = q.history;
                  stored = q.stored;
                  users = q.users ∙ ap (λ t. t.users) kept;
                  refresh_tokens = q.refresh_tokens ∙ ap (λ t. t.refresh_tokens) kept;
                })
                (λ e w₂ q. (q.0, q.1 ∙ kept)))
          | inr (row, there) ↦ rw there (
              Post-pure _ _ (record {
                history = h₁;
                stored = (
                  row,
                  ap (λ t. select (key_is secret_key) t.auth_config) kept ∙ sym answer ∙ there,
                  refl,
                );
                users = ap (λ t. t.users) kept;
                refresh_tokens = ap (λ t. t.refresh_tokens) kept;
              }))
        ])
