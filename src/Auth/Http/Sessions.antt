-- ===== src/Auth/Http/Sessions.antt =====
-- src/auth/http.rs: what each handler does to the tables and answers, on success and on error, for
-- every fault of the database.
use servir.Prelude.{
  ℕ, ◌<◌, ◌≤◌, String, ◌≡◌, refl, ◌∙◌, ap, true, false, ok, as_i64, add_i64, arith,
}
use servir.Sql.{has}
use servir.System.{System}
use servir.System.Actions.{World}
use servir.System.Posts.{Post, Post-pure, Post-bind}
use servir.Response.{ApiResponse, ok_data}
use servir.Auth.Claims.{TokenKind, access, refresh as refresh_kind}
use servir.Auth.Config.{AuthConfig}
use servir.Auth.Token.{new_claims}
use servir.Auth.Refines.{IsIssued, issue_access_token_lem, issue_refresh_token_lem}
use servir.Auth.Http.{TokenResponse, issue_tokens}
use servir.Db.Schema.{Tables, TokenRow, user_id_is, jti_is}
use servir.Db.Repository.{User}
use servir.Db.History.{add_token, Drawn, Drawn-later, History, Steps-tick}
use servir.Db.Refines.{Kept, Post-kept}
use servir.Db.Refines.Tokens.{IsStored, store_refresh_token_lem}

module _ (sys : System) (config : AuthConfig) where
  -- `token` carries claims of this user, kind and lifetime, made at `now`.
  abbrev pub Carries : TokenKind → User → ℕ → ℕ → String → String → Type 0
  Carries kind user ttl now jti token =
      sys.jwt_encode (new_claims user.id user.username now ttl jti kind) config.secret ≡ ok token

  -- A new session of `user`: the two tokens that are answered, and the row of the refresh token, which
  -- is the only change of the tables.
  pub record IsSession (w₀ : World Tables) (t : Tables) (user : User)
      (r : ApiResponse TokenResponse) (w' : World Tables) : Type 0 where
    pub history : History sys w₀ w'
    pub tokens : TokenResponse
    pub answer : r ≡ ok_data tokens
    pub access_at : ℕ
    pub access_jti : String
    pub access_token :
        Carries access user config.access_token_ttl_secs
          (sys.clock access_at)
          access_jti
          tokens.access_token
    pub refresh_at : ℕ
    pub row : TokenRow
    pub refresh_token :
        Carries refresh_kind user config.refresh_token_ttl_secs
          (sys.clock refresh_at)
          row.jti
          tokens.refresh_token
    pub drawn : Drawn sys w₀.tick w'.tick row.jti
    pub owner : row.user_id ≡ user.id
    pub known : has (user_id_is user.id) t.users ≡ true
    pub unused : has (jti_is row.jti) t.refresh_tokens ≡ false
    pub stored_at : ℕ
    -- The clock was read for the access token, the refresh token and the row, in this order.
    pub since : w₀.tick ≤ access_at
    pub refresh_since : access_at < refresh_at
    pub stored_since : refresh_at < stored_at
    pub before : stored_at < w'.tick
    pub expires :
        row.expires_at
        ≡ add_i64 (as_i64 (sys.clock stored_at)) (as_i64 config.refresh_token_ttl_secs)
    pub added : w'.db ≡ add_token row t

  module _ {w₀ : World Tables} where
    -- The parts of a session, put together.
    opened :
        (user : User) (w : World Tables) (h : History sys w₀ w) (access_token jti₁ : String)
        (w₁ : World Tables)
        (a : IsIssued sys w h access user.id user.username config.access_token_ttl_secs
          config.secret access_token jti₁ w₁)
        (t : String × String) (w₂ : World Tables)
        (b : IsIssued sys w₁ a.history refresh_kind user.id user.username
          config.refresh_token_ttl_secs config.secret t.0 t.1 w₂)
        (w₃ : World Tables)
        → IsStored sys w₂ b.history t.1 user.id config.refresh_token_ttl_secs tt w₃
        → IsSession w₀ w.db user
            (ok_data
              (record { access_token = access_token; refresh_token = t.0; token_type = "Bearer" }))
            w₃
    opened user w h access_token jti₁ w₁ a t w₂ b w₃ c = record {
      history = c.history;
      tokens = record { access_token = access_token; refresh_token = t.0; token_type = "Bearer" };
      answer = refl;
      access_at = w.tick;
      access_jti = jti₁;
      access_token = a.encoded;
      refresh_at = w₁.tick;
      row = c.row;
      refresh_token = rw c.same_jti b.encoded;
      drawn = rw c.same_jti (Drawn-later sys (omega (arith, c.during)) b.drawn);
      owner = c.owner;
      known = rw (← a.kept, ← b.kept) c.known;
      unused = rw (c.same_jti, ← a.kept, ← b.kept) c.unused;
      stored_at = w₂.tick;
      since = Steps-tick sys h;
      refresh_since = omega (arith, a.during);
      stored_since = omega (arith, b.during);
      before = c.during;
      expires = c.expires;
      added = c.added ∙ ap (add_token c.row) (b.kept ∙ a.kept);
    }

    pub issue_tokens_lem :
        (user : User) (w : World Tables) (h : History sys w₀ w)
        → Post (IsSession w₀ w.db user) (Kept sys w h) (issue_tokens sys config user w)
    unfolding issue_tokens
    issue_tokens_lem user w h =
        Post-bind _ _ _ _ (issue_access_token_lem sys w h user.id user.username config)
          (λ access_token w₁ (jti₁, a).
            Post-bind _ _ _ _
              (Post-kept sys w₁ w.db _ a.kept
                (issue_refresh_token_lem sys w₁ a.history user.id user.username config))
              (λ t w₂ b.
                Post-bind _ _ _ _
                  (Post-kept sys w₂ w.db _ (b.kept ∙ a.kept) (
                    store_refresh_token_lem sys w₂ b.history t.1 user.id user.username
                      config.refresh_token_ttl_secs b.drawn))
                  (λ u w₃ c. Post-pure _ _ (opened user w h access_token jti₁ w₁ a t w₂ b w₃ c))))
