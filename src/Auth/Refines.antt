-- ===== src/Auth/Refines.antt =====
-- src/auth/core.rs: what issuing and verifying tokens do, as postconditions. Neither touches the
-- tables.
use servir.Prelude.{ℕ, suc, ◌<◌, String, ◌≡◌, refl, ok, eq_of_map_err, arith}
use servir.System.{System}
use servir.System.Actions.{World}
use servir.System.Posts.{Post, Post-pure, Post-call, Post-lift, Post-result}
use servir.Auth.Claims.{TokenKind, Claims, access, refresh}
use servir.Auth.Config.{AuthConfig}
use servir.Auth.Password.{hash_password}
use servir.Auth.Token.{new_claims, issue_access_token, issue_refresh_token, verify_token}
use servir.Db.Schema.{Tables}
use servir.Db.History.{later, Drawn, Drawn-here, Step, Steps, History}
use servir.Db.Refines.{Kept}

module _ (sys : System) {w₀ : World Tables} (w : World Tables) (h : History sys w₀ w) where
  abbrev h₁ : History sys w₀ (later w)
  h₁ = Steps.next h Step.elapsed

  abbrev h₂ : History sys w₀ (later (later w))
  h₂ = Steps.next h₁ Step.elapsed

  -- The token was made for a `jti` of this request, at the time of the call.
  pub record IsIssued (kind : TokenKind) (user_id username : String) (ttl : ℕ)
      (secret token jti : String) (w' : World Tables) : Type 0 where
    pub history : History sys w₀ w'
    pub kept : w'.db ≡ w.db
    pub during : w.tick < w'.tick
    pub drawn : Drawn sys w₀.tick w'.tick jti
    pub encoded :
        sys.jwt_encode (new_claims user_id username (sys.clock w.tick) ttl jti kind) secret
        ≡ ok token

  pub issue_access_token_lem :
      (user_id username : String) (config : AuthConfig)
      → Post
          (λ token w'.
            (jti : String) × IsIssued access user_id username config.access_token_ttl_secs
              config.secret token jti w')
          (Kept sys w h)
          (issue_access_token sys user_id username config w)
  unfolding issue_access_token
  issue_access_token_lem user_id username config = Post-call _ _ _ (
      Post-call _ _ _ (
        Post-result _ _
          (λ token e. (
            sys.uuid (suc w.tick),
            record {
              history = h₂;
              kept = refl;
              during = omega arith;
              drawn = Drawn-here sys h₁;
              encoded = eq_of_map_err _ _ token e;
            },
          ))
          (λ x e. (h₂, refl))))

  pub issue_refresh_token_lem :
      (user_id username : String) (config : AuthConfig)
      → Post
          (λ t.
            IsIssued refresh user_id username config.refresh_token_ttl_secs config.secret t.0 t.1)
          (Kept sys w h)
          (issue_refresh_token sys user_id username config w)
  unfolding issue_refresh_token
  issue_refresh_token_lem user_id username config = Post-call _ _ _ (
      Post-call _ _ _ (
        Post-lift _ _ _
          (λ token e. Post-pure _ _ (record {
            history = h₂;
            kept = refl;
            during = omega arith;
            drawn = Drawn-here sys h₁;
            encoded = eq_of_map_err _ _ token e;
          }))
          (λ x e. (h₂, refl))))

  pub record IsVerified (token secret : String) (claims : Claims) (w' : World Tables) : Type 0 where
    pub history : History sys w₀ w'
    pub next : w' ≡ later w
    pub decoded : sys.jwt_decode token secret (sys.clock w.tick) ≡ ok claims

  pub verify_token_lem :
      (token : String) (config : AuthConfig)
      → Post (IsVerified token config.secret) (Kept sys w h) (verify_token sys token config w)
  unfolding verify_token
  verify_token_lem token config = Post-call _ _ _ (
      Post-result _ _
        (λ claims e. record { history = h₁; next = refl; decoded = eq_of_map_err _ _ claims e })
        (λ x e. (h₁, refl)))

  pub hash_password_lem :
      (plaintext : String)
      → Post
          (λ hash w'.
            Kept sys w h hash w' × (sys.argon2_hash plaintext (sys.salt w.tick) ≡ ok hash))
          (Kept sys w h)
          (hash_password sys plaintext w)
  unfolding hash_password
  hash_password_lem plaintext =
      Post-call _ _ _
        (Post-result _ _ (λ hash e. ((h₁, refl), eq_of_map_err _ _ hash e)) (λ x e. (h₁, refl)))
