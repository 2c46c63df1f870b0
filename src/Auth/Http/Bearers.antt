-- ===== src/Auth/Http/Bearers.antt =====
-- src/auth/http.rs: what the tokens that a handler answered are good for at the extractor.
use servir.Prelude.{
  ℕ, ◌+◌, ◌≤◌, ◌<◌, String, ◌≡◌, ◌≢◌, refl, sym, ◌∙◌, ap, Result, ok, err, add_usize,
  add_usize-small, add_usize-wraps, u64_mod, arith, ltb, Bool-cases, inl, inr, ltb→lt, ltb→ge,
}
use servir.System.{System}
use servir.System.Laws.{leeway, ClockLaws, JwtLaws}
use servir.System.Actions.{World}
use servir.System.Posts.{Post-ok}
use servir.Error.Kinds.{ServirError}
use servir.Response.{ApiResponse, ok_data}
use servir.Auth.Claims.{access, refresh as refresh_kind}
use servir.Auth.Config.{AuthConfig}
use servir.Auth.Token.{new_claims}
use servir.Auth.Extractor.Rejections.{bearer, me-of_access, me-of_refresh, me-of_error}
use servir.Auth.Http.{RegisterRequest, LoginRequest, TokenResponse, MeResponse, register, login, me}
use servir.Auth.Http.Sessions.{IsSession}
use servir.Auth.Http.Register.{register-IsRegistered}
use servir.Auth.Http.Login.{login-IsLoggedIn}
use servir.Db.Schema.{Tables}
use servir.Db.Repository.{User}

tokens_inj :
    {a b : TokenResponse} → ◌≡◌ {A = ApiResponse TokenResponse} (ok_data a) (ok_data b) → a ≡ b
tokens_inj h = cc

ok_err :
    {a : ApiResponse MeResponse} {x : ServirError}
    → ◌≢◌ {A = Result ServirError (ApiResponse MeResponse)} (ok a) (err x)
ok_err h = cc

module _ (sys : System) (config : AuthConfig) (jwt : JwtLaws sys) {D : Type 0} (v : World D) where
  module _ {w w' : World Tables} {t : Tables} {user : User} (tokens : TokenResponse)
      (s : IsSession sys config w t user (ok_data tokens) w') where
    session-me :
        sys.clock v.tick ≤ add_usize (sys.clock s.access_at) config.access_token_ttl_secs + leeway
        → (me sys (bearer config tokens.access_token) v).0
          ≡ ok (ok_data (record { user_id = user.id; username = user.username }))
    session-me h =
        let same = tokens_inj s.answer in
        let c =
          new_claims user.id user.username (sys.clock s.access_at) config.access_token_ttl_secs
            s.access_jti access in
        me-of_access sys config v tokens.access_token c
          (jwt.decode_valid c config.secret tokens.access_token (sys.clock v.tick)
            (rw (← same) at s.access_token) h)
          refl

    session-not_me :
        (m : ApiResponse MeResponse) → (me sys (bearer config tokens.refresh_token) v).0 ≢ ok m
    session-not_me m e =
        let same = tokens_inj s.answer in
        let c =
          new_claims user.id user.username (sys.clock s.refresh_at) config.refresh_token_ttl_secs
            s.row.jti refresh_kind in
        let now = sys.clock v.tick in
        let encoded : sys.jwt_encode c config.secret ≡ ok tokens.refresh_token =
          rw (← same) at s.refresh_token in
        elim (Bool-cases (ltb (c.exp + leeway) now)) [
          | inl late ↦
              let (x, broken, kind_is) =
                jwt.decode_expired c config.secret tokens.refresh_token now encoded
                  (ltb→lt _ _ late) in
              ok_err (sym e ∙ me-of_error sys config v tokens.refresh_token x broken)
          | inr valid ↦ ok_err (
              sym e
              ∙ me-of_refresh sys config v tokens.refresh_token c
                  (jwt.decode_valid c config.secret tokens.refresh_token now encoded
                    (ltb→ge _ _ valid))
                  refl)
        ]

    session-expired :
        (k : ℕ)
        → config.access_token_ttl_secs + k ≡ u64_mod
        → leeway < k
        → k ≤ sys.clock s.access_at
        → sys.clock s.access_at < u64_mod
        → sys.clock s.access_at ≤ sys.clock v.tick
        → (m : ApiResponse MeResponse) → (me sys (bearer config tokens.access_token) v).0 ≢ ok m
    session-expired k short beyond small fits later m e =
        let same = tokens_inj s.answer in
        let at = sys.clock s.access_at in
        let c =
          new_claims user.id user.username at config.access_token_ttl_secs s.access_jti access in
        let wraps = add_usize-wraps at config.access_token_ttl_secs k short small fits in
        let (x, broken, kind_is) =
          jwt.decode_expired c config.secret tokens.access_token (sys.clock v.tick)
            (rw (← same) at s.access_token) (omega (arith, wraps, beyond, later)) in
        ok_err (sym e ∙ me-of_error sys config v tokens.access_token x broken)

  -- Whoever registers is told his name by `me` with the access token that he was answered, at every
  -- later time up to its lifetime after the start of the request, as long as the expiry fits the
  -- machine word.
  pub register-me :
      ClockLaws sys
      → (w : World Tables) (body : RegisterRequest) (tokens : TokenResponse)
      → (register sys config body w).0 ≡ ok (ok_data tokens)
      → sys.clock (register sys config body w).1.tick + config.access_token_ttl_secs < u64_mod
      → sys.clock v.tick ≤ sys.clock w.tick + config.access_token_ttl_secs + leeway
      → (id : String) × ((me sys (bearer config tokens.access_token) v).0
          ≡ ok (ok_data (record { user_id = id; username = body.username })))
  register-me clocks w body tokens e fits h =
      let d = Post-ok _ (ok_data tokens) (register-IsRegistered sys config w body) e in
      let s = d.session in
      let early = clocks.monotone w.tick s.access_at s.since in
      let late =
        clocks.monotone s.access_at (register sys config body w).1.tick
          (omega (arith, s.refresh_since, s.stored_since, s.before)) in
      let fit =
        add_usize-small (sys.clock s.access_at) config.access_token_ttl_secs
          (omega (arith, late, fits)) in
      let answer = session-me tokens s (rw (fit) (omega (arith, early, h))) in
      (
        d.row.id,
        answer ∙ ap (λ n. ok (ok_data (record { user_id = d.row.id; username = n }))) d.name,
      )

  -- The refresh token that a login answers is no bearer token: `me` never accepts it, at any time.
  pub login-refresh_token_not_me :
      (w : World Tables) (body : LoginRequest) (tokens : TokenResponse) (m : ApiResponse MeResponse)
      → (login sys config body w).0 ≡ ok (ok_data tokens)
      → (me sys (bearer config tokens.refresh_token) v).0 ≢ ok m
  login-refresh_token_not_me w body tokens m e =
      session-not_me tokens
        (Post-ok _ (ok_data tokens) (login-IsLoggedIn sys config w body) e).session m

  -- Where the lifetime of access tokens falls `k` seconds short of 2^64, with `k` above the leeway and
  -- below the time, the access token that a registration answers is expired from the start: `me` never
  -- accepts it at a later time. The clock does not run backwards and fits 64 bits.
  pub register-access_token_wraps :
      ClockLaws sys
      → (w : World Tables) (body : RegisterRequest) (tokens : TokenResponse) (k : ℕ)
      → (m : ApiResponse MeResponse) → (register sys config body w).0 ≡ ok (ok_data tokens)
      → config.access_token_ttl_secs + k ≡ u64_mod
      → leeway < k
      → k ≤ sys.clock w.tick
      → sys.clock (register sys config body w).1.tick ≤ sys.clock v.tick
      → sys.clock v.tick < u64_mod
      → (me sys (bearer config tokens.access_token) v).0 ≢ ok m
  register-access_token_wraps clocks w body tokens k m e short beyond small later fits =
      let s = (Post-ok _ (ok_data tokens) (register-IsRegistered sys config w body) e).session in
      let early = clocks.monotone w.tick s.access_at s.since in
      let late =
        clocks.monotone s.access_at (register sys config body w).1.tick
          (omega (arith, s.refresh_since, s.stored_since, s.before)) in
      session-expired tokens s k short beyond (omega (arith, early, small))
        (omega (arith, late, later, fits)) (omega (arith, late, later)) m
