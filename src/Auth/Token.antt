-- ===== src/Auth/Token.antt =====
-- src/auth/core.rs: `issue_access_token`, `issue_refresh_token` and `verify_token`. A `usize` has 64
-- bits, and `now + ttl` wraps as it does in a release build.
use servir.Prelude.{ℕ, String, map_err, add_usize}
use servir.System.{System, JwtError, expired_signature, other}
use servir.System.Actions.{Action, pure, lift, call, ◌>>=◌}
use servir.Auth.Claims.{TokenKind, Claims, access, refresh}
use servir.Auth.Config.{AuthConfig}
use servir.Error.Kinds.{ServirError}
use servir.Error.AuthToken

-- The literal `Claims { .. }` of both functions.
abbrev pub new_claims : String → String → ℕ → ℕ → String → TokenKind → Claims
new_claims user_id username now ttl jti kind = record {
  sub = user_id;
  username = username;
  exp = add_usize now ttl;
  iat = now;
  jti = jti;
  kind = kind;
}

-- The `map_err` of `verify_token`.
abbrev pub token_error : JwtError → ServirError
token_error e = elim e.kind [
  | expired_signature ↦ AuthToken.expired
  | other ↦ AuthToken.invalid e.text
]

module _ {D : Type 0} (sys : System) where
  unfoldable pub now_secs : Action D ServirError ℕ
  now_secs = call sys.clock

  unfoldable pub issue_access_token : String → String → AuthConfig → Action D ServirError String
  unfolding now_secs
  issue_access_token user_id username config = do
    now ← now_secs
    jti ← call sys.uuid
    lift (
        map_err AuthToken.encode_failed (
          sys.jwt_encode (new_claims user_id username now config.access_token_ttl_secs jti access)
            config.secret))

  -- The token and its `jti`.
  unfoldable pub issue_refresh_token :
      String → String → AuthConfig → Action D ServirError (String × String)
  unfolding now_secs
  issue_refresh_token user_id username config = do
    now ← now_secs
    jti ← call sys.uuid
    token ← lift (
        map_err AuthToken.encode_failed (
          sys.jwt_encode (new_claims user_id username now config.refresh_token_ttl_secs jti refresh)
            config.secret))
    pure (token, jti)

  -- `decode` reads the clock.
  unfoldable pub verify_token : String → AuthConfig → Action D ServirError Claims
  verify_token token config = do
    now ← call sys.clock
    lift (map_err token_error (sys.jwt_decode token config.secret now))
