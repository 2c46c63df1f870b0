-- ===== src/Auth/Extractor/Rejections.antt =====
-- src/auth/http.rs: what the extractor `AuthUser` lets through, and with which status it rejects.
use servir.Prelude.{
  ℕ, String, append, strip_prefix-append, ◌≡◌, refl, sym, ◌∙◌, ap, Option, none, some, Result, ok,
  err, map_err, arith,
}
use servir.System.{System, JwtError, JwtErrorKind, expired_signature, other}
use servir.System.Actions.{World, call, lift, or_fail, fail_if, pure, ◌>>=◌}
use servir.Response.{ok_data}
use servir.Auth.Http.{me}
use servir.System.Posts.{
  Post, Post-pure, Post-call, Post-bind, Post-result, Post-fail_if, Post-or_fail,
}
use servir.Error.Kinds.{ServirError}
use servir.Error.Servir
use servir.Error.AuthToken
use servir.Auth.Claims.{Claims, access, refresh, kind_of_not}
use servir.Auth.Config.{AuthConfig}
use servir.Auth.Token.{token_error, verify_token}
use servir.Auth.Extractor.{Parts, text, bearer_token, auth_user}

token_error_status : (e : JwtError) → Servir.status_code (token_error e) ≡ 401
token_error_status e = go e.kind
  where
    go : (k : JwtErrorKind) → Servir.status_code (token_error (record e { kind = k })) ≡ 401
    go expired_signature = refl
    go other = refl

-- The status of a rejection: 500 where the layer is absent, and 401 otherwise.
abbrev pub rejection_status : Option AuthConfig → ℕ
rejection_status none = 500
rejection_status (some config) = 401

map_err-cases :
    (r : Result JwtError Claims) (e : ServirError)
    → map_err token_error r ≡ err e
    → Servir.status_code e ≡ 401
map_err-cases (ok c) e h = cc
map_err-cases (err x) e h = ap status_of (sym h) ∙ token_error_status x
  where
    status_of : Result ServirError Claims → ℕ
    status_of (ok c) = 0
    status_of (err e) = Servir.status_code e

eq_of_map_err : (r : Result JwtError Claims) (c : Claims) → map_err token_error r ≡ ok c → r ≡ ok c
eq_of_map_err (ok d) c h = cc
eq_of_map_err (err x) c h = cc

module _ {D : Type 0} (sys : System) (parts : Parts) (w : World D) where
  pub record IsLetIn (claims : Claims) (w' : World D) : Type 0 where
    pub config : AuthConfig
    pub layer : parts.extension ≡ some config
    pub token : String
    pub bearer : bearer_token parts ≡ some token
    pub decoded : sys.jwt_decode token config.secret (sys.clock w.tick) ≡ ok claims
    pub kind_is : claims.kind ≡ access
    pub kept : w'.db ≡ w.db

  abbrev pub IsRejected : ServirError → World D → Type 0
  IsRejected e w' = (Servir.status_code e ≡ rejection_status parts.extension) × (w'.db ≡ w.db)

  -- `auth_user` lets a request through with the claims of its bearer token only, which decodes under
  -- the layer's secret at the time of the call and is an access token; it rejects any other, with 500
  -- where the layer is absent and with 401 where it is not. The tables stay as they are.
  pub auth_user-IsLetIn : Post IsLetIn IsRejected (auth_user sys parts w)
  unfolding auth_user verify_token
  auth_user-IsLetIn =
      Post-or_fail _ _ _ _
        (λ config layer.
          Post-or_fail _ _ _ _
            (λ token bearer.
              Post-bind
                (λ c w'.
                  (sys.jwt_decode token config.secret (sys.clock w.tick) ≡ ok c) × (w'.db ≡ w.db))
                _ _ _
                (Post-call _ _ _ (
                  Post-result _ _ (λ c e. (eq_of_map_err _ c e, refl))
                    (λ x e. (map_err-cases _ x e ∙ rw layer refl, refl))))
                (λ claims w' (decoded, kept).
                  Post-fail_if _ _ _ _
                    (λ right. Post-pure _ _ (record {
                      config = config;
                      layer = layer;
                      token = token;
                      bearer = bearer;
                      decoded = decoded;
                      kind_is = kind_of_not claims.kind access right;
                      kept = kept;
                    }))
                    (λ wrong. (rw layer refl, kept))))
            (λ missing. (rw layer refl, refl)))
        (λ missing. (rw missing refl, refl))

-- A request with the header `Authorization: Bearer <token>`, behind the layer.
abbrev pub bearer : AuthConfig → String → Parts
bearer layer token = record {
  extension = some layer;
  authorization = some (text (append "Bearer " token));
}

module _ {D : Type 0} (sys : System) (layer : AuthConfig) (w : World D) where
  bearer_token-bearer : (token : String) → bearer_token (bearer layer token) ≡ some token
  unfolding bearer_token
  bearer_token-bearer token = strip_prefix-append "Bearer " token

  -- A token that decodes to claims of an access token gets `me` the claims' user.
  pub me-of_access :
      (token : String) (c : Claims)
      → sys.jwt_decode token layer.secret (sys.clock w.tick) ≡ ok c
      → c.kind ≡ access
      → (me sys (bearer layer token) w).0
        ≡ ok (ok_data (record { user_id = c.sub; username = c.username }))
  unfolding me auth_user verify_token ◌>>=◌ call lift or_fail fail_if pure
  me-of_access token c decoded kind_is = ground (arith, bearer_token-bearer token)

  -- A token that decodes to claims of a refresh token is rejected as of the wrong kind.
  pub me-of_refresh :
      (token : String) (c : Claims)
      → sys.jwt_decode token layer.secret (sys.clock w.tick) ≡ ok c
      → c.kind ≡ refresh
      → (me sys (bearer layer token) w).0 ≡ err AuthToken.wrong_kind
  unfolding me auth_user verify_token ◌>>=◌ call lift or_fail fail_if pure
  me-of_refresh token c decoded kind_is = ground (arith, bearer_token-bearer token)

  -- One that does not decode is rejected.
  pub me-of_error :
      (token : String) (x : JwtError)
      → sys.jwt_decode token layer.secret (sys.clock w.tick) ≡ err x
      → (me sys (bearer layer token) w).0 ≡ err (token_error x)
  unfolding me auth_user verify_token ◌>>=◌ call lift or_fail fail_if pure
  me-of_error token x broken = ground (arith, bearer_token-bearer token)
