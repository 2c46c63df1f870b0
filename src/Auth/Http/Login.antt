-- ===== src/Auth/Http/Login.antt =====
-- src/auth/http.rs: what `login` and `logout` do to the tables and answer, on success and on error, for
-- every fault of the database.
use servir.Prelude.{map-eq-some, true_of_not, String, ◌≡◌, sym, ◌∙◌, ap, true, some, ok}
use servir.Sql.{select}
use servir.System.{System}
use servir.System.Actions.{World}
use servir.System.Posts.{
  Post, Post-pure, Post-bind, Post-fail_if, Post-or_fail, Post-lift, Post-weaken,
}
use servir.Response.{ApiResponse}
use servir.Auth.Claims.{TokenKind, Claims, refresh as refresh_kind, kind_of_not}
use servir.Auth.Config.{AuthConfig}
use servir.Auth.Password.{verify_password}
use servir.Auth.Refines.{verify_token_lem}
use servir.Auth.Http.{LoginRequest, LogoutRequest, TokenResponse, login, logout}
use servir.Auth.Http.Sessions.{IsSession, issue_tokens_lem}
use servir.Db.Schema.{Tables, UserRow, username_is}
use servir.Db.Repository.{from_row}
use servir.Db.History.{revoke, Steps, History}
use servir.Db.Refines.{Post-kept, find_user_by_username_lem}
use servir.Db.Refines.Tokens.{delete_refresh_tokens_for_user_lem}

module _ (sys : System) (config : AuthConfig) (w : World Tables) where
  -- A login that succeeded: the password is that of the row with the name.
  pub record IsLoggedIn (body : LoginRequest) (r : ApiResponse TokenResponse) (w' : World Tables)
      : Type 0 where
    pub row : UserRow
    pub found : select (username_is body.username) w.db.users ≡ some row
    pub matches : verify_password sys body.password row.password_hash ≡ ok true
    pub session : IsSession sys config w w.db (from_row row) r w'

  -- A request that failed and changed nothing.
  abbrev pub Unchanged : {E : Type 0} → E → World Tables → Type 0
  Unchanged e w' = History sys w w' × (w'.db ≡ w.db)

  -- A login that succeeds found a row with the name, whose hash accepts the password, and opens a
  -- session of that user, which is its only change of the tables; one that fails changes nothing. No
  -- step is taken that the history does not allow, whatever the faults of the database.
  pub login-IsLoggedIn :
      (body : LoginRequest) → Post (IsLoggedIn body) Unchanged (login sys config body w)
  unfolding login
  login-IsLoggedIn body =
      Post-bind _ _ _ _ (find_user_by_username_lem sys w Steps.here body.username)
        (λ found w₁ ((h₁, kept), answer).
          Post-or_fail _ _ _ _
            (λ user is_user.
              let (row, selected, same) = map-eq-some from_row _ user (sym answer ∙ is_user) in
              Post-lift _ _ _
                (λ matches verified.
                  Post-fail_if _ _ _ _
                    (λ right. rw same (
                      Post-weaken _
                        (Post-kept sys w₁ w.db _ kept
                          (issue_tokens_lem sys config (from_row row) w₁ h₁))
                        (λ r w₂ s. record {
                          row = row;
                          found = selected;
                          matches = rw same at verified ∙ ap ok (true_of_not matches right);
                          session = rw kept at s;
                        })
                        (λ e w₂ q. q)))
                    (λ wrong. (h₁, kept)))
                (λ e broken. (h₁, kept)))
            (λ missing. (h₁, kept)))

  -- The token decodes now to claims of this kind.
  pub record IsAccepted (kind : TokenKind) (token : String) (claims : Claims) : Type 0 where
    pub decoded : sys.jwt_decode token config.secret (sys.clock w.tick) ≡ ok claims
    pub kind_is : claims.kind ≡ kind

  -- A logout that succeeded: all the tokens of the user that the token names were deleted.
  abbrev pub IsLoggedOut : LogoutRequest → ApiResponse (Unit {0}) → World Tables → Type 0
  IsLoggedOut body r w' =
      (claims : Claims) × IsAccepted refresh_kind body.refresh_token claims
      × History sys w w'
      × (w'.db ≡ revoke claims.sub w.db)

  -- A logout that succeeds was sent a token that decodes at the time of the call to claims of a
  -- refresh token, and deletes exactly the tokens of the user that the claims name; one that fails
  -- changes nothing. No other step is taken, whatever the faults of the database.
  pub logout-IsLoggedOut :
      (body : LogoutRequest) → Post (IsLoggedOut body) Unchanged (logout sys config body w)
  unfolding logout
  logout-IsLoggedOut body =
      Post-bind _ _ _ _ (verify_token_lem sys w Steps.here body.refresh_token config)
        (λ claims w₁ v.
          Post-fail_if _ _ _ _
            (λ right.
              Post-bind _ _ _ _
                (Post-kept sys w₁ w.db _ (ap (λ u. u.db) v.next)
                  (delete_refresh_tokens_for_user_lem sys w₁ v.history claims.sub))
                (λ u w₂ q. Post-pure _ _ (
                  claims,
                  record {
                    decoded = v.decoded;
                    kind_is = kind_of_not claims.kind refresh_kind right;
                  },
                  q.0,
                  q.1 ∙ ap (λ u. revoke claims.sub u.db) v.next,
                )))
            (λ wrong. (v.history, ap (λ u. u.db) v.next)))
