-- ===== src/Auth/Service/Credentials.antt =====
-- Users and their passwords over sequences of requests.
use servir.Prelude.{
  String, ◌==◌, eq_refl, ◌≡◌, ◌≢◌, sym, ◌∙◌, ap, Bool, true, false, Result, ok, List, some,
  if◌then◌else◌,
}
use mathlib.Core.Path.{subst}
use servir.Sql.{has, select}
use servir.Sql.Laws.{select-some-has}
use servir.System.{System}
use servir.System.Laws.{Argon2Laws}
use servir.System.Actions.{World}
use servir.System.Posts.{Post-ok}
use servir.Response.{ApiResponse}
use servir.Auth.Config.{AuthConfig}
use servir.Auth.Password.{verify_password}
use servir.Auth.Http.{RegisterRequest, LoginRequest, TokenResponse, register, login}
use servir.Auth.Http.Register.{IsRegistered, register-IsRegistered}
use servir.Auth.Http.Login.{login-IsLoggedIn}
use servir.Auth.Service.{Request}
use servir.Auth.Service.Traces.{after, after-user_by_name}
use servir.Error.Kinds.{ServirError}
use servir.Db.Schema.{Tables, UserRow, username_is}

true_false : ◌≢◌ {A = Bool} true false
true_false h = cc

-- A password that a hash accepts is the one that was hashed.
verified_password :
    (sys : System)
    → Argon2Laws sys
    → (p q salt h : String) → sys.argon2_hash p salt ≡ ok h
    → verify_password sys q h ≡ ok true
    → q ≡ p
unfolding verify_password
verified_password sys laws p q salt h hashed e =
    laws.rejects p q salt h hashed (ok_true (rw (laws.parses p salt h hashed) at e))
  where
    ok_true : {b : Bool} → ◌≡◌ {A = Result ServirError Bool} (ok b) (ok true) → b ≡ true
    ok_true h = cc

some_inj : {a b : UserRow} → some a ≡ some b → a ≡ b
some_inj h = cc

module _ (sys : System) (config : AuthConfig) (w : World Tables) (body : RegisterRequest)
    (r : ApiResponse TokenResponse) (e : (register sys config body w).0 ≡ ok r) where
  abbrev pub registered : IsRegistered sys config w body r (register sys config body w).1
  registered = Post-ok _ r (register-IsRegistered sys config w body) e

  -- The row of a registered name is found after any further requests.
  pub registered_row :
      (reqs : List Request)
      → select
          (username_is body.username)
          (after sys config reqs (register sys config body w).1).db.users
        ≡ some registered.row
  registered_row reqs = after-user_by_name sys config reqs body.username registered.row _ (
      ap (λ t. select (username_is body.username) t.users) registered.session.added
      ∙ first (registered.row.username == body.username)
          (rw registered.name (eq_refl body.username)))
    where
      first :
          (b : Bool)
          → b ≡ true
          → (if b then some registered.row else select (username_is body.username) w.db.users)
            ≡ some registered.row
      first b h = rw h

  -- Once a name is registered, no login under it with another password succeeds, after any further
  -- requests.
  pub registered_password_only :
      Argon2Laws sys
      → (reqs : List Request) (body' : LoginRequest) (r' : ApiResponse TokenResponse)
      → body'.username ≡ body.username
      → body'.password ≢ body.password
      → (login sys config body' (after sys config reqs (register sys config body w).1)).0 ≢ ok r'
  registered_password_only laws reqs body' r' same other e' =
      let d' = Post-ok _ r' (login-IsLoggedIn sys config _ body') e' in
      let rows = (after sys config reqs (register sys config body w).1).db.users in
      let found = subst (λ n. select (username_is n) rows ≡ some d'.row) same d'.found in
      let same_row : registered.row ≡ d'.row = some_inj (sym (registered_row reqs) ∙ found) in
      other (
        verified_password sys laws body.password body'.password registered.salt
          registered.row.password_hash registered.hashed
          (subst (λ row. verify_password sys body'.password row.password_hash ≡ ok true)
            (sym same_row) d'.matches))

  -- Once a name is registered, no registration of it succeeds, after any further requests.
  pub registered_name_taken :
      (reqs : List Request) (body' : RegisterRequest) (r' : ApiResponse TokenResponse)
      → body'.username ≡ body.username
      → (register sys config body' (after sys config reqs (register sys config body w).1)).0 ≢ ok r'
  registered_name_taken reqs body' r' same e' =
      let d' = Post-ok _ r' (register-IsRegistered sys config _ body') e' in
      let rows = (after sys config reqs (register sys config body w).1).db.users in
      let there =
        select-some-has (username_is body.username) rows registered.row (registered_row reqs) in
      true_false (sym there ∙ subst (λ n. has (username_is n) rows ≡ false) same d'.free)
