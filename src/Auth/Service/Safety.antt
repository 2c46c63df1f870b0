-- ===== src/Auth/Service/Safety.antt =====
-- What no sequence of requests can do: refresh twice with one token, refresh after a logout, log in
-- with another password than the registered one, or register a name twice.
use servir.Prelude.{
  ℤ, as_i64, ℕ, suc, String, ◌==◌, eq_refl, eq_of_test, ◌≡◌, ◌≢◌, refl, sym, ◌∙◌, ap, Bool, true,
  false, ok, List, [], ◌∷◌, arith, some, Bool-cases, inl, inr,
}
use mathlib.Core.Path.{subst}
use servir.Sql.{has, select, delete, Unique}
use servir.Sql.Laws.{has_weaken, has-delete-false, select-some-has}
use servir.System.{System}
use servir.System.Laws.{UuidLaws, JwtLaws}
use servir.System.Actions.{World}
use servir.System.Posts.{Post-ok}
use servir.Response.{ApiResponse}
use servir.Auth.Claims.{Claims}
use servir.Auth.Config.{AuthConfig}
use servir.Auth.Http.{RefreshRequest, LogoutRequest, TokenResponse, refresh, logout}
use servir.Auth.Http.Login.{logout-IsLoggedOut}
use servir.Auth.Http.Refresh.{IsRefreshed, refresh-IsRefreshed}
use servir.Auth.Service.{Request}
use servir.Auth.Service.Traces.{after, after-IsSpent}
use servir.Db.Schema.{Tables, TokenRow, jti_is, owner_is, is_live}
use servir.Db.History.{Drawn-later, Steps-tick}
use servir.Db.Validity.{IsValid}
use servir.Db.Persistence.{IsGenuine, Drawn-of_has, Drawn-apart, IsSpent}

pub is_live_jti :
    (jti : String) (now : ℤ) (r : TokenRow) → is_live jti now r ≡ true → jti_is jti r ≡ true
is_live_jti jti now r h = ground arith

-- Where token IDs are unique, deleting the live row of one leaves no row of it.
pub has-spend :
    (jti : String) (now : ℤ) (rows : List TokenRow)
    → Unique (λ r. jti_is r.jti) rows
    → has (is_live jti now) rows ≡ true
    → has (jti_is jti) (delete (is_live jti now) rows) ≡ false
has-spend jti now [] u h = refl
has-spend jti now (r ∷ rows) u h = elim (Bool-cases (is_live jti now r)) [
  | inl live ↦
      let same : r.jti ≡ jti = eq_of_test r.jti jti (is_live_jti jti now r live) in
      rw (live, delete)
        (has-delete-false (jti_is jti) (is_live jti now) rows
          (subst (λ j. has (jti_is j) rows ≡ false) same u.0))
  | inr dead ↦
      let later : has (is_live jti now) rows ≡ true = ground arith in
      let there = has_weaken (is_live jti now) (jti_is jti) rows (is_live_jti jti now) later in
      rw (dead, delete)
        (elim (Bool-cases (r.jti == jti)) [
          | inl same ↦
              let u' = subst (λ j. has (jti_is j) rows ≡ false) (eq_of_test r.jti jti same) u.0 in
              absurd (cc)
          | inr other ↦ rw (other, has) (has-spend jti now rows u.1 later)
        ])
]

-- Where token IDs are unique, deleting a user's rows leaves no row of an ID that was the user's.
has-revoke :
    (jti id : String) (rows : List TokenRow) (row : TokenRow)
    → Unique (λ r. jti_is r.jti) rows
    → select (jti_is jti) rows ≡ some row
    → row.user_id ≡ id
    → has (jti_is jti) (delete (owner_is id) rows) ≡ false
has-revoke jti id [] row u found owner = refl
has-revoke jti id (r ∷ rows) row u found owner = elim (Bool-cases (r.jti == jti)) [
  | inl same ↦
      let this : r ≡ row = ground arith in
      let owned : (r.user_id == id) ≡ true = rw (this, owner) (eq_refl id) in
      rw (owned, delete)
        (has-delete-false (jti_is jti) (owner_is id) rows
          (subst (λ j. has (jti_is j) rows ≡ false) (eq_of_test r.jti jti same) u.0))
  | inr other ↦ let rest = has-revoke jti id rows row u.1 (ground arith) owner in ground arith
]

true_false : ◌≢◌ {A = Bool} true false
true_false h = cc

module _ (sys : System) (config : AuthConfig) (uuids : UuidLaws sys) (w : World Tables) where
  -- After a refresh that succeeded, its token is spent.
  refreshed-IsSpent :
      IsValid w.db
      → IsGenuine sys w
      → {body : RefreshRequest} {r : ApiResponse TokenResponse} {v : World Tables}
      → (d : IsRefreshed sys config w body r v) → IsSpent sys d.claims.jti v
  refreshed-IsSpent valid genuine d =
      let jti = d.claims.jti in
      let now = as_i64 (sys.clock (suc w.tick)) in
      let there =
        has_weaken (is_live jti now) (jti_is jti) w.db.refresh_tokens (is_live_jti jti now)
          d.usable.live in
      let drawn = Drawn-of_has sys w.tick jti w.db.refresh_tokens genuine there in
      let apart = Drawn-apart sys uuids jti d.session.row.jti drawn d.session.drawn in
      record {
        issued = Drawn-later sys (Steps-tick sys d.session.history) drawn;
        gone =
            rw d.session.added
              (rw (apart, has) (has-spend jti now w.db.refresh_tokens valid.jtis d.usable.live));
      }

  -- A spent token does not refresh, after any requests, under whatever claims it decodes to.
  spent_refuses :
      JwtLaws sys
      → (v : World Tables) (body : RefreshRequest) (c : Claims) (now : ℕ)
      → sys.jwt_decode body.refresh_token config.secret now ≡ ok c
      → IsSpent sys c.jti v
      → (reqs : List Request) (r : ApiResponse TokenResponse)
      → (refresh sys config body (after sys config reqs v)).0 ≢ ok r
  spent_refuses jwt v body c now decoded spent reqs r e =
      let u = after sys config reqs v in
      let d = Post-ok _ r (refresh-IsRefreshed sys config u body) e in
      let later = after-IsSpent sys config uuids reqs c.jti v spent in
      let same =
        jwt.decode_same c d.claims config.secret body.refresh_token _ _ decoded
          d.usable.accepted.decoded in
      let there =
        has_weaken (is_live d.claims.jti _) (jti_is d.claims.jti) u.db.refresh_tokens
          (is_live_jti d.claims.jti _) d.usable.live in
      true_false
        (sym there ∙ ap (λ c. has (jti_is c.jti) u.db.refresh_tokens) (sym same) ∙ later.gone)

  -- A refresh token is good for one session: once a refresh with it has succeeded, no refresh with it
  -- succeeds after any further requests, on tables that meet the schema and hold only token IDs that
  -- the program drew.
  pub refresh_once :
      JwtLaws sys
      → IsValid w.db
      → IsGenuine sys w
      → (body : RefreshRequest) (r r' : ApiResponse TokenResponse)
      → (refresh sys config body w).0 ≡ ok r
      → (reqs : List Request)
      → (refresh sys config body (after sys config reqs (refresh sys config body w).1)).0 ≢ ok r'
  refresh_once jwt valid genuine body r r' e reqs =
      let d = Post-ok _ r (refresh-IsRefreshed sys config w body) e in
      spent_refuses jwt _ body d.claims _ d.usable.accepted.decoded
        (refreshed-IsSpent valid genuine d) reqs r'

  -- After a logout that succeeded with a token of a user, no refresh succeeds with a token whose row
  -- belonged to that user, after any further requests.
  pub logout_revokes :
      JwtLaws sys
      → IsValid w.db
      → IsGenuine sys w
      → (out : LogoutRequest) (u : ApiResponse (Unit {0})) (c : Claims)
      → sys.jwt_decode out.refresh_token config.secret (sys.clock w.tick) ≡ ok c
      → (logout sys config out w).0 ≡ ok u
      → (body : RefreshRequest) (c' : Claims) (now : ℕ) (row : TokenRow)
      → sys.jwt_decode body.refresh_token config.secret now ≡ ok c'
      → select (jti_is c'.jti) w.db.refresh_tokens ≡ some row
      → row.user_id ≡ c.sub
      → (reqs : List Request) (r : ApiResponse TokenResponse)
      → (refresh sys config body (after sys config reqs (logout sys config out w).1)).0 ≢ ok r
  logout_revokes jwt valid genuine out u c decoded e body c' now row decoded' found owner =
      let (d, accepted, history, revoked) = Post-ok _ u (logout-IsLoggedOut sys config w out) e in
      let same : d ≡ c =
        jwt.decode_same d c config.secret out.refresh_token _ _ accepted.decoded decoded in
      let there = select-some-has (jti_is c'.jti) w.db.refresh_tokens row found in
      let drawn = Drawn-of_has sys w.tick c'.jti w.db.refresh_tokens genuine there in
      spent_refuses jwt _ body c' now decoded' (record {
        issued = Drawn-later sys (Steps-tick sys history) drawn;
        gone = rw revoked (
            has-revoke c'.jti d.sub w.db.refresh_tokens row valid.jtis found
              (owner ∙ ap (λ c. c.sub) (sym same)));
      })
