-- ===== src/Auth/Http/Availability.antt =====
-- src/auth/http.rs: when the handlers succeed. Where the database has no faults, a request that meets
-- the documented conditions is answered with tokens.
pub mod Handlers
pub mod Refusals
use servir.Prelude.{
  ℕ, suc, ◌+◌, ◌≤◌, String, is_empty, len, ◌≡◌, refl, ap, Bool, true, false, some, none, ok, arith,
  Result, err, Option, map_err,
}
use servir.Sql.{has}
use servir.System.{System}
use servir.System.Laws.{JwtLaws, Argon2Laws}
use servir.System.Actions.{
  World, Action, pure, lift, call, ◌>>=◌, fail_if, or_fail, map_error, execute, Statement, SqlError,
}
use servir.Error.Kinds.{ServirError}
use servir.Response.{ApiResponse, ok_data}
use servir.Auth.Claims.{access, refresh as refresh_kind}
use servir.Auth.Config.{AuthConfig}
use servir.Auth.Token.{new_claims, now_secs, issue_access_token, issue_refresh_token}
use servir.Auth.Http.{TokenResponse, issue_tokens}
use servir.Db.Schema.{
  Tables, user_id_is, jti_is, username_is, UserRow, TokenRow, insert_user, insert_token,
}
use servir.Db.History.{later, add_user, add_token}
use servir.Db.Repository.{User, store_refresh_token}

-- No statement meets a fault of the database.
abbrev pub IsUp : System → Type 0
IsUp sys = (t : ℕ) → sys.fault t ≡ none

-- An action that succeeds passes its value on.
pub then :
    {D E A B : Type 0} (m : Action D E A) (f : A → Action D E B) {w : World D} (a : A)
    (w' : World D) {out : Result E B × World D}
    → m w ≡ (ok a, w')
    → f a w' ≡ out
    → (m >>= f) w ≡ out
unfolding ◌>>=◌
then m f a w' e e' = rw (ap (λ o. o.0) e, ap (λ o. o.1) e, ◌>>=◌) e'

-- A call takes one tick.
pub called :
    {E A B : Type 0} (source : ℕ → A) (f : A → Action Tables E B) {w : World Tables}
    {out : Result E B × World Tables}
    → f (source w.tick) (later w) ≡ out
    → (call source >>= f) w ≡ out
unfolding ◌>>=◌ call
called source f e = e

-- A guard passes on what its test lets through.
pub passed :
    {D E B : Type 0} {test : Bool} (e : E) (k : Unit {0} → Action D E B) {w : World D}
    {out : Result E B × World D}
    → test ≡ false
    → k tt w ≡ out
    → (fail_if test e >>= k) w ≡ out
unfolding ◌>>=◌ fail_if
passed e k h e' = rw h e'

pub found :
    {D E A B : Type 0} {o : Option A} (e : E) (k : A → Action D E B) {w : World D} (a : A)
    {out : Result E B × World D}
    → o ≡ some a
    → k a w ≡ out
    → (or_fail o e >>= k) w ≡ out
unfolding ◌>>=◌ or_fail
found e k a h e' = rw h e'

pub map_error_ok :
    {D E F A : Type 0} (m : Action D E A) (f : E → F) {w w' : World D} {a : A}
    → m w ≡ (ok a, w')
    → map_error f m w ≡ (ok a, w')
unfolding map_error
map_error_ok m f e = rw (ap (λ o. o.0) e, ap (λ o. o.1) e, map_error) refl

pub execute_ok :
    {D A : Type 0} (sys : System) (s : Statement D A) {w : World D} {a : A} {d : D}
    → sys.fault w.tick ≡ none
    → s w.db ≡ ok (a, d)
    → execute sys s w ≡ (ok a, record { db = d; tick = suc w.tick })
unfolding execute
execute_ok sys s up e = rw (up, execute) (rw e refl)

insert_token_ok :
    (sys : System) (row : TokenRow) (t : Tables)
    → has (user_id_is row.user_id) t.users ≡ true
    → has (jti_is row.jti) t.refresh_tokens ≡ false
    → insert_token sys row t ≡ ok (tt, add_token row t)
unfolding insert_token
insert_token_ok sys row t known unused = rw unused (rw known refl)

pub insert_user_ok :
    (sys : System) (row : UserRow) (t : Tables)
    → has (user_id_is row.id) t.users ≡ false
    → has (username_is row.username) t.users ≡ false
    → insert_user sys row t ≡ ok (tt, add_user row t)
unfolding insert_user
insert_user_ok sys row t unused free = rw unused (rw free refl)

module _ (sys : System) (config : AuthConfig) (jwt : JwtLaws sys) (up : IsUp sys) where
  issue_access_token_ok :
      (user : User) (w : World Tables)
      → (t : String) × (issue_access_token sys user.id user.username config w
          ≡ (ok t, later (later w)))
  unfolding issue_access_token now_secs ◌>>=◌ call lift
  issue_access_token_ok user w =
      let (t, e) =
        jwt.encodes
          (new_claims user.id user.username (sys.clock w.tick) config.access_token_ttl_secs
            (sys.uuid (suc w.tick)) access)
          config.secret in
      (t, rw e refl)

  issue_refresh_token_ok :
      (user : User) (w : World Tables)
      → (t : String) × (issue_refresh_token sys user.id user.username config w
          ≡ (ok (t, sys.uuid (suc w.tick)), later (later w)))
  unfolding issue_refresh_token now_secs ◌>>=◌ call lift pure
  issue_refresh_token_ok user w =
      let (t, e) =
        jwt.encodes
          (new_claims user.id user.username (sys.clock w.tick) config.refresh_token_ttl_secs
            (sys.uuid (suc w.tick)) refresh_kind)
          config.secret in
      (t, rw e refl)

  store_refresh_token_ok :
      (jti user_id username : String) (ttl : ℕ) (w : World Tables)
      → has (user_id_is user_id) w.db.users ≡ true
      → has (jti_is jti) w.db.refresh_tokens ≡ false
      → (w' : World Tables) × (store_refresh_token sys jti user_id username ttl w ≡ (ok tt, w'))
  unfolding store_refresh_token ◌>>=◌ call
  store_refresh_token_ok jti user_id username ttl w known unused =
      (_, map_error_ok _ _ (execute_ok sys _ (up _) (insert_token_ok sys _ w.db known unused)))

  pub issue_tokens_ok :
      (user : User) (w : World Tables)
      → has (user_id_is user.id) w.db.users ≡ true
      → has (jti_is (sys.uuid (suc (suc (suc w.tick))))) w.db.refresh_tokens ≡ false
      → (tokens : TokenResponse) × ((issue_tokens sys config user w).0 ≡ ok (ok_data tokens))
  unfolding issue_tokens pure
  issue_tokens_ok user w known unused =
      let (t₁, e₁) = issue_access_token_ok user w in
      let (t₂, e₂) = issue_refresh_token_ok user (later (later w)) in
      let (w', e₃) =
        store_refresh_token_ok (sys.uuid (suc (suc (suc w.tick)))) user.id user.username
          config.refresh_token_ttl_secs _ known unused in
      (
        record { access_token = t₁; refresh_token = t₂; token_type = "Bearer" },
        ap (λ o. o.0) (then _ _ _ _ e₁ (then _ _ _ _ e₂ (then _ _ _ _ e₃ refl))),
      )
