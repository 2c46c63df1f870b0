-- ===== src/Auth/Http/Availability/Refusals.antt =====
-- src/auth/http.rs: how `login` refuses, where the database has no faults.
use servir.Prelude.{◌≡◌, refl, ap, Bool, true, false, Option, some, none, ok, err, ◌⊎◌, inl, inr}
use mathlib.Core.Option
use servir.Sql.{select}
use servir.System.{System}
use servir.System.Actions.{World, Action, lift, fail_if, or_fail, ◌>>=◌}
use servir.Error.AuthUser
use servir.Auth.Config.{AuthConfig}
use servir.Auth.Password.{verify_password}
use servir.Auth.Http.{LoginRequest, login}
use servir.Auth.Http.Availability.{IsUp, then, found}
use servir.Auth.Http.Availability.Handlers.{find_user_by_username_ok}
use servir.Db.Schema.{Tables, UserRow, username_is}
use servir.Db.History.{later}
use servir.Db.Repository.{from_row}

missing :
    {D E A B : Type 0} {o : Option A} (e : E) (k : A → Action D E B) {w : World D}
    → o ≡ none
    → (or_fail o e >>= k) w ≡ (err e, w)
unfolding ◌>>=◌ or_fail
missing e k h = rw h refl

refused :
    {D E B : Type 0} {test : Bool} (e : E) (k : Unit {0} → Action D E B) {w : World D}
    → test ≡ true
    → (fail_if test e >>= k) w ≡ (err e, w)
unfolding ◌>>=◌ fail_if
refused e k h = rw h refl

-- The name is of no row, or of one whose hash refuses the password.
abbrev pub IsWrong : System → LoginRequest → Tables → Type 0
IsWrong sys body t =
    (select (username_is body.username) t.users ≡ none)
    ⊎ ((row : UserRow) × (select (username_is body.username) t.users ≡ some row)
        × (verify_password sys body.password row.password_hash ≡ ok false))

-- A login with an unknown name and one with a wrong password are refused with the same error, which
-- holds nothing but the name that was sent, and the tables stay: the answer does not tell which names
-- are registered. The database has no faults.
pub login_refuses :
    (sys : System) (config : AuthConfig) (w : World Tables) (body : LoginRequest)
    → IsUp sys
    → IsWrong sys body w.db
    → login sys config body w ≡ (err (AuthUser.invalid_credentials body.username), later w)
unfolding login lift
login_refuses sys config w body up (inl unknown) =
    then _ _ _ _ (find_user_by_username_ok sys up body.username w)
      (missing _ _ (ap (Option.map from_row) unknown))
login_refuses sys config w body up (inr (row, selected, wrong)) =
    then _ _ _ _ (find_user_by_username_ok sys up body.username w) (
      found _ _ (from_row row) (ap (Option.map from_row) selected)
        (then _ _ false (later w) (ap (λ r. (r, later w)) wrong) (refused _ _ refl)))
