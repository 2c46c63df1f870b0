-- ===== src/Tests/Runs.antt =====
-- src/auth/http.rs: the handlers on concrete requests.
use servir.Prelude.{String, ◌≡◌, refl, ok, err}
use servir.System.Sample.{sample}
use servir.Response.{ok_data}
use servir.Auth.Http.{register, login, refresh, logout, me}
use servir.Auth.Extractor.Rejections.{bearer}
use servir.Error.AuthUser
use servir.Error.AuthToken
use servir.Tests.Data.{
  program, config, empty, one_user, alice, alice_refresh, alice_logout, alice_token, access_token,
}

logout-run : logout sample config alice_logout one_user ≡ (
  ok (ok_data tt),
  record { db = record one_user.db { refresh_tokens = servir.Prelude.List.[] }; tick = 12 },
)
unfolding program
logout-run = refl

register-run_weak :
    (register sample config (record { username = "bob"; password = "1234567" }) one_user).0
    ≡ err AuthUser.weak_password
unfolding program
register-run_weak = refl

register-run_tick : (register sample config alice empty).1.tick ≡ 11
unfolding program
register-run_tick = refl

login-run_wrong :
    (login sample config (record { username = "alice"; password = "Password" }) one_user).0
    ≡ err (AuthUser.invalid_credentials "alice")
unfolding program
login-run_wrong = refl

refresh-run_access :
    (refresh sample config (record { refresh_token = access_token }) one_user).0
    ≡ err AuthToken.wrong_kind
unfolding program
refresh-run_access = refl

-- The second of two refreshes with one token is refused.
refresh-run_twice :
    (refresh sample config alice_refresh (refresh sample config alice_refresh one_user).1).0
    ≡ err AuthToken.invalid_refresh_token
unfolding program
refresh-run_twice = refl

me-run :
    (me sample (bearer config access_token) one_user).0
    ≡ ok (ok_data (record { user_id = "u"; username = "alice" }))
unfolding program
me-run = refl

me-run_refresh : (me sample (bearer config alice_token) one_user).0 ≡ err AuthToken.wrong_kind
unfolding program
me-run_refresh = refl
