-- ===== src/Tests/Sequences.antt =====
-- The theorems on sequences of requests at concrete inputs.
use servir.Prelude.{Bool, true, false, ◌==◌, ap, String, arith, ◌≡◌, ◌≢◌, refl, ok, List, [], ◌∷◌}
use servir.System.Sample.{sample, sample_uuid}
use servir.System.Actions.{World}
use servir.Auth.Config.{AuthConfig}
use servir.Db.Schema.{Tables}
use servir.Response.{ok_data}
use servir.Auth.Claims.{refresh as refresh_kind}
use servir.Auth.Extractor.Rejections.{bearer}
use servir.Auth.Http.{LoginRequest, TokenResponse, register, login, refresh, logout, me}
use servir.Auth.Service.{Request, post_login, post_refresh, serve}
use servir.Auth.Service.Traces.{after, serve-History}
use servir.Auth.Service.Safety.{refresh_once, logout_revokes}
use servir.Auth.Service.Credentials.{registered_password_only, registered_name_taken}
use servir.Auth.Http.Bearers.{register-access_token_wraps, register-me, login-refresh_token_not_me}
use servir.Db.History.{History}
use servir.Tests.Data.{
  program, config, empty, one_user, alice, alice_login, alice_refresh, alice_logout, alice_claims,
  token_row, tokens_of, uuids, clocks, jwt, argon2, one_user-IsValid, one_user-IsGenuine,
}

-- Two requests between the ones that matter.
abbrev requests : List Request
requests = post_login (ok alice_login) ∷ post_refresh (ok alice_refresh) ∷ []

abbrev refreshed : TokenResponse
refreshed = tokens_of (refresh sample config alice_refresh one_user).0

refresh_once_example :
    (refresh sample config alice_refresh
      (after sample config requests (refresh sample config alice_refresh one_user).1)).0
    ≢ ok (ok_data refreshed)
unfolding program
refresh_once_example =
    refresh_once sample config uuids one_user jwt one_user-IsValid one_user-IsGenuine alice_refresh
      (ok_data refreshed) (ok_data refreshed) refl requests

logout_revokes_example :
    (refresh sample config alice_refresh
      (after sample config requests (logout sample config alice_logout one_user).1)).0
    ≢ ok (ok_data refreshed)
unfolding program
logout_revokes_example =
    logout_revokes sample config uuids one_user jwt one_user-IsValid one_user-IsGenuine alice_logout
      (ok_data tt) (alice_claims refresh_kind) refl refl alice_refresh (alice_claims refresh_kind) 7
      token_row refl refl refl requests (ok_data refreshed)

abbrev registered : TokenResponse
registered = tokens_of (register sample config alice empty).0

abbrev other_login : LoginRequest
other_login = record { username = "alice"; password = "Password" }

registered_password_only_example :
    (login sample config other_login
      (after sample config requests (register sample config alice empty).1)).0
    ≢ ok (ok_data registered)
unfolding program
registered_password_only_example =
    registered_password_only sample config empty alice (ok_data registered) refl argon2 requests
      other_login (ok_data registered) refl
      (λ h. let f : ◌≡◌ {A = Bool} false true = ap (λ s. s == "password") h in absurd (cc))

registered_name_taken_example :
    (register sample config alice
      (after sample config requests (register sample config alice empty).1)).0
    ≢ ok (ok_data registered)
unfolding program
registered_name_taken_example =
    registered_name_taken sample config empty alice (ok_data registered) refl requests alice
      (ok_data registered) refl

serve-History_example :
    History sample one_user (serve sample config (post_refresh (ok alice_refresh)) one_user).1
serve-History_example = serve-History sample one_user config (post_refresh (ok alice_refresh))

register-me_example :
    (id : String) × ((me sample (bearer config registered.access_token) one_user).0
      ≡ ok (ok_data (record { user_id = id; username = "alice" })))
unfolding program
register-me_example =
    register-me sample config jwt one_user clocks empty alice registered refl (omega arith)
      (omega arith)

abbrev logged_in : TokenResponse
logged_in = tokens_of (login sample config alice_login one_user).0

login-refresh_token_not_me_example :
    (me sample (bearer config logged_in.refresh_token) one_user).0
    ≢ ok (ok_data (record { user_id = "u"; username = "alice" }))
unfolding program
login-refresh_token_not_me_example =
    login-refresh_token_not_me sample config jwt one_user one_user alice_login logged_in
      (ok_data (record { user_id = "u"; username = "alice" })) refl

-- 61 seconds short of 2^64.
abbrev long_config : AuthConfig
long_config = record config { access_token_ttl_secs = 18_446_744_073_709_551_555 }

abbrev started : World Tables
started = record empty { tick = 100 }

abbrev long_tokens : TokenResponse
long_tokens = tokens_of (register sample long_config alice started).0

register-access_token_wraps_example :
    (me sample (bearer long_config long_tokens.access_token) (record empty { tick = 120 })).0
    ≢ ok (ok_data (record { user_id = sample_uuid 101; username = "alice" }))
unfolding program
register-access_token_wraps_example =
    register-access_token_wraps sample long_config jwt (record empty { tick = 120 }) clocks started
      alice long_tokens 61 (ok_data (record { user_id = sample_uuid 101; username = "alice" })) refl
      refl (omega arith) (omega arith) (omega arith) (omega arith)
