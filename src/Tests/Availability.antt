-- ===== src/Tests/Availability.antt =====
-- The theorems on success at concrete inputs.
use servir.Prelude.{inr, ℕ, ◌<◌, ◌==◌, test_of_ne, ◌≡◌, refl, ok, err, List, [], ◌∷◌, false, arith}
use servir.System.Sample.{sample, sample_uuid}
use servir.Response.{ok_data}
use servir.Auth.Claims.{refresh as refresh_kind}
use servir.Auth.Http.{TokenResponse, register, login, refresh}
use servir.Auth.Http.Availability.{IsUp}
use servir.Auth.Http.Availability.Handlers.{
  IsFresh, register_succeeds, login_succeeds, refresh_succeeds,
}
use servir.Auth.Service.{Request, post_login, post_logout, post_refresh}
use servir.Auth.Service.Traces.{after}
use servir.Error.AuthUser
use servir.Db.History.{later}
use servir.Auth.Http.{LoginRequest}
use servir.Auth.Http.Availability.Refusals.{login_refuses}
use servir.Auth.Service.Rotation.{login-refresh}
use servir.Auth.Service.Sessions.{registered_login}
use servir.Tests.Data.{
  program, config, empty, one_user, alice, alice_login, alice_refresh, alice_claims, alice_row,
  tokens_of, clocks, one_user-IsValid, uuids, jwt, argon2,
}

up : IsUp sample
unfolding sample
up t = refl

-- An ID of an earlier draw is none of a later one.
earlier : (s t : ℕ) → s < t → (sample_uuid s == sample_uuid t) ≡ false
unfolding sample
earlier s t h =
    test_of_ne (sample_uuid s) (sample_uuid t)
      (λ e. let z = uuids.fresh s t e in omega (arith, z, h))

empty-IsFresh : IsFresh sample empty
empty-IsFresh = record { users = λ t h. refl; tokens = λ t h. refl }

one_user-IsFresh : IsFresh sample one_user
unfolding sample
one_user-IsFresh = record {
  users = λ t h. rw (earlier 0 t (omega (arith, h))) refl;
  tokens = λ t h. rw (earlier 3 t (omega (arith, h))) refl;
}

register_succeeds_example :
    (tokens : TokenResponse) × ((register sample config alice empty).0 ≡ ok (ok_data tokens))
register_succeeds_example =
    register_succeeds sample up config jwt empty argon2 empty-IsFresh alice refl (omega arith) refl

login_succeeds_example :
    (tokens : TokenResponse) × ((login sample config alice_login one_user).0 ≡ ok (ok_data tokens))
unfolding sample
login_succeeds_example =
    login_succeeds sample up config jwt one_user argon2 one_user-IsFresh alice_login alice_row ""
      refl refl

refresh_succeeds_example :
    (tokens : TokenResponse) × ((refresh sample config alice_refresh one_user).0
      ≡ ok (ok_data tokens))
unfolding program
refresh_succeeds_example =
    refresh_succeeds sample up config jwt one_user one_user-IsFresh alice_refresh
      (alice_claims refresh_kind) alice_row refl refl refl refl

-- A rejected body, and a wrong password.
abbrev requests : List Request
requests =
    post_logout (err "EOF")
    ∷ post_login (ok (record { username = "alice"; password = "Password" }))
    ∷ []

registered-IsFresh :
    IsFresh sample (after sample config requests (register sample config alice empty).1)
unfolding program servir.Auth.Service.serve
registered-IsFresh = record {
  users = λ t h. rw (earlier 1 t (omega (arith, h))) refl;
  tokens = λ t h. rw (earlier 7 t (omega (arith, h))) refl;
}

registered_login_example :
    (tokens : TokenResponse) × ((login sample config
        (record { username = "alice"; password = "password" })
        (after sample config requests (register sample config alice empty).1)).0
      ≡ ok (ok_data tokens))
unfolding program
registered_login_example =
    registered_login sample config empty alice
      (ok_data (tokens_of (register sample config alice empty).0)) refl up jwt argon2 requests
      registered-IsFresh

abbrev logged_in : TokenResponse
logged_in = tokens_of (login sample config alice_login one_user).0

logged_in-IsFresh : IsFresh sample (login sample config alice_login one_user).1
unfolding program
logged_in-IsFresh = record {
  users = λ t h. rw (earlier 0 t (omega (arith, h))) refl;
  tokens = λ t h. rw (earlier 14 t (omega (arith, h))) (rw (earlier 3 t (omega (arith, h))) refl);
}

login-refresh_example :
    (tokens : TokenResponse) × ((refresh sample config
        (record { refresh_token = logged_in.refresh_token })
        (login sample config alice_login one_user).1).0
      ≡ ok (ok_data tokens))
unfolding program
login-refresh_example =
    login-refresh sample config one_user alice_login logged_in up jwt clocks one_user-IsValid
      logged_in-IsFresh refl (omega arith) (omega arith)

abbrev wrong : LoginRequest
wrong = record { username = "alice"; password = "Password" }

login_refuses_example :
    login sample config wrong one_user
    ≡ (err (AuthUser.invalid_credentials "alice"), later one_user)
unfolding program
login_refuses_example = login_refuses sample config one_user wrong up (inr (alice_row, refl, refl))
