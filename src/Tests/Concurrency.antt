-- ===== src/Tests/Concurrency.antt =====
-- Requests that interleave.
use servir.Sql.{has}
use servir.Db.Schema.{owner_is}
use servir.Prelude.{zero, suc, true, ℕ, ◌≡◌, ◌≢◌, refl, ok, List, [], ◌∷◌, ◌⊎◌}
use servir.Json.{null}
use servir.Response.{Response}
use servir.Auth.Service.{Request, post_register, post_refresh, post_logout}
use servir.Db.Schema.{Tables}
use servir.System.Sample.{sample}
use servir.Async.Proc.{Proc, done, step}
use servir.Async.Pool.{Pool, interleave, arriving}
use servir.Async.Invariant.{interleave-IsValid}
use native.Mathlib.Decide.{ℕ_discrete}
use servir.Db.Validity.{IsValid}
use servir.Async.Handlers
use servir.Async.Refresh.{refresh_once_concurrently}
use servir.Async.Register.{register_once_concurrently}
use servir.Tests.Data.{
  config, empty, one_user, alice, alice_refresh, alice_logout, alice_claims, uuids, jwt, program,
  one_user-IsValid, one_user-IsGenuine, empty-IsValid,
}
use servir.Auth.Claims.{refresh}

-- Everybody refreshes with the token of alice.
abbrev refreshes : ℕ → Request
refreshes i = post_refresh (ok alice_refresh)

-- Requests 0 and 1 in turn, to their ends.
abbrev in_turn : List ℕ
in_turn = 0 ∷ 1 ∷ 0 ∷ 1 ∷ 0 ∷ 1 ∷ 0 ∷ 1 ∷ 0 ∷ 1 ∷ 0 ∷ 1 ∷ 0 ∷ 1 ∷ 0 ∷ 1 ∷ 0 ∷ 1 ∷ 0 ∷ 1 ∷ 0 ∷ 1 ∷ []

abbrev refreshed : Pool
refreshed = interleave in_turn (arriving sample config refreshes one_user)

abbrev unanswered : Response
unanswered = record { status = 0; body = null }

abbrev response : Proc Tables Response → Response
response (done r) = r
response (step next rest) = unanswered

unfoldable runs : Unit {0}
unfolding program sample servir.Async.Handlers.serve servir.Async.Handlers.with_body
    servir.Async.Handlers.register servir.Async.Handlers.login servir.Async.Handlers.refresh
    servir.Async.Handlers.logout servir.Async.Handlers.issue_tokens servir.Async.Parts.hash_password
    servir.Async.Parts.create_user servir.Async.Parts.find_user_by_username
    servir.Async.Parts.find_user_by_id servir.Async.Parts.store_refresh_token
    servir.Async.Parts.consume_refresh_token servir.Async.Parts.delete_refresh_tokens_for_user
    servir.Async.Parts.issue_access_token servir.Async.Parts.issue_refresh_token
    servir.Async.Parts.verify_token servir.Async.Proc.finish servir.Async.Proc.pure
    servir.Async.Proc.lift servir.Async.Proc.◌>>=◌ servir.Async.Proc.fail_if
    servir.Async.Proc.or_fail servir.Async.Proc.call servir.Async.Proc.query
    servir.Server.AppJson.from_request servir.Response.respond
runs = tt

first_wins : (response (refreshed.requests 0)).status ≡ 200
unfolding runs ℕ_discrete
first_wins = refl

second_loses : (response (refreshed.requests 1)).status ≡ 401
unfolding runs ℕ_discrete
second_loses = refl

-- Everybody registers as alice.
abbrev registrations : ℕ → Request
registrations i = post_register (ok alice)

abbrev registered : Pool
registered = interleave in_turn (arriving sample config registrations empty)

one_registers : (response (registered.requests 0)).status ≡ 200
unfolding runs ℕ_discrete
one_registers = refl

the_other_does_not : (response (registered.requests 1)).status ≡ 409
unfolding runs ℕ_discrete
the_other_does_not = refl

refresh_once_concurrently_example :
    ((response (refreshed.requests 0)).status ≢ 200)
    ⊎ ((response (refreshed.requests 1)).status ≢ 200)
unfolding runs ℕ_discrete
refresh_once_concurrently_example =
    refresh_once_concurrently sample config uuids jwt refreshes one_user in_turn one_user-IsValid
      one_user-IsGenuine 0 1 alice_refresh alice_refresh (alice_claims refresh)
      (alice_claims refresh) 10 10 (λ h. cc) refl refl refl refl refl _ _ refl refl

register_once_concurrently_example :
    ((response (registered.requests 0)).status ≢ 200)
    ⊎ ((response (registered.requests 1)).status ≢ 200)
unfolding runs ℕ_discrete
register_once_concurrently_example =
    register_once_concurrently sample config uuids registrations empty in_turn empty-IsValid tt 0 1
      alice alice (λ h. cc) refl refl refl _ _ refl refl

interleave-IsValid_example : IsValid registered.world.db
interleave-IsValid_example =
    interleave-IsValid sample uuids config registrations empty in_turn empty-IsValid tt

-- Alice refreshes and logs out at once. The refresh consumes its token before the logout, and stores the
-- new one after it.
abbrev refresh_and_logout : ℕ → Request
refresh_and_logout zero = post_refresh (ok alice_refresh)
refresh_and_logout (suc i) = post_logout (ok alice_logout)

abbrev around_logout : List ℕ
around_logout = 0 ∷ 0 ∷ 0 ∷ 1 ∷ 1 ∷ 0 ∷ 0 ∷ 0 ∷ 0 ∷ 0 ∷ 0 ∷ 0 ∷ 0 ∷ []

abbrev logged_out : Pool
logged_out = interleave around_logout (arriving sample config refresh_and_logout one_user)

-- Both are answered with 200, and alice still has a refresh token.
session_after_logout :
    ((response (logged_out.requests 0)).status ≡ 200)
    × ((response (logged_out.requests 1)).status ≡ 200)
    × (has (owner_is "u") logged_out.world.db.refresh_tokens ≡ true)
unfolding runs ℕ_discrete
session_after_logout = (refl, refl, refl)
