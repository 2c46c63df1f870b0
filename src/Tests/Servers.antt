-- ===== src/Tests/Servers.antt =====
-- The theorems on the builder and the secret at concrete inputs.
use servir.System.Parts.{whole}
use servir.Db.Schema.{Tables}
use servir.Prelude.{none, ne_of_test, ℕ, String, ◌≡◌, refl, Result, ok, err, List, [], ◌∷◌}
use servir.System.Sample.{sample}
use servir.Auth.Service.{Request, post_register, post_login, serve}
use servir.Auth.Service.Restart.{secret_survives}
use servir.Db.Repository.{load_or_generate_secret}
use servir.Json.{unit_serialize}
use servir.Response.{ok_data, into_response}
use servir.Auth.Routes.{sent, mount_auth_routes}
use servir.Server.Axum.{Endpoint, HttpRequest, get, post}
use servir.Server.Axum.Sample.{
  SampleRouter, sample_axum, sample-RouterLaws, sample-TowerLaws, sample-find, sample-has_route,
}
use servir.Server.Builder.{
  ServerBuilder, builder, addr, routes, auth_database_url, access_token_ttl_secs, assemble,
  api_routes, not_found,
}
use servir.Server.Middleware.{standard_middleware}
use servir.Server.Middleware.Wraps.{
  Answered, identified, identified_answer, stamp, standard_middleware-Answered,
}
use servir.Server.Builder.Routed.{registers}
use servir.Server.Builder.Answers.{unknown, assemble-serve, assemble-not_found}
use servir.Server.Builder.Panics.{of_health, assemble_panics}
use servir.Tests.Data.{program, config, empty, alice, alice_login}

abbrev requests : List Request
requests = post_register (ok alice) ∷ post_login (ok alice_login) ∷ []

secret_survives_example : ◌≡◌ {A = String} "secret" "secret"
unfolding program load_or_generate_secret servir.Db.Repository.generate_secret
    servir.Auth.Service.serve
secret_survives_example = secret_survives sample config empty requests "secret" "secret" refl refl

-- The application has one route.
abbrev greet : Endpoint Tables
greet req w = (sent (into_response {T = Unit {0}} (ok_data tt)), w)

abbrev or_new : Result String (SampleRouter Tables) → SampleRouter Tables
unfolding sample_axum
or_new (ok r) = r
or_new (err text) = (sample_axum Tables).new

abbrev app : SampleRouter Tables
unfolding sample_axum
app = or_new ((sample_axum Tables).route "/user" get greet (sample_axum Tables).new)

-- An application with a health check of its own.
abbrev checked_app : SampleRouter Tables
unfolding sample_axum
checked_app = or_new ((sample_axum Tables).route "/health" get greet (sample_axum Tables).new)

-- The router of a server with the application.
abbrev server : SampleRouter Tables
server = or_new (assemble sample (sample_axum Tables) whole config app)

server_made : assemble sample (sample_axum Tables) whole config app ≡ ok server
unfolding sample_axum assemble api_routes mount_auth_routes
server_made = refl

abbrev configured : ServerBuilder (SampleRouter Tables) ℕ
configured =
    access_token_ttl_secs 60 (auth_database_url "sqlite://auth.db" (routes app (addr 3000 builder)))

assemble_panics_example :
    (text : String) × (assemble sample (sample_axum Tables) whole config checked_app ≡ err text)
unfolding sample_axum
assemble_panics_example =
    assemble_panics sample (sample_axum Tables) whole (sample-RouterLaws Tables) config checked_app
      get "/health" of_health (sample-has_route Tables checked_app get "/health")

-- A request from outside for a path.
abbrev request : String → HttpRequest
request path = record {
  method = post;
  path = path;
  parts = record { extension = none; authorization = none };
  x_request_id = none;
  body = record { content_type = none; bytes = "alice" };
}

assemble-serve_example :
    Answered (sample-RouterLaws Tables) server (request "/api/v1/auth/register") empty (
      stamp
        (serve sample config (post_register (ok alice)))
        (identified sample (request "/api/v1/auth/register") empty))
unfolding sample_axum
assemble-serve_example =
    assemble-serve sample (sample_axum Tables) whole (sample-RouterLaws Tables) config
      (sample-TowerLaws Tables) app server server_made (request "/api/v1/auth/register") empty
      "auth/register" refl (sample-find Tables app _) (post_register (ok alice))
      (registers refl refl)

assemble-not_found_example :
    Answered (sample-RouterLaws Tables) server (request "/api/v1/users") empty (
      stamp (λ w. (into_response not_found, w)) (identified sample (request "/api/v1/users") empty))
unfolding sample_axum
assemble-not_found_example =
    assemble-not_found sample (sample_axum Tables) whole (sample-RouterLaws Tables) config
      (sample-TowerLaws Tables) app server server_made (request "/api/v1/users") empty
      (unknown "users" refl (sample-find Tables app _)
        (record {
          register = ne_of_test "/users" "/auth/register" refl;
          login = ne_of_test "/users" "/auth/login" refl;
          refresh = ne_of_test "/users" "/auth/refresh" refl;
          logout = ne_of_test "/users" "/auth/logout" refl;
          me = ne_of_test "/users" "/auth/me" refl;
        })
        (ne_of_test "/users" "/health" refl))

standard_middleware-Answered_example :
    Answered
      (sample-RouterLaws Tables)
      (standard_middleware sample (sample_axum Tables) app)
      (record (request "/user") { method = get })
      empty
      (identified_answer sample greet (record (request "/user") { method = get }) empty)
unfolding sample_axum
standard_middleware-Answered_example =
    standard_middleware-Answered sample (sample_axum Tables) (sample-RouterLaws Tables)
      (sample-TowerLaws Tables) app (record (request "/user") { method = get }) empty greet
      (sample-find Tables app _)
