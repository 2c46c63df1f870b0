-- ===== src/Tests/Program.antt =====
-- The theorems on the example program at concrete inputs.
use servir.Prelude.{false, ok, and_then, ◌≡◌, ℕ, refl, none, some, []}
use servir.System.Parts.{Part, on_part}
use servir.System.Sample.{sample}
use servir.System.Actions.{World}
use servir.Auth.Extractor.{text}
use servir.Consumer.{ProfileTable}
use servir.Consumer.App.{app_routes}
use servir.Consumer.App.Answers.{user_response, assemble-user}
use servir.Consumer.Main.{Args, main}
use servir.Consumer.Main.Runs.{Ended, main-Ended}
use servir.Db.Schema.{Tables}
use servir.Server.Axum.{HttpRequest, get}
use servir.Server.Axum.Sample.{SampleRouter, sample_axum, sample-RouterLaws, sample-TowerLaws}
use servir.Server.Builder.{assemble}
use servir.Server.Middleware.Wraps.{Answered, identified, stamp}
use servir.Server.Telemetry.Sample.{
  Process, standard_hook, sample_tracing, sample-TracingLaws, sample-log_logger,
}
use servir.Tests.Data.{config, one_user}

-- Both databases.
record Databases : Type 0 where
  pub auth : Tables
  pub app : ProfileTable

abbrev auth_part : Part Databases Tables
auth_part = record { read = λ d. d.auth; write = λ t d. record d { auth = t } }

abbrev app_part : Part Databases ProfileTable
app_part = record { read = λ d. d.app; write = λ t d. record d { app = t } }

abbrev databases : World Databases
databases = record {
  db = record { auth = one_user.db; app = record { user_profiles = [] } };
  tick = 10;
}

-- alice asks for her profile.
abbrev request : HttpRequest
request = record {
  method = get;
  path = "/api/v1/user";
  parts = record { extension = none; authorization = some (text "Bearer token") };
  x_request_id = some (text "7");
  body = record { content_type = none; bytes = "" };
}

assemble-user_example :
    (router : SampleRouter Databases) × (and_then
        (app_routes sample (sample_axum Databases) app_part)
        (assemble sample (sample_axum Databases) auth_part config)
      ≡ ok router)
    × Answered (sample-RouterLaws Databases) router request databases (
        stamp
          (on_part app_part (user_response sample config request.parts))
          (identified sample request databases))
assemble-user_example =
    assemble-user sample (sample_axum Databases) auth_part app_part (sample-RouterLaws Databases)
      (sample-TowerLaws Databases) config request databases refl refl

abbrev args : Args
args = record { auth_db = "./auth.db"; data_db = "./data.db"; log_dir = "./logs" }

abbrev fresh : Process
fresh = record { subscriber = none; hook = standard_hook; logger = false }

-- The port of an address.
abbrev port : ℕ → ℕ → ℕ → ℕ → ℕ → ℕ
port a b c d p = p

main-Ended_example :
    Ended sample
      (sample_axum Databases)
      (sample-RouterLaws Databases)
      sample_tracing
      sample-TracingLaws
      port
      auth_part
      app_part
      args
      fresh
      (main sample
        (sample_axum Databases)
        sample_tracing
        port
        auth_part
        app_part
        args
        fresh
        databases)
main-Ended_example =
    main-Ended sample (sample_axum Databases) (sample-RouterLaws Databases) sample_tracing
      sample-TracingLaws port auth_part app_part args fresh (sample-log_logger fresh) databases
