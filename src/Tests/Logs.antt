-- ===== src/Tests/Logs.antt =====
-- The theorem on logging at a concrete input.
use servir.Prelude.{false, none}
use servir.Server.Telemetry.{init_logging}
use servir.Server.Telemetry.Logging.{Outcome, init_logging-Outcome}
use servir.Server.Telemetry.Sample.{Process, standard_hook, sample_tracing, sample-TracingLaws}

abbrev fresh : Process
fresh = record { subscriber = none; hook = standard_hook; logger = false }

init_logging-Outcome_example :
    Outcome sample_tracing sample-TracingLaws "./data/logs" "echo-server" fresh
      (init_logging sample_tracing "./data/logs" "echo-server" fresh)
init_logging-Outcome_example =
    init_logging-Outcome sample_tracing sample-TracingLaws "./data/logs" "echo-server" fresh
