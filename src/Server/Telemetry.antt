-- ===== src/Server/Telemetry.antt =====
-- src/server.rs: `init_tracing` and `init_logging`. What they call of the tracing crates and of the standard
-- library is the parameter `Tracing`, over the process's global state, in which the subscriber and the
-- panic hook are. A panic is the error of a result. `Logging` is what `init_logging` sets up.
pub mod Logging
pub mod Sample
use servir.Prelude.{ℕ, String, append, Bool, List, ◌∷◌, Option, none, some, Result, ok, err}

-- `rolling::daily(directory, prefix)`
pub record DailyFile : Type 0 where
  pub directory : String
  pub prefix : String

-- What is installed: `fmt()`, or the registry with a layer for stdout and one for the file.
pub data Subscriber : Type 0 where
  formatted : (filter : String) → Subscriber
  registry : (filter : String) (ansi : Bool) (file : DailyFile) → Subscriber

-- A panic's payload: a `&str`, a `String`, or anything else.
pub data Payload : Type 0 where
  static_text owned_text : String → Payload
  other : Payload

pub record Location : Type 0 where
  pub file : String
  pub line : ℕ
  pub column : ℕ

pub record PanicInfo : Type 0 where
  pub payload : Payload
  pub location : Option Location

-- What a panic hook does: an event of `tracing::error!` with its fields, or a text on stderr.
pub data Report : Type 0 where
  error_event : (message location : String) → Report
  printed : String → Report

abbrev pub Hook : Type 0
Hook = PanicInfo → List Report

pub record Tracing (Global Guard : Type 0) : Type 0 where
  -- `EnvFilter::try_from_default_env()`, where `RUST_LOG` is a filter
  pub default_env : Option String
  pub is_terminal : Bool
  -- `fs::create_dir_all`, or the error's text
  pub create_dir_all : String → Global → Result String Global
  -- `rolling::daily` opens the first file, or panics with this text
  pub rolling_daily : DailyFile → Global → Result String (Unit {0})
  -- `tracing_appender::non_blocking` of a file
  pub non_blocking : DailyFile → Guard
  -- `try_init()`: whether it succeeded, or the error's text, and the state after it; `init()` panics
  -- with the error
  pub try_init : Subscriber → Global → Result String (Unit {0}) × Global
  pub take_hook : Global → Hook × Global
  pub set_hook : Hook → Global → Global
  -- `Display` of a `u32`
  pub decimal : ℕ → String

module _ {Global Guard : Type 0} (tracing : Tracing Global Guard) where
  abbrev pub env_filter : String → String
  env_filter service_name = elim tracing.default_env [
    | some filter ↦ filter
    | none ↦ append service_name "=debug,servir=debug,tower_http=debug"
  ]

  unfoldable pub init_tracing : String → Global → Global
  init_tracing service_name g = (tracing.try_init (formatted (env_filter service_name)) g).1

  -- The payload's text.
  abbrev pub message_of : Payload → String
  message_of (static_text s) = s
  message_of (owned_text s) = s
  message_of other = "unknown panic"

  abbrev pub location_of : Option Location → String
  location_of none = ""
  location_of (some l) =
      append l.file
        (append ":" (append (tracing.decimal l.line) (append ":" (tracing.decimal l.column))))

  -- The hook that `init_logging` sets over the one before.
  abbrev pub panic_hook : Hook → Hook
  panic_hook default_hook info =
      error_event (message_of info.payload) (location_of info.location) ∷ default_hook info

  -- The file and the subscriber.
  abbrev pub log_file : String → String → DailyFile
  log_file log_dir service_name = record {
    directory = log_dir;
    prefix = append service_name ".log";
  }

  abbrev pub subscriber : String → String → Subscriber
  subscriber log_dir service_name =
      registry (env_filter service_name) tracing.is_terminal (log_file log_dir service_name)

  abbrev pub forward_panics : Global → Global
  forward_panics g =
      let (default_hook, g') = tracing.take_hook g in tracing.set_hook (panic_hook default_hook) g'

  -- After `init()`, whose panic leaves what it did before it.
  abbrev pub initialized :
      String → String → Result String (Unit {0}) × Global → Result String Guard × Global
  initialized log_dir service_name (ok done, g) =
      (ok (tracing.non_blocking (log_file log_dir service_name)), forward_panics g)
  initialized log_dir service_name (err e, g) = (err e, g)

  -- After the file was opened.
  abbrev pub opened :
      String → String → Global → Result String (Unit {0}) → Result String Guard × Global
  opened log_dir service_name g (ok done) =
      initialized log_dir service_name (tracing.try_init (subscriber log_dir service_name) g)
  opened log_dir service_name g (err e) = (err e, g)

  -- After the directory was made.
  abbrev pub logged : String → String → Global → Result String Global → Result String Guard × Global
  logged log_dir service_name g (ok g') =
      opened log_dir service_name g' (tracing.rolling_daily (log_file log_dir service_name) g')
  logged log_dir service_name g (err e) = (err "failed to create log directory", g)

  unfoldable pub init_logging : String → String → Global → Result String Guard × Global
  init_logging log_dir service_name g =
      logged log_dir service_name g (tracing.create_dir_all log_dir g)
