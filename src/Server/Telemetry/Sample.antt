-- ===== src/Server/Telemetry/Sample.antt =====
-- A concrete process state, with the tracing crates and the standard library as documented.
use servir.Prelude.{
  Bool, true, ℕ, zero, suc, String, append, ◌≡◌, refl, ap, sym, eq_of_ok, false, Option, none, some,
  Result, ok, err, ◌∷◌, [],
}
use servir.Server.Telemetry.{Tracing, Subscriber, Hook, DailyFile, printed}
use servir.Server.Telemetry.Logging.{TracingLaws}

pub record Process : Type 0 where
  pub subscriber : Option Subscriber
  pub hook : Hook
  -- whether the crate `log` has a logger
  pub logger : Bool

-- The hook of the standard library.
abbrev pub standard_hook : Hook
standard_hook info = printed "thread panicked" ∷ []

abbrev installing :
    Option Subscriber → Bool → Subscriber → Process → Result String (Unit {0}) × Process
installing none false s g = (ok tt, record g { subscriber = some s; logger = true })
installing none true s g = (
  err "attempted to set a logger after the logging system was already initialized",
  record g { subscriber = some s },
)
installing (some s') b s g = (err "a global default trace dispatcher has already been set", g)

abbrev strokes : ℕ → String
strokes zero = ""
strokes (suc n) = append "|" (strokes n)

unfoldable pub sample_tracing : Tracing Process DailyFile
sample_tracing = record {
  default_env = none;
  is_terminal = false;
  create_dir_all = λ path g. ok g;
  rolling_daily = λ file g. ok tt;
  non_blocking = λ file. file;
  try_init = λ s g. installing g.subscriber g.logger s g;
  take_hook = λ g. (g.hook, record g { hook = standard_hook });
  set_hook = λ h g. record g { hook = h };
  decimal = strokes;
}

pub sample-TracingLaws : TracingLaws sample_tracing
unfolding sample_tracing
sample-TracingLaws = record {
  installed = λ g. g.subscriber;
  hook = λ g. g.hook;
  log_logger = λ g. g.logger;
  try_init_first = λ s g free unset.
      (record g { subscriber = some s; logger = true }, rw (free, unset) refl, refl, refl);
  try_init_logger = λ s g free set. (
    "attempted to set a logger after the logging system was already initialized",
    record g { subscriber = some s },
    rw (free, set) refl,
    refl,
    refl,
  );
  try_init_again = λ s s' g there. (_, ap (λ o. installing o g.logger s g) there);
  create_dir_all_apart = λ path g g' made. (
    ap (λ g. g.subscriber) (eq_of_ok g' g (sym made)),
    ap (λ g. g.hook) (eq_of_ok g' g (sym made)),
    ap (λ g. g.logger) (eq_of_ok g' g (sym made)),
  );
  take_hook_taken = λ g. (refl, refl);
  set_hook_set = λ h g. (refl, refl);
}

pub sample-log_logger : (g : Process) → sample-TracingLaws.log_logger g ≡ g.logger
unfolding sample_tracing sample-TracingLaws
sample-log_logger g = refl
