-- ===== src/Server/Telemetry/Logging.antt =====
-- src/server.rs: what is installed after `init_logging`, and what later calls of `init_tracing` do.
use servir.Prelude.{
  append, ◌∷◌, String, Bool, true, false, Bool-cases, ◌⊎◌, ◌≡◌, refl, sym, ◌∙◌, ap, Option, none,
  some, Option-cases, inl, inr, Result, ok, err,
}
use servir.Server.Telemetry.{
  registry, PanicInfo, error_event, message_of, location_of, env_filter, Tracing, Subscriber, Hook,
  init_tracing, init_logging, subscriber, panic_hook, forward_panics, initialized, opened, logged,
}

module _ {Global Guard : Type 0} where
  -- A subscriber is installed once; `try_init` then sets the logger of the crate `log`, and fails where
  -- there is one, with the subscriber installed. Making a directory does neither; the hooks are apart.
  pub record TracingLaws (tracing : Tracing Global Guard) : Type 0 where
    pub installed : Global → Option Subscriber
    pub hook : Global → Hook
    pub log_logger : Global → Bool
    pub try_init_first :
        (s : Subscriber) (g : Global)
        → installed g ≡ none
        → log_logger g ≡ false
        → (g' : Global) × (tracing.try_init s g ≡ (ok tt, g'))
          × (installed g' ≡ some s)
          × (hook g' ≡ hook g)
    pub try_init_logger :
        (s : Subscriber) (g : Global)
        → installed g ≡ none
        → log_logger g ≡ true
        → (e : String) × (g' : Global) × (tracing.try_init s g ≡ (err e, g'))
          × (installed g' ≡ some s)
          × (hook g' ≡ hook g)
    pub try_init_again :
        (s s' : Subscriber) (g : Global)
        → installed g ≡ some s'
        → (e : String) × (tracing.try_init s g ≡ (err e, g))
    pub create_dir_all_apart :
        (path : String) (g g' : Global)
        → tracing.create_dir_all path g ≡ ok g'
        → (installed g' ≡ installed g) × (hook g' ≡ hook g) × (log_logger g' ≡ log_logger g)
    pub take_hook_taken :
        (g : Global)
        → ((tracing.take_hook g).0 ≡ hook g) × (installed (tracing.take_hook g).1 ≡ installed g)
    pub set_hook_set :
        (h : Hook) (g : Global)
        → (hook (tracing.set_hook h g) ≡ h) × (installed (tracing.set_hook h g) ≡ installed g)

  module _ (tracing : Tracing Global Guard) (laws : TracingLaws tracing) where
    -- Where a subscriber is installed, `init_tracing` does nothing.
    pub init_tracing_again :
        (name : String) (s : Subscriber) (g : Global)
        → laws.installed g ≡ some s
        → init_tracing tracing name g ≡ g
    unfolding init_tracing
    init_tracing_again name s g there =
        let (e, failed) = laws.try_init_again _ s g there in ap (λ o. o.1) failed

    -- The subscriber and the hook of the logging are there, over the hook before, and calls of
    -- `init_tracing` change nothing.
    pub record IsLogging (log_dir service_name : String) (g g' : Global) : Type 0 where
      pub first : laws.installed g ≡ none
      pub subscribed :
          laws.installed g'
          ≡ some (
              registry
                (env_filter tracing service_name)
                tracing.is_terminal
                (record { directory = log_dir; prefix = append service_name ".log" }))
      pub hooked :
          (info : PanicInfo)
          → laws.hook g' info
            ≡ error_event (message_of tracing info.payload) (location_of tracing info.location)
              ∷ laws.hook g info
      pub stays : (name : String) → init_tracing tracing name g' ≡ g'

    -- A panic leaves the subscriber; but where there was none, and a logger of the crate `log`, it leaves
    -- the new one.
    abbrev pub IsLeft : String → String → Global → Global → Type 0
    IsLeft log_dir service_name g g' =
        (laws.installed g' ≡ laws.installed g)
        ⊎ ((laws.log_logger g ≡ true)
            × (laws.installed g ≡ none)
            × (laws.installed g' ≡ some (subscriber tracing log_dir service_name)))

    -- What holds after `init_logging`.
    abbrev pub Outcome : String → String → Global → Result String Guard × Global → Type 0
    Outcome log_dir service_name g (ok guard, g') = IsLogging log_dir service_name g g'
    Outcome log_dir service_name g (err e, g') =
        IsLeft log_dir service_name g g' × (laws.hook g' ≡ laws.hook g)

    module _ (log_dir service_name : String) (g : Global) where
      -- The hook is set on the state in which the subscriber was installed.
      forwarded :
          (g₂ : Global)
          → laws.installed g ≡ none
          → laws.installed g₂ ≡ some (subscriber tracing log_dir service_name)
          → laws.hook g₂ ≡ laws.hook g
          → IsLogging log_dir service_name g (forward_panics tracing g₂)
      forwarded g₂ first subscribed hook =
          let (taken, apart) = laws.take_hook_taken g₂ in
          let (set, apart') =
            laws.set_hook_set (panic_hook tracing (tracing.take_hook g₂).0)
              (tracing.take_hook g₂).1 in
          let there = apart' ∙ apart ∙ subscribed in
          record {
            first = first;
            subscribed = there;
            hooked = λ info. ap (λ h. h info) (set ∙ ap (panic_hook tracing) (taken ∙ hook));
            stays = λ name. init_tracing_again name _ _ there;
          }

      initialized_lem :
          (g₁ : Global)
          → laws.installed g₁ ≡ laws.installed g
          → laws.hook g₁ ≡ laws.hook g
          → laws.log_logger g₁ ≡ laws.log_logger g
          → Outcome log_dir service_name g (
              initialized tracing log_dir service_name
                (tracing.try_init (subscriber tracing log_dir service_name) g₁))
      initialized_lem g₁ same hook logger = elim (Option-cases (laws.installed g₁)) [
        | inr (s, there) ↦
            let (e, failed) =
              laws.try_init_again (subscriber tracing log_dir service_name) s g₁ there in
            rw failed (inl same, hook)
        | inl free ↦ elim (Bool-cases (laws.log_logger g₁)) [
          | inr none_set ↦
              let (g₂, done, subscribed, hook') =
                laws.try_init_first (subscriber tracing log_dir service_name) g₁ free none_set in
              rw done (forwarded g₂ (sym same ∙ free) subscribed (hook' ∙ hook))
          | inl set ↦
              let (e, g₂, failed, subscribed, hook') =
                laws.try_init_logger (subscriber tracing log_dir service_name) g₁ free set in
              rw failed (inr (sym logger ∙ set, sym same ∙ free, subscribed), hook' ∙ hook)
        ]
      ]

      opened_lem :
          (g₁ : Global) (r : Result String (Unit {0}))
          → laws.installed g₁ ≡ laws.installed g
          → laws.hook g₁ ≡ laws.hook g
          → laws.log_logger g₁ ≡ laws.log_logger g
          → Outcome log_dir service_name g (opened tracing log_dir service_name g₁ r)
      opened_lem g₁ (err e) same hook logger = (inl same, hook)
      opened_lem g₁ (ok done) same hook logger = initialized_lem g₁ same hook logger

      -- `init_logging` that returns found no subscriber, and leaves its own and a panic hook that reports
      -- the payload and the location before it does what the hook before did; later calls of
      -- `init_tracing` change nothing. One that panics leaves the hook as it was, and the subscriber too;
      -- but where there was none, and the crate `log` had a logger, it may leave its own subscriber. The
      -- tracing crates and the standard library behave as documented.
      pub init_logging-Outcome :
          Outcome log_dir service_name g (init_logging tracing log_dir service_name g)
      unfolding init_logging
      init_logging-Outcome = go (tracing.create_dir_all log_dir g) refl
        where
          go :
              (r : Result String Global)
              → tracing.create_dir_all log_dir g ≡ r
              → Outcome log_dir service_name g (logged tracing log_dir service_name g r)
          go (err e) made = (inl refl, refl)
          go (ok g₁) made =
              let (same, hook, logger) = laws.create_dir_all_apart log_dir g g₁ made in
              opened_lem g₁ (tracing.rolling_daily _ g₁) same hook logger
