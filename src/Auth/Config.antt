-- ===== src/Auth/Config.antt =====
-- src/auth/core.rs: `AuthConfig`, its default lifetimes and its setters.
use servir.Prelude.{ℕ, String}

pub record AuthConfig : Type 0 where
  pub secret : String
  pub access_token_ttl_secs : ℕ
  pub refresh_token_ttl_secs : ℕ

-- `AuthConfig::new`
abbrev pub new : String → AuthConfig
new secret = record {
  secret = secret;
  access_token_ttl_secs = 900;
  refresh_token_ttl_secs = 604_800;
}

abbrev pub with_defaults : AuthConfig
with_defaults = record {
  secret = "";
  access_token_ttl_secs = 900;
  refresh_token_ttl_secs = 604_800;
}

abbrev pub set_access_token_ttl : ℕ → AuthConfig → AuthConfig
set_access_token_ttl secs c = record c { access_token_ttl_secs = secs }

abbrev pub set_refresh_token_ttl : ℕ → AuthConfig → AuthConfig
set_refresh_token_ttl secs c = record c { refresh_token_ttl_secs = secs }

abbrev pub set_secret : String → AuthConfig → AuthConfig
set_secret secret c = record c { secret = secret }
