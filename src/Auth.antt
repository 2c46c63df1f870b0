-- ===== src/Auth.antt =====
-- src/auth: `Claims`, `Config`, `Password` and `Token` are src/auth/core.rs; `Extractor` and `Http`
-- are src/auth/http.rs, and `Service` its routes as one server. `Refines` proves what issuing and
-- verifying a token do.
pub mod Claims
pub mod Config
pub mod Password
pub mod Token
pub mod Extractor
pub mod Refines
pub mod Http
pub mod Service
pub mod Routes
