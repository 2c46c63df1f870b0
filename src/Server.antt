-- ===== src/Server.antt =====
-- src/server.rs: `AppJson` is the extractor of request bodies, `Builder` the builder of servers.
pub mod AppJson
pub mod Axum
pub mod Middleware
pub mod Telemetry
pub mod Builder
