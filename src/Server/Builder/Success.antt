-- ===== src/Server/Builder/Success.antt =====
-- src/server.rs, src/db/auth.rs: when loading the secret and building the server succeed.
use servir.System.{System}
use servir.Error.Db
use servir.Server.Axum.{Axum}
