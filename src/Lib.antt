-- ===== src/Lib.antt =====
-- servir, a Rust library for HTTP servers, with user authentication on SQLite. Its parts: handlers answer
-- `ApiResponse` or `ServirError`; the auth handlers call the auth core, for passwords and tokens, and the
-- repository, for users and refresh tokens; the extractor `AuthUser` guards a route with an access token.
--
-- Error.*, src/error.rs: `DbError`, `AuthUserError`, `AuthTokenError` and `ServirError` are the data types of
-- Error.Kinds; Error.Db, Error.AuthUser, Error.AuthToken and Error.Servir hold their constructor functions and
-- their `ErrorInfo`; Error.Context is `ErrorContext` with its `Serialize`, over the JSON of Json.
-- Response, src/response.rs: `ApiResponse`, its conversions and `IntoResponse`.
-- Auth.Claims, Auth.Config, Auth.Password, Auth.Token, src/auth/core.rs: `hash_password`, `verify_password`,
-- `issue_access_token`, `issue_refresh_token` and `verify_token` under the names of the source.
-- Auth.Extractor, Auth.Http, Auth.Service, src/auth/http.rs: `call_layer` is `AuthService::call`, `auth_user`
-- is `AuthUser::from_request_parts`; the handlers `register`, `login`, `refresh`, `logout` and `me`; `serve` is
-- the routes of `mount_auth_routes` as one function from a request and a world to a response and a world.
-- The last statements of `register`, `login` and `refresh` are the same, and are `issue_tokens`.
-- Db.Schema, Db.Repository, src/db/auth.rs and src/db/migrations: the tables as lists of rows, the newest
-- first, the SQL statements with their constraints, and the operations of `AuthRepository`. Db.History is the
-- specification: the steps by which a request may change the tables.
-- Db.Contract, src/db/auth.rs: the trait `AuthRepository` and what it promises, over a registry of users and
-- sessions; Db.Contract.Sqlite is `impl AuthRepository for Db`.
-- Db.Connection, src/db/mod.rs: `connect` and `migrate_auth`.
-- Auth.Routes, src/auth/http.rs: `mount_auth_routes`, with the handlers as endpoints of HTTP messages.
-- Server.AppJson, Server.Middleware, Server.Builder, src/server.rs: the extractor of request bodies;
-- `standard_middleware`; `ServerBuilder` with `build`, and `serve`, with the features `auth` and `telemetry`.
-- A panic is a result beside the errors. Server.Axum is a parameter `Axum` for the types and calls of axum,
-- tower and tokio, where a panic over routes that overlap is the error of a result; Server.Axum.Laws states
-- the documented behaviour of routers and layers, and Server.Axum.Sample is a concrete one that has all of it.
-- Server.Telemetry, src/server.rs: `init_tracing` and `init_logging` on the state of the process, over a
-- parameter `Tracing`, whose `try_init` may set the subscriber and still fail.
-- Consumer, consumer/src/lib.rs and consumer/src/db/mod.rs: the example server's profile
-- table, `connect`, `migrate`, and its handler. Consumer.App is `app_routes`. Consumer.Main,
-- consumer/src/main.rs: `main`, over the state of the process and both databases; a `Part` is a database among
-- those of a process. `build` is a function on the auth database alone; its call of `init_tracing` stands in
-- `main`, beside it.
--
-- State. A `World` is the database and a tick. An `async fn` is an `Action`: it maps a world to a result and a
-- world, and what it wrote before an error stays written. Each call to the clock, to a source of randomness or
-- to SQLite takes the next tick. `System` holds what the program calls and does not implement, as functions of
-- the tick: the clock, UUIDs, salts, random bytes, faults of SQLite, Argon2 and JSON web tokens. Ticks count
-- over all the time that the database is in use. System.Laws states the documented behaviour that some
-- theorems rely on; System.Sample is a concrete system that has all of it.
--
-- Concurrency. Auth.Http and the theorems under Auth.* run requests one after another. Async.Proc is an `async
-- fn` between its calls: a process has its result, or makes one atomic call and goes on. Async.Parts and
-- Async.Handlers are the functions of src/auth/core.rs, src/db/auth.rs and src/auth/http.rs as processes,
-- under the same names, each translated from the source on its own. Async.Pool is any number of requests over
-- one world, of which one makes its next call at each turn; a request whose turn has not come has not arrived.
-- The order of the turns is an argument, a list, and the requests are a function of their number.
--
-- Machine integers: `now + ttl` is taken modulo 2^64 as `usize`, and wraps at 2^63 as `i64`, as in a release
-- build. There is no fuel: no function of the modelled parts loops, and the number of turns is the length of a
-- list.
--
-- Not modelled: events and spans of tracing; what the listener does; a path with another method than its
-- route's, which axum answers itself; the parsing of the command line of consumer/src/main.rs. A crash in the
-- middle of a request and the parsing of JSON bodies by axum are outside the model: a request comes with its
-- parsed body or the text of the rejection.
pub mod Prelude
pub mod Json
pub mod Error
pub mod Response
pub mod System
pub mod Sql
pub mod Auth
pub mod Db
pub mod Server
pub mod Async
pub mod Consumer
mod Tests
