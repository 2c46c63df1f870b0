-- ===== src/Async.antt =====
-- src/auth/http.rs, src/auth/core.rs, src/db/auth.rs: the `async` functions at the granularity at which
-- they interleave. `Proc` is a function between its calls, `Parts` the functions that the handlers call,
-- `Handlers` the handlers and the routes, and `Pool` any number of requests over one database. `Moves`,
-- `Kept`, `Safe`, `Consistent` and `Invariant` are about the tables under every interleaving, and `Race`,
-- `Prize`, `Removal`, `Refresh` and `Register` about two requests that want the same row.
pub mod Proc
pub mod Parts
pub mod Handlers
pub mod Pool
pub mod Moves
pub mod Kept
pub mod Safe
pub mod Consistent
pub mod Invariant
pub mod Race
pub mod Prize
pub mod Removal
pub mod Refresh
pub mod Register
