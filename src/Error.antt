-- ===== src/Error.antt =====
-- src/error.rs: the structured errors and their mapping to HTTP. `Context` is the error context,
-- `Kinds` the error types, `Info` the trait `ErrorInfo` with `Display`. `Db`, `AuthUser`, `AuthToken`
-- and `Servir` implement the trait for one type each, and hold its constructor functions.
-- `Variants`, `Statuses` and `Contexts` prove what clients can rely on.
pub mod Context
pub mod Kinds
pub mod Info
pub mod Db
pub mod AuthUser
pub mod AuthToken
pub mod Servir
pub mod Variants
pub mod Statuses
pub mod Contexts
