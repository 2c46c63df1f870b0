-- ===== src/Db.antt =====
-- src/db: `Schema` is the tables of src/db/migrations with the statements that run on them,
-- `Repository` the implementation of `AuthRepository`. `History` is the specification of what a
-- request may do to the tables, and `Refines` shows that the repository keeps to it. `Validity` and
-- `Persistence` are invariants of histories, `Secret` is about the signing secret, and `Connection` is
-- src/db/mod.rs.
pub mod Schema
pub mod Repository
pub mod History
pub mod Refines
pub mod Contract
pub mod Validity
pub mod Persistence
pub mod Secret
pub mod Connection
