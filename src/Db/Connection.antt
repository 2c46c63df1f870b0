-- ===== src/Db/Connection.antt =====
-- src/db/mod.rs: opening the pool and running the migrations. The tables of a database are those of its
-- file, which the migrations create where they are missing, without rows.
use servir.Prelude.{String, map_err, ok}
use servir.System.{System}
use servir.System.Actions.{Action, lift, map_error, execute, ◌>>◌, Statement}
use servir.Error.Kinds.{ServirError}
use servir.Error.Db
use servir.Db.Schema.{Tables}

-- A call to SQLite that leaves the rows.
abbrev pub no_rows : Statement Tables (Unit {0})
no_rows t = ok (tt, t)

module _ (sys : System) where
  -- `Db::connect`
  unfoldable pub connect : String → Action Tables ServirError (Unit {0})
  connect url = do
    lift (map_err (Db.connection url) (sys.parse_url url))
    map_error (λ e. Db.connection url e.text) (execute sys no_rows)

  -- `Db::migrate_auth`, without the query of the version, which is for the log only.
  unfoldable pub migrate_auth : Action Tables ServirError (Unit {0})
  migrate_auth = map_error (λ e. Db.migration e.text) (execute sys no_rows)
