-- ===== src/Tests/Tables.antt =====
-- The theorems on the operations of the repository at concrete inputs.
use servir.Db.Contract.{Promises}
use servir.Db.Contract.Sqlite.{view, db_repository, db_repository-Promises}
use servir.Db.Validity.{IsValid}
use servir.System.Sample.{sample}
use servir.Db.History.{here, next, elapsed, later, History}
use servir.System.Actions.{World}
use servir.Db.Schema.{Tables}
use servir.Tests.Data.{one_user}

-- The world one call later, at which the call has drawn an ID.
abbrev one_call : World Tables
one_call = later one_user

abbrev one_elapsed : History sample one_user one_call
one_elapsed = next here elapsed

db_repository-Promises_example : Promises sample view IsValid (db_repository sample)
db_repository-Promises_example = db_repository-Promises sample
