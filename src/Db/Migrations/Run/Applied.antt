-- ===== src/Db/Migrations/Run/Applied.antt =====
-- What a migration is meant to do, and what a run has done of the pending ones.
use onetrackmind.Common.{List, [], ◌∷◌, none, some, Text, ◌≡◌}
use onetrackmind.Common.Results.{Thrown, Throws, returns, ◌>>=◌}
use onetrackmind.Db.Migrations.Split.{split_sql_statements}
use onetrackmind.Db.Migrations.Load.{MigrationFile}
use onetrackmind.Db.Migrations.Connection.{
  AppliedRow, Database, Client, tracked_name, insert_row, execute,
}

abbrev pub row_at : MigrationFile → Text → AppliedRow
row_at m at = record { version = m.version; name = m.name; applied_at = at }

module _ {S : Type 0} (client : Client S) where
  -- Every statement in order, then the row of the version.
  unfoldable pub execute_all : List Text → Database S → Throws Thrown (Database S)
  execute_all [] db = returns db
  execute_all (statement ∷ statements) db = execute client statement db >>= execute_all statements

  abbrev pub migrated : MigrationFile → Text → Database S → Throws Thrown (Database S)
  migrated m at db = execute_all (split_sql_statements m.sql) db >>= insert_row (row_at m at)

  -- The migrations at their times lead from one database to another, each in full.
  abbrev pub Ran : Database S → List (MigrationFile × Text) → Database S → Type 0
  Ran db [] last = db ≡ last
  Ran db ((m, at) ∷ steps) last =
      (next : Database S) × (migrated m at db ≡ returns next) × Ran next steps last

-- The migrations of versions that are not tracked.
unfoldable pub pending : List AppliedRow → List MigrationFile → List MigrationFile
pending rows [] = []
pending rows (m ∷ ms) = elim (tracked_name rows m.version) [
  | some name ↦ pending rows ms
  | none ↦ m ∷ pending rows ms
]
