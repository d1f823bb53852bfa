-- ===== src/Db/Migrations/Connection.antt =====
-- The database that backend/src/db/migrationRunner.ts migrates: SQLite behind the injected client.
-- A call may throw in place of its statement, which then changes nothing. Statements of migrations
-- act on the database less the table schema_migrations, and do not control transactions.
use onetrackmind.Common.{
  ℕ, suc, List, [], ◌∷◌, ◌++◌, Option, none, some, Text, text, nat_beq, if◌then◌else◌,
}
use onetrackmind.Common.Results.{Thrown, Throws, returns, throws, ◌>>=◌, sqlite_error, unless_fault}

-- A row of schema_migrations.
pub record AppliedRow : Type 0 where
  pub version : ℕ
  pub name : Text
  pub applied_at : Text

pub record Database (S : Type 0) : Type 0 where
  pub content : S
  pub tracker : Option (List AppliedRow)

pub record Connection (S : Type 0) : Type 0 where
  pub committed : Database S
  pub transaction : Option (Database S)
  pub calls : ℕ

-- What a call throws, and when it is made, by the number of the calls before it.
pub record Client (S : Type 0) : Type 0 where
  pub fault : ℕ → Option Thrown
  pub now : ℕ → ℕ
  pub exec : Text → S → Throws Thrown S

abbrev pub row_name : AppliedRow → ℕ → Option Text → Option Text
row_name row version (some name) = some name
row_name row version none = if nat_beq row.version version then some row.name else none

-- `new Map(rows.map((r) => [r.version, r.name])).get(version)`: the last row of a version counts.
unfoldable pub tracked_name : List AppliedRow → ℕ → Option Text
tracked_name [] version = none
tracked_name (row ∷ rows) version = row_name row version (tracked_name rows version)

abbrev pub tracker_rows : Option (List AppliedRow) → List AppliedRow
tracker_rows none = []
tracker_rows (some rows) = rows

module _ {S : Type 0} where
  abbrev concluded :
      Throws Thrown (Connection S) → Connection S → Throws Thrown (Unit {0}) × Connection S
  concluded (returns after) before = (returns tt, after)
  concluded (throws e) before = (throws e, before)

  -- `client.run`
  unfoldable pub call :
      Client S
      → (Connection S → Throws Thrown (Connection S))
      → Connection S
      → Throws Thrown (Unit {0}) × Connection S
  call client statement conn =
      let counted = record conn { calls = suc conn.calls } in
      concluded (unless_fault (client.fault conn.calls) (statement counted)) counted

  abbrev pub begin : Connection S → Throws Thrown (Connection S)
  begin conn = elim conn.transaction [
    | none ↦ returns (record conn { transaction = some conn.committed })
    | some db ↦ throws (sqlite_error (text "cannot start a transaction within a transaction"))
  ]

  abbrev pub commit : Connection S → Throws Thrown (Connection S)
  commit conn = elim conn.transaction [
    | none ↦ throws (sqlite_error (text "cannot commit - no transaction is active"))
    | some db ↦ returns (record conn { committed = db; transaction = none })
  ]

  abbrev pub rollback : Connection S → Throws Thrown (Connection S)
  rollback conn = elim conn.transaction [
    | none ↦ throws (sqlite_error (text "cannot rollback - no transaction is active"))
    | some db ↦ returns (record conn { transaction = none })
  ]

  -- A statement acts on the open transaction, and commits itself where there is none.
  abbrev pub on_database :
      (Database S → Throws Thrown (Database S)) → Connection S → Throws Thrown (Connection S)
  on_database change conn = elim conn.transaction [
    | none ↦ do db ← change conn.committed; returns (record conn { committed = db })
    | some open_db ↦ do db ← change open_db; returns (record conn { transaction = some db })
  ]

  -- What a query reads.
  abbrev pub view : Connection S → Database S
  view conn = elim conn.transaction [ none ↦ conn.committed | some db ↦ db ]

  abbrev pub rows_of : Database S → List AppliedRow
  rows_of db = tracker_rows db.tracker

  -- `CREATE TABLE IF NOT EXISTS schema_migrations`
  abbrev pub with_tracker : Database S → Database S
  with_tracker db = record db { tracker = some (rows_of db) }

  -- `INSERT INTO schema_migrations (version, name, applied_at)`, on a primary key
  abbrev pub insert_row : AppliedRow → Database S → Throws Thrown (Database S)
  insert_row row db = elim db.tracker [
    | none ↦ throws (sqlite_error (text "no such table: schema_migrations"))
    | some rows ↦ elim (tracked_name rows row.version) [
      | some name ↦
          throws (sqlite_error (text "UNIQUE constraint failed: schema_migrations.version"))
      | none ↦ returns (record db { tracker = some (rows ++ row ∷ []) })
    ]
  ]

  -- A statement of a migration.
  abbrev pub execute : Client S → Text → Database S → Throws Thrown (Database S)
  execute client statement db = do
    content ← client.exec statement db.content
    returns (record db { content = content })
