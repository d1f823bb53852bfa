-- ===== src/Db/Migrations/Run.antt =====
-- backend/src/db/migrationRunner.ts: the runner.
pub mod Applied
pub mod Outcome
pub mod Loop
pub mod Tracked
pub mod Whole
pub mod Total
pub mod Directory
use onetrackmind.Common.{
  ℕ, suc, ◌+◌, true, false, List, [], ◌∷◌, ◌++◌, Option, none, some, Text, Text-Eq, text, ◌==◌,
  length, ltb, if◌then◌else◌,
}
use onetrackmind.Common.Results.{Thrown, Throws, returns, throws, error_message_of}
use onetrackmind.Runtime.Date.{to_iso_string}
use onetrackmind.Runtime.Decimal.{decimal}
use onetrackmind.Runtime.Files.{Files}
use onetrackmind.Db.Migrations.Split.{split_sql_statements}
use onetrackmind.Db.Migrations.Load.{
  LoadCause, dir_not_found, dir_unreadable, invalid_filename, duplicate_version, read_error,
  LoadFailure, MigrationFile, load_migrations_from_dir,
}
use onetrackmind.Db.Migrations.Connection.{
  AppliedRow, Database, Connection, Client, call, begin, commit, rollback, on_database, view,
  rows_of, with_tracker, tracked_name, insert_row, execute,
}

pub record AppliedMigration : Type 0 where
  pub version : ℕ
  pub name : Text

pub data RunCause : Type 0 where
  load_error tracker_error drift_error apply_error : RunCause

pub record RunFailure : Type 0 where
  pub cause : RunCause
  pub detail : Text
  pub migration : Option AppliedMigration

pub record RunSuccess : Type 0 where
  pub applied : List AppliedMigration
  pub skipped_count : ℕ

abbrev pub applied_migration : MigrationFile → AppliedMigration
applied_migration m = record { version = m.version; name = m.name }

-- `version` and `migrationName` are set together.
abbrev pub fail_apply : MigrationFile → Text → RunFailure
fail_apply m detail = record {
  cause = apply_error;
  detail = detail;
  migration = some (applied_migration m);
}

abbrev drift : MigrationFile → Text → RunFailure
drift m tracked = record {
  cause = drift_error;
  detail =
      text "applied version "
      ++ (decimal m.version
          ++ (text " is recorded as '"
              ++ (tracked
                  ++ (text "' but the migration file is named '"
                      ++ (m.name ++ text "' — applied migrations must not be renamed")))));
  migration = some (applied_migration m);
}

abbrev cause_text : LoadCause → Text
cause_text dir_not_found = text "dir_not_found"
cause_text dir_unreadable = text "dir_unreadable"
cause_text invalid_filename = text "invalid_filename"
cause_text duplicate_version = text "duplicate_version"
cause_text read_error = text "read_error"

abbrev pub stage : ℕ → ℕ → Text
stage index total =
    if ltb index total
    then text "statement " ++ (decimal (index + 1) ++ (text "/" ++ decimal total))
    else text "version recording/commit"

abbrev pub load_run_failure : LoadFailure → RunFailure
load_run_failure failure = record {
  cause = load_error;
  detail = cause_text failure.cause ++ (text ": " ++ failure.detail);
  migration = none;
}

abbrev pub counted : ℕ → List AppliedMigration → RunSuccess
counted skipped applied = record { applied = applied; skipped_count = skipped }

module _ {S : Type 0} (client : Client S) where
  abbrev pub applied_row : MigrationFile → Connection S → AppliedRow
  applied_row m conn = record {
    version = m.version;
    name = m.name;
    applied_at = to_iso_string (client.now conn.calls);
  }

  -- The record of the version, and `COMMIT`.
  abbrev pub record_and_commit :
      MigrationFile → Connection S → Throws Thrown (Unit {0}) × Connection S
  record_and_commit m conn =
      let (inserted, after) = call client (on_database (insert_row (applied_row m conn))) conn in
      elim inserted [ throws e ↦ (throws e, after) | returns _ ↦ call client commit after ]

  -- The `try` block, with `statementIndex` when it is left.
  unfoldable run_body :
      MigrationFile → List Text → ℕ → Connection S → ℕ × Throws Thrown (Unit {0}) × Connection S
  run_body m [] index conn =
      let (result, after) = record_and_commit m conn in (index, result, after)
  run_body m (statement ∷ statements) index conn =
      let (result, after) = call client (on_database (execute client statement)) conn in
      let rest = run_body m statements (suc index) after in
      elim result [ throws e ↦ (index, throws e, after) | returns _ ↦ rest ]

  -- One pending migration.
  unfoldable pub apply_migration :
      MigrationFile → Connection S → Throws RunFailure (Unit {0}) × Connection S
  unfolding run_body
  apply_migration m conn =
      let statements = split_sql_statements m.sql in
      let (began, opened) = call client begin conn in
      let (index, result, after) = run_body m statements 0 opened in
      elim began [
        | throws e ↦ (throws (fail_apply m (text "BEGIN failed: " ++ error_message_of e)), opened)
        | returns _ ↦ elim result [
          | returns _ ↦ (returns tt, after)
          | throws e ↦ (
            throws (
                fail_apply m
                  (stage index (length statements) ++ (text " failed: " ++ error_message_of e))),
            (call client rollback after).1,
          )
        ]
      ]

  -- The loop over the loaded migrations, with `applied` and `skippedCount` so far.
  unfoldable pub migrate :
      List AppliedRow
      → List MigrationFile
      → List AppliedMigration
      → ℕ
      → Connection S
      → Throws RunFailure RunSuccess × Connection S
  unfolding apply_migration
  migrate rows [] applied skipped conn = (returns (counted skipped applied), conn)
  migrate rows (m ∷ ms) applied skipped conn = elim (tracked_name rows m.version) [
    | some tracked ↦ elim (tracked == m.name) [
      | true ↦ migrate rows ms applied (skipped + 1) conn
      | false ↦ (throws (drift m tracked), conn)
    ]
    | none ↦
        let (result, after) = apply_migration m conn in
        elim result [
          | throws failure ↦ (throws failure, after)
          | returns _ ↦ migrate rows ms (applied ++ applied_migration m ∷ []) skipped after
        ]
  ]

  abbrev pub tracker_failure : Thrown → RunFailure
  tracker_failure e = record {
    cause = tracker_error;
    detail = text "schema_migrations bootstrap failed: " ++ error_message_of e;
    migration = none;
  }

  -- The bootstrap of the tracker and the loop.
  unfoldable pub run_loaded :
      List MigrationFile → Connection S → Throws RunFailure RunSuccess × Connection S
  unfolding migrate
  run_loaded ms conn =
      let (created, c1) = call client (on_database (λ db. returns (with_tracker db))) conn in
      let (selected, c2) = call client (λ c. returns c) c1 in
      elim created [
        | throws e ↦ (throws (tracker_failure e), c1)
        | returns _ ↦ elim selected [
          | throws e ↦ (throws (tracker_failure e), c2)
          | returns _ ↦ migrate (rows_of (view c2)) ms [] 0 c2
        ]
      ]

  unfoldable pub run_migrations :
      Files → Text → Connection S → Throws Thrown (Throws RunFailure RunSuccess) × Connection S
  unfolding run_loaded
  run_migrations fs dir conn = elim (load_migrations_from_dir fs dir) [
    | throws e ↦ (throws e, conn)
    | returns (throws failure) ↦ (returns (throws (load_run_failure failure)), conn)
    | returns (returns ms) ↦ let (result, after) = run_loaded ms conn in (returns result, after)
  ]
