-- ===== src/Db/Migrations/Run/Total.antt =====
-- A run with a client that does not fail.
use onetrackmind.Common.{
  ℕ, suc, ◌+◌, ◌<◌, List, [], ◌∷◌, ◌++◌, none, some, false, Text, All, ◌≡◌, refl, ap, ◌∙◌, inl, inr,
  arith, nat_beq, ◌⊎◌,
}
use onetrackmind.Common.Results.{returns}
use onetrackmind.Db.Migrations.Split.{split_sql_statements}
use onetrackmind.Db.Migrations.Load.{MigrationFile}
use onetrackmind.Db.Migrations.Load.Contents.{IsAscending}
use onetrackmind.Db.Migrations.Connection.{
  AppliedRow, Database, Client, tracked_name, begin, commit, on_database, insert_row, execute,
  rows_of, with_tracker,
}
use onetrackmind.Db.Migrations.Run.{
  RunSuccess, counted, AppliedMigration, applied_migration, applied_row, run_body,
  record_and_commit, apply_migration, migrate, run_loaded,
}
use onetrackmind.Db.Migrations.Run.Applied.{row_at}
use onetrackmind.Db.Migrations.Run.Outcome.{opened, idle}
use onetrackmind.Db.Migrations.Run.Loop.{migrate-same, migrate-done}
use onetrackmind.Db.Migrations.Run.Tracked.{tracked-append}
use onetrackmind.Db.Migrations.Run.Whole.{call-fine, create, select, run_loaded-migrate}

-- The migrations that were free at first are free now.
abbrev IsFree : List AppliedRow → List AppliedRow → List MigrationFile → Type 0
IsFree rows now ms =
    All (λ m. tracked_name rows m.version ≡ none → tracked_name now m.version ≡ none) ms

-- A version that a migration has not taken is still free.
still_free :
    (rows : List AppliedRow) (m next : MigrationFile) (at : Text)
    → m.version < next.version
    → tracked_name rows next.version ≡ none
    → tracked_name (rows ++ row_at m at ∷ []) next.version ≡ none
still_free rows m next at below free =
    let apart : nat_beq m.version next.version ≡ false = ground arith in
    tracked-append rows (row_at m at) next.version ∙ rw apart free

IsFree-later :
    (rows now : List AppliedRow) (m : MigrationFile) (at : Text) (ms : List MigrationFile)
    → All (λ next. m.version < next.version) ms
    → IsFree rows now ms
    → IsFree rows (now ++ row_at m at ∷ []) ms
IsFree-later rows now m at [] below h = tt
IsFree-later rows now m at (next ∷ ms) below h =
    (λ free. still_free now m next at below.0 (h.0 free), IsFree-later rows now m at ms below.1 h.1)

IsFree-refl : (rows : List AppliedRow) (ms : List MigrationFile) → IsFree rows rows ms
IsFree-refl rows [] = tt
IsFree-refl rows (m ∷ ms) = (λ free. free, IsFree-refl rows ms)

module _ {S : Type 0} (client : Client S) (fine : (k : ℕ) → client.fault k ≡ none) where
  -- The statements can be executed one after the other, from one content to another.
  abbrev pub RunsTo : List Text → S → S → Type 0
  RunsTo [] content final = final ≡ content
  RunsTo (statement ∷ statements) content final =
      (next : S) × (client.exec statement content ≡ returns next) × RunsTo statements next final

  -- Each migration in turn is tracked under its name, or it is not tracked and its statements can be
  -- executed on what the ones before it have left.
  abbrev pub CanRun : List AppliedRow → List MigrationFile → S → Type 0
  CanRun rows [] content = Unit
  CanRun rows (m ∷ ms) content =
      ((tracked_name rows m.version ≡ some m.name) × CanRun rows ms content)
      ⊎ ((tracked_name rows m.version ≡ none)
          × (final : S) × RunsTo (split_sql_statements m.sql) content final
          × CanRun rows ms final)

  abbrev holding : S → List AppliedRow → Database S
  holding content rows = record { content = content; tracker = some rows }

  -- The block of a migration whose version is free.
  run_body-fine :
      (m : MigrationFile) (statements : List Text) (index : ℕ) (committed : Database S)
      (content final : S) (rows : List AppliedRow) (n : ℕ)
      → RunsTo statements content final
      → tracked_name rows m.version ≡ none
      → (last : ℕ) × (at : Text) × (k : ℕ) × (run_body client m statements index
            (opened committed (holding content rows) n)
          ≡ (last, returns tt, idle (holding final (rows ++ row_at m at ∷ [])) k))
  unfolding run_body
  run_body-fine m [] index committed content final rows n same free =
      let before = opened committed (holding content rows) n in
      let row = applied_row client m before in
      let after = holding content (rows ++ row ∷ []) in
      let inserted =
        call-fine client (on_database (insert_row row)) before (opened committed after (suc n)) fine
          (rw (insert_row, free)) in
      let over =
        call-fine client commit (opened committed after (suc n)) (idle after (suc (suc n))) fine
          refl in
      (
        index,
        row.applied_at,
        suc (suc n),
        rw (same, run_body, record_and_commit, inserted, inserted, over),
      )
  run_body-fine m (statement ∷ statements) index committed content final rows n (next, ran, later)
        free =
      let before = opened committed (holding content rows) n in
      let done =
        call-fine client (on_database (execute client statement)) before
          (opened committed (holding next rows) (suc n)) fine (rw ran) in
      let (last, at, k, rest) =
        run_body-fine m statements (suc index) committed next final rows (suc n) later free in
      (last, at, k, rw (run_body, done, done, rest))

  apply-fine :
      (m : MigrationFile) (content final : S) (rows : List AppliedRow) (n : ℕ)
      → RunsTo (split_sql_statements m.sql) content final
      → tracked_name rows m.version ≡ none
      → (at : Text) × (k : ℕ) × (apply_migration client m (idle (holding content rows) n)
          ≡ (returns tt, idle (holding final (rows ++ row_at m at ∷ [])) k))
  unfolding apply_migration
  apply-fine m content final rows n runs free =
      let db = holding content rows in
      let began = call-fine client begin (idle db n) (opened db db (suc n)) fine refl in
      let (last, at, k, ran) =
        run_body-fine m (split_sql_statements m.sql) 0 db content final rows (suc n) runs free in
      (at, k, rw (apply_migration, began, began, ran, began, ran))

  migrate-fine :
      (rows : List AppliedRow) (ms : List MigrationFile) (applied : List AppliedMigration)
      (skipped : ℕ) (content : S) (now : List AppliedRow) (n : ℕ)
      → IsAscending ms
      → CanRun rows ms content
      → IsFree rows now ms
      → (success : RunSuccess) × ((migrate client rows ms applied skipped
            (idle (holding content now) n)).0
          ≡ returns success)
  unfolding migrate
  migrate-fine rows [] applied skipped content now n up same h = (counted skipped applied, refl)
  migrate-fine rows (m ∷ ms) applied skipped content now n up (inl (tracked, same)) h =
      let (success, good) =
        migrate-fine rows ms applied (skipped + 1) content now n up.1 same h.1 in
      (
        success,
        ap (λ r. r.0)
              (migrate-same client rows m ms applied skipped (idle (holding content now) n) tracked)
            ∙ good,
      )
  migrate-fine rows (m ∷ ms) applied skipped content now n up (inr (free, final, runs, same)) h =
      let (at, k, done) = apply-fine m content final now n runs (h.0 free) in
      let later = now ++ row_at m at ∷ [] in
      let (success, good) =
        migrate-fine rows ms (applied ++ applied_migration m ∷ []) skipped final later k up.1 same
          (IsFree-later rows now m at ms up.0 h.1) in
      (
        success,
        ap (λ r. r.0)
              (migrate-done client rows m ms applied skipped (idle (holding content now) n)
                (idle (holding final later) k) free done)
            ∙ good,
      )

  -- A run ends well when no call fails, the migrations stand in strictly ascending order, those that
  -- are tracked have kept their names, and the statements of the others can be executed, each on what
  -- the ones before it have left.
  pub run_loaded-ends_well :
      (ms : List MigrationFile) (committed : Database S) (n : ℕ)
      → IsAscending ms
      → CanRun (rows_of committed) ms committed.content
      → (success : RunSuccess) × ((run_loaded client ms (idle committed n)).0 ≡ returns success)
  run_loaded-ends_well ms committed n up same =
      let base = with_tracker committed in
      let done =
        call-fine client (create client ms (idle committed n)) (idle committed n)
          (idle base (suc n)) fine refl in
      let read =
        call-fine client (select client ms (idle committed n)) (idle base (suc n))
          (idle base (suc (suc n))) fine refl in
      let (success, good) =
        migrate-fine (rows_of committed) ms [] 0 committed.content (rows_of committed) (suc (suc n))
          up same (IsFree-refl (rows_of committed) ms) in
      (
        success,
        ap (λ r. r.0)
              (run_loaded-migrate client ms (idle committed n) (idle base (suc n))
                (idle base (suc (suc n))) done read)
            ∙ good,
      )
