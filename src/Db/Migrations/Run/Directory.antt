-- ===== src/Db/Migrations/Run/Directory.antt =====
-- A run over a directory: backend/src/db/migrationRunner.ts as a whole.
use onetrackmind.Common.{ℕ, suc, List, [], none, Text, length, ◌≡◌, refl, sym, ap, subst, ◌∙◌}
use onetrackmind.Common.Results.{Thrown, Throws, returns, throws, returns-inj}
use onetrackmind.Runtime.Files.{Files}
use onetrackmind.Db.Migrations.Load.{LoadFailure, MigrationFile, load_migrations_from_dir}
use onetrackmind.Db.Migrations.Connection.{Database, Connection, Client}
use onetrackmind.Db.Migrations.Run.{
  RunFailure, RunSuccess, load_error, load_run_failure, run_loaded, run_migrations,
}
use onetrackmind.Db.Migrations.Run.Outcome.{idle}
use onetrackmind.Db.Migrations.Run.Whole.{IsRun, run_loaded-IsRun, run_loaded-again}

module _ {S : Type 0} (client : Client S) (committed : Database S) (n : ℕ) where
  -- Without migrations the database is not touched.
  abbrev pub IsDirectoryRun :
      Throws Thrown (Throws LoadFailure (List MigrationFile))
      → Throws Thrown (Throws RunFailure RunSuccess) × Connection S
      → Type 0
  IsDirectoryRun (throws e) run = run ≡ (throws e, idle committed n)
  IsDirectoryRun (returns (throws unloaded)) run =
      (failure : RunFailure) × (run ≡ (returns (throws failure), idle committed n))
      × (failure.cause ≡ load_error)
  IsDirectoryRun (returns (returns ms)) run =
      (result : Throws RunFailure RunSuccess) × (run.0 ≡ returns result)
      × IsRun client ms committed (result, run.1)

  loaded-run :
      (fs : Files) (dir : Text) (ms : List MigrationFile)
      → load_migrations_from_dir fs dir ≡ returns (returns ms)
      → run_migrations client fs dir (idle committed n) ≡ (
        returns (run_loaded client ms (idle committed n)).0,
        (run_loaded client ms (idle committed n)).1,
      )
  unfolding run_migrations
  loaded-run fs dir ms h = rw (run_migrations, h)

  run_migrations-cases :
      (fs : Files) (dir : Text) (loaded : Throws Thrown (Throws LoadFailure (List MigrationFile)))
      → load_migrations_from_dir fs dir ≡ loaded
      → IsDirectoryRun loaded (run_migrations client fs dir (idle committed n))
  unfolding run_migrations
  run_migrations-cases fs dir (throws e) h = rw (run_migrations, h)
  run_migrations-cases fs dir (returns (throws unloaded)) h =
      (load_run_failure unloaded, rw (run_migrations, h), refl)
  run_migrations-cases fs dir (returns (returns ms)) h =
      subst (IsDirectoryRun (returns (returns ms))) (sym (loaded-run fs dir ms h))
        ((run_loaded client ms (idle committed n)).0, refl, run_loaded-IsRun client ms committed n)

  -- Whatever calls of the client fail, a run commits the effect of the first pending migrations of
  -- the directory, each in full and with its row, and no other change but the empty tracker: all of
  -- the pending ones when it ends well, and else those before the one that it names, as failed or as
  -- drifted, or none where the tracker cannot be read. A directory that is not loaded leaves the database alone.
  pub run_migrations-IsDirectoryRun :
      (fs : Files) (dir : Text)
      → IsDirectoryRun
          (load_migrations_from_dir fs dir)
          (run_migrations client fs dir (idle committed n))
  run_migrations-IsDirectoryRun fs dir =
      run_migrations-cases fs dir (load_migrations_from_dir fs dir) refl

-- After a run over a directory that ends well, a second run over the same migrations, with a client
-- that does not fail, applies nothing, skips every migration and changes nothing that is committed.
pub run_migrations-again :
    {S : Type 0} (first second : Client S) (fs : Files) (dir : Text) (ms : List MigrationFile)
    (committed : Database S) (n k : ℕ) (success : RunSuccess)
    → load_migrations_from_dir fs dir ≡ returns (returns ms)
    → (run_migrations first fs dir (idle committed n)).0 ≡ returns (returns success)
    → ((i : ℕ) → second.fault i ≡ none)
    → run_migrations second fs dir
        (idle (run_migrations first fs dir (idle committed n)).1.committed k)
      ≡ (
        returns (returns (record { applied = []; skipped_count = length ms })),
        idle (run_migrations first fs dir (idle committed n)).1.committed (suc (suc k)),
      )
run_migrations-again {S = S} first second fs dir ms committed n k success loaded good fine =
    let one = loaded-run first committed n fs dir ms loaded in
    let last = (run_loaded first ms (idle committed n)).1.committed in
    let ok = returns-inj (sym (ap (λ r. r.0) one) ∙ good) in
    subst
      (λ c. run_migrations second fs dir (idle c k) ≡ (
        returns (returns (record { applied = []; skipped_count = length ms })),
        idle c (suc (suc k)),
      ))
      (sym (ap (λ r. r.1.committed) one))
      (loaded-run second last k fs dir ms loaded
        ∙ ap (λ (r : Throws RunFailure RunSuccess × Connection S). (returns r.0, r.1))
            (run_loaded-again first second ms committed n k success ok fine))
