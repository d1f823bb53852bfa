-- ===== src/Db/Migrations/Run/Whole.antt =====
-- A run over loaded migrations, and a second run.
use onetrackmind.Common.{
  ℕ, suc, ◌+◌, List, [], ◌∷◌, ◌++◌, Option, none, some, length, All, ◌≡◌, refl, sym, ap, subst, ◌∙◌,
  ◌⊎◌, inl, inr, arith, append-nil,
}
use onetrackmind.Common.Results.{Thrown, Throws, returns, throws, returns-inj}
use onetrackmind.Db.Migrations.Load.{MigrationFile}
use onetrackmind.Db.Migrations.Connection.{
  AppliedRow, Database, Connection, Client, call, on_database, view, tracker_rows, rows_of,
  with_tracker, tracked_name,
}
use onetrackmind.Db.Migrations.Run.{
  RunFailure, RunSuccess, tracker_failure, counted, migrate, run_loaded,
}
use onetrackmind.Db.Migrations.Run.Outcome.{idle, call-cases}
use onetrackmind.Db.Migrations.Run.Loop.{Outcome, IsEnd, files_of, migrate-Outcome, migrate-same}
use onetrackmind.Db.Migrations.Run.Tracked.{
  IsTracked, Ran-keeps, Ran-IsTracked, Ran-tracker, All-IsTracked,
}

module _ {S : Type 0} (client : Client S) (ms : List MigrationFile) (conn : Connection S) where
  -- `CREATE TABLE` and `SELECT`
  abbrev pub create : Connection S → Throws Thrown (Connection S)
  create = on_database (λ db. returns (with_tracker db))

  abbrev pub select : Connection S → Throws Thrown (Connection S)
  select = λ c. returns c

  run_loaded-create :
      (e : Thrown) (c1 : Connection S)
      → call client create conn ≡ (throws e, c1)
      → run_loaded client ms conn ≡ (throws (tracker_failure client e), c1)
  unfolding run_loaded
  run_loaded-create e c1 bad = rw (run_loaded, bad, bad)

  run_loaded-select :
      (e : Thrown) (c1 c2 : Connection S)
      → call client create conn ≡ (returns tt, c1)
      → call client select c1 ≡ (throws e, c2)
      → run_loaded client ms conn ≡ (throws (tracker_failure client e), c2)
  unfolding run_loaded
  run_loaded-select e c1 c2 done bad = rw (run_loaded, done, done, bad, done, bad)

  pub run_loaded-migrate :
      (c1 c2 : Connection S)
      → call client create conn ≡ (returns tt, c1)
      → call client select c1 ≡ (returns tt, c2)
      → run_loaded client ms conn ≡ migrate client (rows_of (view c2)) ms [] 0 c2
  unfolding run_loaded
  run_loaded-migrate c1 c2 done read = rw (run_loaded, done, done, read, done, read)

module _ {S : Type 0} (client : Client S) (ms : List MigrationFile) (committed : Database S) where
  abbrev run_of : ℕ → Throws RunFailure RunSuccess × Connection S
  run_of n = run_loaded client ms (idle committed n)

  -- Either the bootstrap fails and no migration runs, or the loop does what it is meant to do.
  abbrev pub IsRun : Throws RunFailure RunSuccess × Connection S → Type 0
  IsRun run =
      ((e : Thrown) × (run.0 ≡ throws (tracker_failure client e))
        × ((run.1.committed ≡ committed) ⊎ (run.1.committed ≡ with_tracker committed)))
      ⊎ Outcome client (rows_of committed) ms [] 0 (with_tracker committed) run

  -- Whatever calls fail, what a run commits is the effect of the first pending migrations, each in
  -- full and with its row, and no other change but the empty tracker: all of the pending ones when
  -- it ends well, and else those before the one that it names as failed.
  pub run_loaded-IsRun : (n : ℕ) → IsRun (run_loaded client ms (idle committed n))
  run_loaded-IsRun n =
      elim (call-cases client (create client ms (idle committed n)) (idle committed n)) [
        | inl (e, bad) ↦
            subst IsRun (sym (run_loaded-create client ms (idle committed n) e _ bad))
              (inl (e, refl, inl refl))
        | inr (after, ok, created) ↦
            let base = idle (with_tracker committed) (suc n) in
            let done =
              subst
                (λ x.
                  call client (create client ms (idle committed n)) (idle committed n)
                  ≡ (returns tt, x))
                (sym (returns-inj ok)) created in
            elim (call-cases client (select client ms base) base) [
              | inl (e, bad) ↦
                  subst IsRun
                    (sym (run_loaded-select client ms (idle committed n) e base _ done bad))
                    (inl (e, refl, inr refl))
              | inr (last, same, read_it) ↦
                  let read =
                    subst (λ x. call client (select client ms base) base ≡ (returns tt, x))
                      (sym (returns-inj same)) read_it in
                  subst IsRun
                    (sym (run_loaded-migrate client ms (idle committed n) base _ done read))
                    (inr (
                      migrate-Outcome client (rows_of committed) ms [] 0 (with_tracker committed)
                        (suc (suc n))))
            ]
      ]

  -- The names of the migrations that a good run has left in schema_migrations.
  run-IsTracked :
      (n : ℕ) (success : RunSuccess)
      → (run_of n).0 ≡ returns success
      → (rows : List AppliedRow) × ((run_of n).1.committed.tracker ≡ some rows)
        × ((run_of n).1.transaction ≡ none)
        × All (IsTracked rows) ms
  run-IsTracked n success good = elim (run_loaded-IsRun n) [
    | inl (e, bad, unchanged) ↦ absurd (cc (bad, good))
    | inr (steps, left, ran, split, end) ↦
        let last = (run_of n).1 in
        let (none_left, idle_last, done, count, same) =
          subst (λ r. IsEnd (rows_of committed) ms [] 0 left r last) good end in
        let (rows, tracker) =
          Ran-tracker client steps (with_tracker committed) last.committed _ ran refl in
        let rows_last = ap tracker_rows tracker in
        let all_steps =
          (sym (append-nil (files_of steps)) ∙ ap (λ x. files_of steps ++ x) (sym none_left))
          ∙ sym split in
        let step_rows =
          subst (λ r. All (IsTracked r) (files_of steps)) rows_last
            (Ran-IsTracked client steps (with_tracker committed) last.committed ran) in
        (
          rows,
          tracker,
          idle_last,
          All-IsTracked (rows_of committed) rows ms same
              (subst (All (IsTracked rows)) all_steps step_rows)
              (λ v name h.
                subst (λ r. tracked_name r v ≡ some name) rows_last
                  (Ran-keeps client steps (with_tracker committed) last.committed ran v name h)),
        )
  ]

module _ {S : Type 0} (client : Client S) where
  -- Migrations that are all tracked are all skipped.
  migrate-skipped :
      (rows : List AppliedRow) (ms : List MigrationFile)
      → All (IsTracked rows) ms
      → (skipped : ℕ) (conn : Connection S)
      → migrate client rows ms [] skipped conn ≡ (returns (counted (length ms + skipped) []), conn)
  unfolding migrate
  migrate-skipped rows [] h skipped conn = ap (λ k. (returns (counted k []), conn)) (omega arith)
  migrate-skipped rows (m ∷ ms) h skipped conn =
      migrate-same client rows m ms [] skipped conn h.0
      ∙ (migrate-skipped rows ms h.1 (skipped + 1) conn
          ∙ ap (λ k. (returns (counted k []), conn)) (omega arith))

  tracked-again :
      (db : Database S) (rows : List AppliedRow) → db.tracker ≡ some rows → with_tracker db ≡ db
  tracked-again db rows tracker = ap (λ t. record db { tracker = t }) (same_rows db.tracker tracker)
    where
      same_rows : (t : Option (List AppliedRow)) → t ≡ some rows → some (tracker_rows t) ≡ t
      same_rows none h = absurd (cc h)
      same_rows (some found) h = refl

  -- A call of a client that does not fail.
  pub call-fine :
      (statement : Connection S → Throws Thrown (Connection S)) (conn after : Connection S)
      → ((k : ℕ) → client.fault k ≡ none)
      → statement (record conn { calls = suc conn.calls }) ≡ returns after
      → call client statement conn ≡ (returns tt, after)
  unfolding call
  call-fine statement conn after fine ok = rw (fine conn.calls, ok)

  run_loaded-skips :
      (ms : List MigrationFile) (db : Database S) (rows : List AppliedRow) (n : ℕ)
      → ((k : ℕ) → client.fault k ≡ none)
      → db.tracker ≡ some rows
      → All (IsTracked rows) ms
      → run_loaded client ms (idle db n) ≡ (returns (counted (length ms) []), idle db (suc (suc n)))
  run_loaded-skips ms db rows n fine tracker tracked =
      let done =
        call-fine (create client ms (idle db n)) (idle db n) (idle db (suc n)) fine
          (ap (λ x. returns (idle x (suc n))) (tracked-again db rows tracker)) in
      let read =
        call-fine (select client ms (idle db n)) (idle db (suc n)) (idle db (suc (suc n))) fine
          refl in
      run_loaded-migrate client ms (idle db n) (idle db (suc n)) (idle db (suc (suc n))) done read
      ∙ (migrate-skipped (rows_of db) ms
            (subst (λ r. All (IsTracked r) ms) (sym (ap tracker_rows tracker)) tracked) 0
            (idle db (suc (suc n)))
          ∙ ap (λ k. (returns (counted k []), idle db (suc (suc n)))) (omega arith))

-- After a run that ends well, a second run with a client that does not fail applies nothing, skips
-- every migration and changes nothing that is committed.
pub run_loaded-again :
    {S : Type 0} (first second : Client S) (ms : List MigrationFile) (committed : Database S)
    (n k : ℕ) (success : RunSuccess)
    → (run_loaded first ms (idle committed n)).0 ≡ returns success
    → ((i : ℕ) → second.fault i ≡ none)
    → run_loaded second ms (idle (run_loaded first ms (idle committed n)).1.committed k) ≡ (
      returns (record { applied = []; skipped_count = length ms }),
      idle (run_loaded first ms (idle committed n)).1.committed (suc (suc k)),
    )
run_loaded-again first second ms committed n k success good fine =
    let (rows, tracker, closed, tracked) = run-IsTracked first ms committed n success good in
    run_loaded-skips second ms (run_loaded first ms (idle committed n)).1.committed rows k fine
      tracker tracked
