-- ===== src/Db/Migrations/Run/Loop.antt =====
-- The loop over the loaded migrations.
use onetrackmind.Common.{
  ℕ, ◌+◌, List, [], ◌∷◌, ◌++◌, append_assoc, append-nil, none, some, Text, Text-Eq, ==_iff, ==_refl,
  ◌==◌, length, map, All, ◌≡◌, ◌≢◌, refl, sym, ap, subst, ◌∙◌, ◌⊎◌, inl, inr, false, Option-cases,
  Bool-cases, arith,
}
use onetrackmind.Common.Results.{Throws, returns, throws}
use onetrackmind.Db.Migrations.Load.{MigrationFile}
use onetrackmind.Db.Migrations.Connection.{AppliedRow, Database, Connection, Client, tracked_name}
use onetrackmind.Db.Migrations.Run.{
  RunFailure, RunSuccess, AppliedMigration, apply_error, drift_error, applied_migration,
  apply_migration, drift, migrate,
}
use onetrackmind.Db.Migrations.Run.Applied.{Ran, pending}
use onetrackmind.Db.Migrations.Run.Outcome.{idle, apply-cases}

abbrev pub IsSameName : List AppliedRow → MigrationFile → Type 0
IsSameName rows m =
    (tracked_name rows m.version ≡ none) ⊎ (tracked_name rows m.version ≡ some m.name)

abbrev pub files_of : List (MigrationFile × Text) → List MigrationFile
files_of [] = []
files_of ((m, at) ∷ steps) = m ∷ files_of steps

-- A run that ends well has done every pending migration, and a run that fails names the first
-- migration that it has not done, or one whose name has drifted, and then has done the pending ones
-- before that one and none after it.
abbrev pub IsEnd :
    {S : Type 0}
    → List AppliedRow
    → List MigrationFile
    → List AppliedMigration
    → ℕ
    → List MigrationFile
    → Throws RunFailure RunSuccess
    → Connection S
    → Type 0
IsEnd rows ms applied skipped left (returns success) last =
    (left ≡ [])
    × (last.transaction ≡ none)
    × (success.applied ≡ applied ++ map applied_migration (pending rows ms))
    × (success.skipped_count + length (pending rows ms) ≡ skipped + length ms)
    × All (IsSameName rows) ms
IsEnd rows ms applied skipped left (throws failure) last =
    ((m : MigrationFile) × (more : List MigrationFile) × (left ≡ m ∷ more)
      × (failure.cause ≡ apply_error)
      × (failure.migration ≡ some (applied_migration m)))
    ⊎ ((m : MigrationFile) × (name : Text) × (before more : List MigrationFile) × (ms
          ≡ before ++ m ∷ more)
        × (left ≡ pending rows (m ∷ more))
        × (tracked_name rows m.version ≡ some name)
        × (name ≢ m.name)
        × (failure.cause ≡ drift_error)
        × (failure.migration ≡ some (applied_migration m)))

module _ (rows : List AppliedRow) (m : MigrationFile) (ms : List MigrationFile) where
  pending-tracked :
      (name : Text)
      → tracked_name rows m.version ≡ some name
      → pending rows (m ∷ ms) ≡ pending rows ms
  unfolding pending
  pending-tracked name tracked = rw (pending, tracked)

  pending-free : tracked_name rows m.version ≡ none → pending rows (m ∷ ms) ≡ m ∷ pending rows ms
  unfolding pending
  pending-free free = rw (pending, free)

  IsEnd-skip :
      {S : Type 0} (applied : List AppliedMigration) (skipped : ℕ) (left : List MigrationFile)
      (result : Throws RunFailure RunSuccess) (last : Connection S)
      → tracked_name rows m.version ≡ some m.name
      → IsEnd rows ms applied (skipped + 1) left result last
      → IsEnd rows (m ∷ ms) applied skipped left result last
  IsEnd-skip applied skipped left (returns success) last tracked
        (none_left, idle_last, done, count, same) =
      (
        none_left,
        idle_last,
        rw (pending-tracked m.name tracked) done,
        rw (pending-tracked m.name tracked) (omega (arith, count)),
        (inr tracked, same),
      )
  IsEnd-skip applied skipped left (throws failure) last tracked (inl stopped) = inl stopped
  IsEnd-skip applied skipped left (throws failure) last tracked
        (inr (drifted, name, before, more, split, stays, rest, apart, cause, named)) =
      inr (drifted, name, m ∷ before, more, ap (λ x. m ∷ x) split, stays, rest, apart, cause, named)

  IsEnd-step :
      {S : Type 0} (applied : List AppliedMigration) (skipped : ℕ) (left : List MigrationFile)
      (result : Throws RunFailure RunSuccess) (last : Connection S)
      → tracked_name rows m.version ≡ none
      → IsEnd rows ms (applied ++ applied_migration m ∷ []) skipped left result last
      → IsEnd rows (m ∷ ms) applied skipped left result last
  IsEnd-step applied skipped left (returns success) last free
        (none_left, idle_last, done, count, same) =
      (
        none_left,
        idle_last,
        rw (pending-free free) (
            done
            ∙ append_assoc applied (applied_migration m ∷ [])
                (map applied_migration (pending rows ms))),
        rw (pending-free free) (omega (arith, count)),
        (inl free, same),
      )
  IsEnd-step applied skipped left (throws failure) last free (inl stopped) = inl stopped
  IsEnd-step applied skipped left (throws failure) last free
        (inr (drifted, name, before, more, split, stays, rest, apart, cause, named)) =
      inr (drifted, name, m ∷ before, more, ap (λ x. m ∷ x) split, stays, rest, apart, cause, named)

module _ {S : Type 0} (client : Client S) (rows : List AppliedRow) where
  abbrev pub Outcome :
      List MigrationFile
      → List AppliedMigration
      → ℕ
      → Database S
      → Throws RunFailure RunSuccess × Connection S
      → Type 0
  Outcome ms applied skipped committed run =
      (steps : List (MigrationFile × Text)) × (left : List MigrationFile) × Ran client committed
        steps run.1.committed
      × (pending rows ms ≡ files_of steps ++ left)
      × IsEnd rows ms applied skipped left run.0 run.1

  module _ (m : MigrationFile) (ms : List MigrationFile) (applied : List AppliedMigration)
      (skipped : ℕ) (conn : Connection S) where
    pub migrate-same :
        tracked_name rows m.version ≡ some m.name
        → migrate client rows (m ∷ ms) applied skipped conn
          ≡ migrate client rows ms applied (skipped + 1) conn
    unfolding migrate
    migrate-same tracked = rw (migrate, tracked, ==_refl m.name)

    migrate-drift :
        (name : Text)
        → tracked_name rows m.version ≡ some name
        → (name == m.name) ≡ false
        → migrate client rows (m ∷ ms) applied skipped conn ≡ (throws (drift m name), conn)
    unfolding migrate
    migrate-drift name tracked apart = rw (migrate, tracked, apart)

    pub migrate-done :
        (after : Connection S)
        → tracked_name rows m.version ≡ none
        → apply_migration client m conn ≡ (returns tt, after)
        → migrate client rows (m ∷ ms) applied skipped conn
          ≡ migrate client rows ms (applied ++ applied_migration m ∷ []) skipped after
    unfolding migrate
    migrate-done after free done = rw (migrate, free, done, done)

    migrate-stop :
        (failure : RunFailure) (after : Connection S)
        → tracked_name rows m.version ≡ none
        → apply_migration client m conn ≡ (throws failure, after)
        → migrate client rows (m ∷ ms) applied skipped conn ≡ (throws failure, after)
    unfolding migrate
    migrate-stop failure after free stopped = rw (migrate, free, stopped, stopped)

  pub migrate-Outcome :
      (ms : List MigrationFile) (applied : List AppliedMigration) (skipped : ℕ)
      (committed : Database S) (n : ℕ)
      → Outcome ms applied skipped committed
          (migrate client rows ms applied skipped (idle committed n))
  unfolding migrate pending
  migrate-Outcome [] applied skipped committed n =
      ([], [], refl, refl, (refl, refl, sym (append-nil applied), refl, tt))
  migrate-Outcome (m ∷ ms) applied skipped committed n =
      let P = Outcome (m ∷ ms) applied skipped committed in
      elim (Option-cases (tracked_name rows m.version)) [
        | inr (name, tracked) ↦ elim (Bool-cases (name == m.name)) [
          | inl same ↦
              let named = tracked ∙ ap (λ x. some x) ((==_iff name m.name).0 same) in
              let (steps, left, ran, split, end) =
                migrate-Outcome ms applied (skipped + 1) committed n in
              subst P (sym (migrate-same m ms applied skipped (idle committed n) named)) (
                steps,
                left,
                ran,
                pending-tracked rows m ms m.name named ∙ split,
                IsEnd-skip rows m ms applied skipped left _ _ named end,
              )
          | inr apart ↦
              subst P
                (sym (migrate-drift m ms applied skipped (idle committed n) name tracked apart))
                (
                  [],
                  pending rows (m ∷ ms),
                  refl,
                  refl,
                  inr (
                    m,
                    name,
                    [],
                    ms,
                    refl,
                    refl,
                    tracked,
                    λ e. cc ((==_iff name m.name).1 e, apart),
                    refl,
                    refl,
                  ),
                )
        ]
        | inl free ↦ elim (apply-cases client m committed n) [
          | inl (at, next, k, done, effect) ↦
              let (steps, left, ran, split, end) =
                migrate-Outcome ms (applied ++ applied_migration m ∷ []) skipped next k in
              subst P
                (sym (migrate-done m ms applied skipped (idle committed n) (idle next k) free done))
                (
                  (m, at) ∷ steps,
                  left,
                  (next, effect, ran),
                  pending-free rows m ms free ∙ ap (λ x. m ∷ x) split,
                  IsEnd-step rows m ms applied skipped left _ _ free end,
                )
          | inr (failure, last, stopped, kept, cause, named) ↦
              subst P
                (sym
                  (migrate-stop m ms applied skipped (idle committed n) failure last free stopped))
                (
                  [],
                  pending rows (m ∷ ms),
                  sym kept,
                  refl,
                  inl (m, pending rows ms, pending-free rows m ms free, cause, named),
                )
        ]
      ]
