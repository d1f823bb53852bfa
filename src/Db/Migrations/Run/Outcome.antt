-- ===== src/Db/Migrations/Run/Outcome.antt =====
-- What one migration does to the database, by the faults of the client.
use onetrackmind.Common.{
  ℕ, suc, List, [], ◌∷◌, ◌++◌, none, some, Text, text, length, ◌≡◌, refl, sym, subst, ◌⊎◌, inl, inr,
  Option-cases,
}
use onetrackmind.Common.Results.{
  Thrown, Throws, returns, throws, ◌>>=◌, bind-returns, returns-inj, Throws-cases, error_message_of,
}
use onetrackmind.Db.Migrations.Split.{split_sql_statements}
use onetrackmind.Db.Migrations.Load.{MigrationFile}
use onetrackmind.Db.Migrations.Connection.{
  Database, Connection, Client, call, begin, commit, rollback, on_database, insert_row, execute,
}
use onetrackmind.Db.Migrations.Run.{
  RunFailure, apply_error, applied_migration, applied_row, record_and_commit, fail_apply, stage,
  run_body, apply_migration,
}
use onetrackmind.Db.Migrations.Run.Applied.{execute_all, row_at, migrated}

module _ {S : Type 0} where
  -- A connection in a transaction, and one that is in none.
  abbrev pub opened : Database S → Database S → ℕ → Connection S
  opened committed db n = record { committed = committed; transaction = some db; calls = n }

  abbrev pub idle : Database S → ℕ → Connection S
  idle committed n = record { committed = committed; transaction = none; calls = n }

  pub call-cases :
      (client : Client S) (statement : Connection S → Throws Thrown (Connection S))
      (conn : Connection S)
      → ((e : Thrown) × (call client statement conn
            ≡ (throws e, record conn { calls = suc conn.calls })))
        ⊎ ((after : Connection S) × (statement (record conn { calls = suc conn.calls })
              ≡ returns after)
            × (call client statement conn ≡ (returns tt, after)))
  unfolding call
  call-cases client statement conn = elim (Option-cases (client.fault conn.calls)) [
    | inr (e, fault) ↦ inl (e, rw fault)
    | inl fine ↦ elim (Throws-cases (statement (record conn { calls = suc conn.calls }))) [
      | inl (after, ok) ↦ inr (after, ok, rw (fine, ok))
      | inr (e, bad) ↦ inl (e, rw (fine, bad))
    ]
  ]

  -- A statement in a transaction changes what the transaction sees, or nothing.
  change-cases :
      (client : Client S) (change : Database S → Throws Thrown (Database S))
      (committed db : Database S) (n : ℕ)
      → ((e : Thrown) × (call client (on_database change) (opened committed db n)
            ≡ (throws e, opened committed db (suc n))))
        ⊎ ((next : Database S) × (change db ≡ returns next)
            × (call client (on_database change) (opened committed db n)
                ≡ (returns tt, opened committed next (suc n))))
  change-cases client change committed db n =
      elim (call-cases client (on_database change) (opened committed db n)) [
        | inl (e, bad) ↦ inl (e, bad)
        | inr (after, ok, done) ↦
            let (next, changed, shape) =
              bind-returns (change db) (λ x. returns (opened committed x (suc n))) after ok in
            inr (
              next,
              changed,
              subst
                  (λ x. call client (on_database change) (opened committed db n) ≡ (returns tt, x))
                  (sym (returns-inj shape)) done,
            )
      ]

module _ {S : Type 0} (client : Client S) (m : MigrationFile) (committed : Database S) where
  -- The block runs every statement and the record and commits them, or leaves what is committed.
  abbrev BodyEnd : List Text → ℕ → Database S → ℕ → Type 0
  BodyEnd statements index db n =
      ((last : ℕ) × (at : Text) × (next : Database S) × (k : ℕ) × (run_body client m statements
            index (opened committed db n)
          ≡ (last, returns tt, idle next k))
        × ((execute_all client statements db >>= insert_row (row_at m at)) ≡ returns next))
      ⊎ ((last : ℕ) × (e : Thrown) × (open_db : Database S) × (k : ℕ) × (run_body client m
              statements index (opened committed db n)
            ≡ (last, throws e, opened committed open_db k)))

  run_body-BodyEnd :
      (statements : List Text) (index : ℕ) (db : Database S) (n : ℕ) → BodyEnd statements index db n
  unfolding run_body execute_all
  run_body-BodyEnd [] index db n =
      elim (change-cases client (insert_row (applied_row client m (opened committed db n)))
        committed db n) [
          | inl (e, bad) ↦ inr (index, e, db, suc n, rw (run_body, record_and_commit, bad, bad))
          | inr (next, inserted, done) ↦
              elim (call-cases client commit (opened committed next (suc n))) [
                | inl (e, bad) ↦
                    inr (
                      index,
                      e,
                      next,
                      suc (suc n),
                      rw (run_body, record_and_commit, done, done, bad),
                    )
                | inr (after, ok, over) ↦ inl (
                  index,
                  (applied_row client m (opened committed db n)).applied_at,
                  next,
                  suc (suc n),
                  rw (run_body, record_and_commit, done, done, over, ← returns-inj ok),
                  inserted,
                )
              ]
        ]
  run_body-BodyEnd (statement ∷ statements) index db n =
      elim (change-cases client (execute client statement) committed db n) [
        | inl (e, bad) ↦ inr (index, e, db, suc n, rw (run_body, bad, bad))
        | inr (next, changed, done) ↦ elim (run_body-BodyEnd statements (suc index) next (suc n)) [
          | inl (last, at, final, k, ran, effect) ↦
              inl (
                last,
                at,
                final,
                k,
                rw (run_body, done, done, ran),
                rw (execute_all, changed) effect,
              )
          | inr (last, e, open_db, k, ran) ↦
              inr (last, e, open_db, k, rw (run_body, done, done, ran))
        ]
      ]

  rollback-keeps :
      (db : Database S) (k : ℕ)
      → (call client rollback (opened committed db k)).1.committed ≡ committed
  rollback-keeps db k = elim (call-cases client rollback (opened committed db k)) [
    | inl (e, bad) ↦ rw bad
    | inr (after, ok, done) ↦ rw (done, ← returns-inj ok)
  ]

  -- A migration takes effect in full, or leaves what is committed and says which one failed.
  pub apply-cases :
      (n : ℕ)
      → ((at : Text) × (next : Database S) × (k : ℕ) × (apply_migration client m (idle committed n)
            ≡ (returns tt, idle next k))
          × (migrated client m at committed ≡ returns next))
        ⊎ ((failure : RunFailure) × (last : Connection S) × (apply_migration client m
                (idle committed n)
              ≡ (throws failure, last))
            × (last.committed ≡ committed)
            × (failure.cause ≡ apply_error)
            × (failure.migration ≡ some (applied_migration m)))
  unfolding apply_migration
  apply-cases n = elim (call-cases client begin (idle committed n)) [
    | inl (e, bad) ↦ inr (
      fail_apply m (text "BEGIN failed: " ++ error_message_of e),
      idle committed (suc n),
      rw (apply_migration, bad, bad),
      refl,
      refl,
      refl,
    )
    | inr (after, ok, started) ↦
        let began =
          subst (λ x. call client begin (idle committed n) ≡ (returns tt, x)) (sym (returns-inj ok))
            started in
        elim (run_body-BodyEnd (split_sql_statements m.sql) 0 committed (suc n)) [
          | inl (last, at, next, k, ran, effect) ↦
              inl (at, next, k, rw (apply_migration, began, began, ran, began, ran), effect)
          | inr (last, e, open_db, k, ran) ↦ inr (
            fail_apply m (
                stage last (length (split_sql_statements m.sql))
                ++ (text " failed: " ++ error_message_of e)),
            (call client rollback (opened committed open_db k)).1,
            rw (apply_migration, began, began, ran, began, ran),
            rollback-keeps open_db k,
            refl,
            refl,
          )
        ]
  ]
