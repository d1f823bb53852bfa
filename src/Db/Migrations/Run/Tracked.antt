-- ===== src/Db/Migrations/Run/Tracked.antt =====
-- What the table schema_migrations says after migrations.
use onetrackmind.Common.{
  ℕ, List, [], ◌∷◌, ◌++◌, Option, none, some, Text, nat_beq, nat_beq_iff, if◌then◌else◌, All, ◌≡◌,
  refl, sym, ap, subst, ◌∙◌, Option-cases, Bool-cases, inl, inr,
}
use onetrackmind.Common.Results.{returns, bind-returns, returns-inj}
use onetrackmind.Db.Migrations.Split.{split_sql_statements}
use onetrackmind.Db.Migrations.Load.{MigrationFile}
use onetrackmind.Db.Migrations.Connection.{
  AppliedRow, Database, Client, tracked_name, tracker_rows, rows_of, insert_row, execute,
}
use onetrackmind.Db.Migrations.Run.Applied.{Ran, row_at, migrated, execute_all, pending}
use onetrackmind.Db.Migrations.Run.Loop.{files_of, IsSameName}

pub tracked-append :
    (rows : List AppliedRow) (row : AppliedRow) (v : ℕ)
    → tracked_name (rows ++ row ∷ []) v
      ≡ (if nat_beq row.version v then some row.name else tracked_name rows v)
unfolding tracked_name
tracked-append [] row v = refl
tracked-append (first ∷ rows) row v = elim (Bool-cases (nat_beq row.version v)) [
  | inl same ↦ rw (tracked-append rows row v, same)
  | inr apart ↦ rw (tracked-append rows row v, apart)
]

other :
    (rows : List AppliedRow) (m : MigrationFile) (v : ℕ) (name : Text)
    → tracked_name rows m.version ≡ none
    → tracked_name rows v ≡ some name
    → (if nat_beq m.version v then some m.name else tracked_name rows v) ≡ some name
other rows m v name free tracked = elim (Bool-cases (nat_beq m.version v)) [
  | inl same ↦ absurd (
      cc (
        (subst (λ x. tracked_name rows x ≡ none) ((nat_beq_iff m.version v).0 same) free),
        tracked,
      ))
  | inr apart ↦ rw apart tracked
]

abbrev pub IsTracked : List AppliedRow → MigrationFile → Type 0
IsTracked rows m = tracked_name rows m.version ≡ some m.name

module _ {S : Type 0} (client : Client S) where
  execute-tracker :
      (statement : Text) (db next : Database S)
      → execute client statement db ≡ returns next
      → next.tracker ≡ db.tracker
  execute-tracker statement db next h =
      let (content, ran, shape) =
        bind-returns (client.exec statement db.content) (λ c. returns (record db { content = c }))
          next h in
      sym (ap (λ (x : Database S). x.tracker) (returns-inj shape))

  execute_all-tracker :
      (statements : List Text) (db next : Database S)
      → execute_all client statements db ≡ returns next
      → next.tracker ≡ db.tracker
  unfolding execute_all
  execute_all-tracker [] db next h = sym (ap (λ (x : Database S). x.tracker) (returns-inj h))
  execute_all-tracker (statement ∷ statements) db next h =
      let (mid, ran, rest) =
        bind-returns (execute client statement db) (execute_all client statements) next h in
      execute_all-tracker statements mid next rest ∙ execute-tracker statement db mid ran

  insert-parts :
      (row : AppliedRow) (content : S) (tracker : Option (List AppliedRow)) (next : Database S)
      → insert_row row (record { content = content; tracker = tracker }) ≡ returns next
      → (tracked_name (tracker_rows tracker) row.version ≡ none)
        × (next.tracker ≡ some (tracker_rows tracker ++ row ∷ []))
  insert-parts row content none next h = absurd (cc h)
  insert-parts row content (some rows) next h =
      elim (Option-cases (tracked_name rows row.version)) [
        | inl free ↦ (
          free,
          sym (ap (λ (x : Database S). x.tracker) (returns-inj (rw (insert_row, free) at h))),
        )
        | inr (name, taken) ↦ absurd (cc (rw (insert_row, taken) at h))
      ]

  migrated-tracker :
      (m : MigrationFile) (at : Text) (db next : Database S)
      → migrated client m at db ≡ returns next
      → (tracked_name (rows_of db) m.version ≡ none)
        × (next.tracker ≡ some (rows_of db ++ row_at m at ∷ []))
  migrated-tracker m at db next h =
      let (mid, ran, inserted) =
        bind-returns (execute_all client (split_sql_statements m.sql) db) (insert_row (row_at m at))
          next h in
      let kept = ap tracker_rows (execute_all-tracker (split_sql_statements m.sql) db mid ran) in
      let (free, tracker) = insert-parts (row_at m at) mid.content mid.tracker next inserted in
      (
        subst (λ rows. tracked_name rows m.version ≡ none) kept free,
        subst (λ rows. next.tracker ≡ some (rows ++ row_at m at ∷ [])) kept tracker,
      )

  -- A migration keeps the names that are tracked, and adds its own.
  migrated-keeps :
      (m : MigrationFile) (at : Text) (db next : Database S)
      → migrated client m at db ≡ returns next
      → (v : ℕ) (name : Text) → tracked_name (rows_of db) v ≡ some name
      → tracked_name (rows_of next) v ≡ some name
  migrated-keeps m at db next h v name tracked =
      let (free, tracker) = migrated-tracker m at db next h in
      subst (λ t. tracked_name (tracker_rows t) v ≡ some name) (sym tracker)
        (tracked-append (rows_of db) (row_at m at) v ∙ other (rows_of db) m v name free tracked)

  migrated-IsTracked :
      (m : MigrationFile) (at : Text) (db next : Database S)
      → migrated client m at db ≡ returns next
      → IsTracked (rows_of next) m
  migrated-IsTracked m at db next h =
      subst (λ t. IsTracked (tracker_rows t) m) (sym ((migrated-tracker m at db next h).1))
        (tracked-append (rows_of db) (row_at m at) m.version
          ∙ rw ((nat_beq_iff m.version m.version).1 refl))

  pub Ran-keeps :
      (steps : List (MigrationFile × Text)) (db last : Database S)
      → Ran client db steps last
      → (v : ℕ) (name : Text) → tracked_name (rows_of db) v ≡ some name
      → tracked_name (rows_of last) v ≡ some name
  Ran-keeps [] db last ran v name tracked =
      subst (λ (x : Database S). tracked_name (rows_of x) v ≡ some name) ran tracked
  Ran-keeps ((m, at) ∷ steps) db last (next, done, ran) v name tracked =
      Ran-keeps steps next last ran v name (migrated-keeps m at db next done v name tracked)

  pub Ran-IsTracked :
      (steps : List (MigrationFile × Text)) (db last : Database S)
      → Ran client db steps last
      → All (IsTracked (rows_of last)) (files_of steps)
  Ran-IsTracked [] db last ran = tt
  Ran-IsTracked ((m, at) ∷ steps) db last (next, done, ran) = (
    Ran-keeps steps next last ran m.version m.name (migrated-IsTracked m at db next done),
    Ran-IsTracked steps next last ran,
  )

  pub Ran-tracker :
      (steps : List (MigrationFile × Text)) (db last : Database S) (rows : List AppliedRow)
      → Ran client db steps last
      → db.tracker ≡ some rows
      → (rest : List AppliedRow) × (last.tracker ≡ some rest)
  Ran-tracker [] db last rows ran tracker =
      (rows, sym (ap (λ (x : Database S). x.tracker) ran) ∙ tracker)
  Ran-tracker ((m, at) ∷ steps) db last rows (next, done, ran) tracker =
      Ran-tracker steps next last _ ran ((migrated-tracker m at db next done).1)

-- Where every migration is tracked or pending, and the pending ones come to be tracked, all are.
pub All-IsTracked :
    (rows later : List AppliedRow) (ms : List MigrationFile)
    → All (IsSameName rows) ms
    → All (IsTracked later) (pending rows ms)
    → ((v : ℕ) (name : Text) → tracked_name rows v ≡ some name → tracked_name later v ≡ some name)
    → All (IsTracked later) ms
unfolding pending
All-IsTracked rows later [] same done keeps = tt
All-IsTracked rows later (m ∷ ms) (inr tracked, same) done keeps = (
  keeps m.version m.name tracked,
  All-IsTracked rows later ms same (rw (pending, tracked) at done) keeps,
)
All-IsTracked rows later (m ∷ ms) (inl free, same) done keeps =
    let both : All (IsTracked later) (m ∷ pending rows ms) = rw (pending, free) at done in
    (both.0, All-IsTracked rows later ms same both.1 keeps)
