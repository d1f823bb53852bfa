-- ===== src/Db/Migrations/Load/Entries.antt =====
-- backend/src/db/migrationRunner.ts: the entries of a directory that are migrations.
use onetrackmind.Common.{
  true, false, List, [], ◌∷◌, some, Text, text, In, inl, inr, ◌≡◌, refl, sym, subst, ◌⊎◌,
  Bool-cases, Option-cases,
}
use onetrackmind.Common.Results.{returns, bind-returns}
use onetrackmind.Runtime.Files.{ends_with}
use onetrackmind.Db.Migrations.Names.{MigrationName, parse_migration_filename}
use onetrackmind.Db.Migrations.Load.{ParsedFile, with_filename, parse_entries}

abbrev pub meta_of : ParsedFile → MigrationName
meta_of file = record { version = file.version; name = file.name }

-- A file stands for the entry that its filename is.
abbrev pub IsEntry : List Text → ParsedFile → Type 0
IsEntry entries file =
    In file.filename entries
    × (ends_with file.filename (text ".sql") ≡ true)
    × (parse_migration_filename file.filename ≡ some (meta_of file))

-- An entry is passed over, or parsed before the others.
parsed-cons :
    (entry : Text) (rest : List Text) (files : List ParsedFile)
    → parse_entries (entry ∷ rest) ≡ returns files
    → ((ends_with entry (text ".sql") ≡ false) × (parse_entries rest ≡ returns files))
      ⊎ ((meta : MigrationName) × (others : List ParsedFile) × (ends_with entry (text ".sql")
            ≡ true)
          × (parse_migration_filename entry ≡ some meta)
          × (parse_entries rest ≡ returns others)
          × (with_filename meta entry ∷ others ≡ files))
unfolding parse_entries
parsed-cons entry rest files h = elim (Bool-cases (ends_with entry (text ".sql"))) [
  | inr skipped ↦ inl (skipped, rw (parse_entries, skipped) at h)
  | inl sql ↦ elim (Option-cases (parse_migration_filename entry)) [
    | inl bad ↦ absurd (cc (rw (parse_entries, sql, bad) at h))
    | inr (meta, good) ↦
        let (others, more, shape) =
          bind-returns (parse_entries rest) (λ o. returns (with_filename meta entry ∷ o)) files
            (rw (parse_entries, sql, good) at h) in
        inr (meta, others, sql, good, more, cc shape)
  ]
]

nothing : (files : List ParsedFile) → parse_entries [] ≡ returns files → files ≡ []
unfolding parse_entries
nothing files h = cc h

pub parse_entries-IsEntry :
    (entries : List Text) (files : List ParsedFile)
    → parse_entries entries ≡ returns files
    → (file : ParsedFile) → In file files
    → IsEntry entries file
unfolding parse_entries
parse_entries-IsEntry [] files h file i = absurd (subst (In file) (nothing files h) i)
parse_entries-IsEntry (entry ∷ rest) files h file i = elim (parsed-cons entry rest files h) [
  | inl (skipped, more) ↦
      let (there, ends, found) = parse_entries-IsEntry rest files more file i in
      (inr there, ends, found)
  | inr (meta, others, sql, good, more, shape) ↦ elim (subst (In file) (sym shape) i) [
    | inl here ↦ subst (IsEntry (entry ∷ rest)) (sym here) (inl refl, sql, good)
    | inr later ↦
        let (there, ends, found) = parse_entries-IsEntry rest others more file later in
        (inr there, ends, found)
  ]
]

pub parse_entries-In :
    (entries : List Text) (files : List ParsedFile)
    → parse_entries entries ≡ returns files
    → (entry : Text) → In entry entries
    → ends_with entry (text ".sql") ≡ true
    → (file : ParsedFile) × In file files × (file.filename ≡ entry)
parse_entries-In [] files h entry i sql = absurd i
parse_entries-In (first ∷ rest) files h entry i sql = elim (parsed-cons first rest files h) [
  | inl (skipped, more) ↦ elim i [
    | inl here ↦
        let first_sql = subst (λ name. ends_with name (text ".sql") ≡ true) here sql in
        absurd (cc (first_sql, skipped))
    | inr later ↦ parse_entries-In rest files more entry later sql
  ]
  | inr (meta, others, first_sql, good, more, shape) ↦ elim i [
    | inl here ↦
        (with_filename meta first, subst (In (with_filename meta first)) shape (inl refl), sym here)
    | inr later ↦
        let (file, there, name) = parse_entries-In rest others more entry later sql in
        (file, subst (In file) shape (inr there), name)
  ]
]
