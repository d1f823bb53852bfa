-- ===== src/Examples/Migrations.antt =====
-- The theorems on the migration runner: a directory of two migrations and a README, listed out of
-- order, and a client on which every statement adds its text to the database.
use mathlib.Core.List.Perm
use onetrackmind.Common.{
  List, [], ◌∷◌, ◌++◌, none, some, Text, text, text_eq, text_le, nat_beq, if◌then◌else◌, ◌≡◌, ◌↔◌,
  refl, inr, All, arith,
}
use onetrackmind.Common.Results.{returns, Thrown}
use onetrackmind.Runtime.Sort.{sort}
use onetrackmind.Runtime.Trim.{trim}
use onetrackmind.Runtime.Files.{Files, ends_with}
use onetrackmind.Db.Migrations.Names.{
  MigrationName, parse_migration_filename, migration_filename, IsMigrationName,
  parse_migration_filename_iff,
}
use onetrackmind.Db.Migrations.Split.{split_sql_statements}
use onetrackmind.Db.Migrations.Split.Grammar.{
  Piece, literal, identifier, remark, character, script_text, statements,
  split_sql_statements-statements,
}
use onetrackmind.Db.Migrations.Load.{MigrationFile, load_migrations_from_dir}
use onetrackmind.Db.Migrations.Load.Loaded.{
  IsLoaded, load_migrations_from_dir-IsLoaded, load_migrations_from_dir-perm,
}
use onetrackmind.Db.Migrations.Connection.{call, tracked_name, Database, Client}
use onetrackmind.Db.Migrations.Run.{RunSuccess, run_loaded, run_migrations}
use onetrackmind.Db.Migrations.Run.Outcome.{idle}
use onetrackmind.Db.Migrations.Run.Directory.{
  IsDirectoryRun, run_migrations-IsDirectoryRun, run_migrations-again,
}
use onetrackmind.Db.Migrations.Run.Total.{RunsTo, CanRun, run_loaded-ends_well}

abbrev dir : Text
dir = text "migrations"

abbrev entries : List Text
entries = text "002_b.sql" ∷ text "README.md" ∷ text "001_a.sql" ∷ []

abbrev fs : Files
fs = record {
  read_dir = λ _. returns entries;
  read_file = λ _. returns (text "one; two");
  join = λ directory filename. directory ++ (text "/" ++ filename);
}

abbrev migrations : List MigrationFile
migrations =
    record { version = 1; name = text "a"; sql = text "one; two" }
    ∷ record { version = 2; name = text "b"; sql = text "one; two" }
    ∷ []

abbrev client : Client (List Text)
client = record {
  fault = λ _. none;
  now = λ _. 0;
  exec = λ statement content. returns (content ++ statement ∷ []);
}

-- The driver fails at the fourth call, the first statement of the first migration.
abbrev failing : Client (List Text)
failing = record client {
  fault =
      λ k. if nat_beq k 3 then some (Thrown.error (text "Error") (text "disk I/O error")) else none;
}

abbrev empty_database : Database (List Text)
empty_database = record { content = []; tracker = none }

abbrev name : MigrationName
name = record { version = 1; name = text "a" }

parse_migration_filename_iff_example :
    (parse_migration_filename (text "001_a.sql") ≡ some name)
    ↔ (IsMigrationName name × (text "001_a.sql" ≡ migration_filename name))
parse_migration_filename_iff_example = parse_migration_filename_iff (text "001_a.sql") name

-- ` 'a;b'` and a comment, between two statements of one letter.
abbrev first_statement : List Piece
first_statement = character 97 ∷ []

abbrev other_statements : List (List Piece)
other_statements =
    (character 32 ∷ literal (text "a;b") ∷ remark (text "it's; done") ∷ [])
    ∷ (remark (text "nothing") ∷ [])
    ∷ (identifier (text "c") ∷ [])
    ∷ []

split_sql_statements-statements_example :
    split_sql_statements (script_text first_statement other_statements)
    ≡ statements first_statement other_statements
unfolding text
split_sql_statements-statements_example =
    split_sql_statements-statements first_statement other_statements
      (((refl, refl), tt), (((refl, refl), (refl, (refl, tt))), ((refl, tt), (refl, tt))))

loaded : load_migrations_from_dir fs dir ≡ returns (returns migrations)
unfolding load_migrations_from_dir text trim sort text_le ends_with text_eq parse_migration_filename
loaded = refl

load_migrations_from_dir-IsLoaded_example : IsLoaded fs dir entries migrations
load_migrations_from_dir-IsLoaded_example =
    load_migrations_from_dir-IsLoaded fs dir entries migrations refl loaded

load_migrations_from_dir-perm_example :
    load_migrations_from_dir
      (record fs {
        read_dir = λ _. returns (text "README.md" ∷ text "002_b.sql" ∷ text "001_a.sql" ∷ []);
      })
      dir
    ≡ load_migrations_from_dir fs dir
load_migrations_from_dir-perm_example =
    load_migrations_from_dir-perm fs dir entries
      (text "README.md" ∷ text "002_b.sql" ∷ text "001_a.sql" ∷ []) refl
      (Perm.swap (text "README.md") (text "002_b.sql") (text "001_a.sql" ∷ []))

run_migrations-IsDirectoryRun_example :
    IsDirectoryRun failing empty_database 0
      (load_migrations_from_dir fs dir)
      (run_migrations failing fs dir (idle empty_database 0))
run_migrations-IsDirectoryRun_example =
    run_migrations-IsDirectoryRun failing empty_database 0 fs dir

abbrev success : RunSuccess
success = record {
  applied = record { version = 1; name = text "a" } ∷ record { version = 2; name = text "b" } ∷ [];
  skipped_count = 0;
}

good : (run_migrations client fs dir (idle empty_database 0)).0 ≡ returns (returns success)
unfolding run_migrations load_migrations_from_dir text trim sort text_le ends_with text_eq
    parse_migration_filename split_sql_statements call tracked_name
good = refl

run_migrations-again_example :
    run_migrations client fs dir
      (idle (run_migrations client fs dir (idle empty_database 0)).1.committed 0)
    ≡ (
      returns (returns (record { applied = []; skipped_count = 2 })),
      idle (run_migrations client fs dir (idle empty_database 0)).1.committed 2,
    )
run_migrations-again_example =
    run_migrations-again client client fs dir migrations empty_database 0 0 success loaded good
      (λ _. refl)

runs_to :
    (statements content : List Text)
    → (final : List Text) × RunsTo client (λ _. refl) statements content final
runs_to [] content = (content, refl)
runs_to (statement ∷ statements) content =
    let (final, runs) = runs_to statements (content ++ statement ∷ []) in
    (final, (content ++ statement ∷ [], refl, runs))

can_run :
    (ms : List MigrationFile) (content : List Text)
    → All (λ m. tracked_name [] m.version ≡ none) ms
    → CanRun client (λ _. refl) [] ms content
can_run [] content free = tt
can_run (m ∷ ms) content free =
    let (final, runs) = runs_to (split_sql_statements m.sql) content in
    inr (free.0, final, runs, can_run ms final free.1)

run_loaded-ends_well_example :
    (found : RunSuccess) × ((run_loaded client migrations (idle empty_database 0)).0
      ≡ returns found)
unfolding tracked_name
run_loaded-ends_well_example =
    run_loaded-ends_well client (λ _. refl) migrations empty_database 0
      ((omega arith, tt), (tt, tt)) (can_run migrations [] (refl, (refl, tt)))
