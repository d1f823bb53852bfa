-- ===== src/Db/Migrations/Load.antt =====
-- backend/src/db/migrationRunner.ts: the migrations of a directory.
pub mod Order
pub mod Entries
pub mod Contents
pub mod Loaded
use onetrackmind.Common.{
  ℕ, Bool, true, false, List, [], ◌∷◌, ◌++◌, Option, none, some, Text, Text-Eq, text, ◌==◌, leb,
  nat_beq, if◌then◌else◌,
}
use onetrackmind.Common.Results.{Thrown, Throws, returns, throws, ◌>>=◌, error_message_of}
use onetrackmind.Runtime.Decimal.{decimal}
use onetrackmind.Runtime.Files.{FsError, Files, ends_with}
use onetrackmind.Runtime.Sort.{sort}
use onetrackmind.Runtime.Trim.{trim}
use onetrackmind.Db.Migrations.Names.{MigrationName, parse_migration_filename}

pub record MigrationFile : Type 0 where
  pub version : ℕ
  pub name : Text
  pub sql : Text

pub data LoadCause : Type 0 where
  dir_not_found dir_unreadable invalid_filename duplicate_version read_error : LoadCause

pub record LoadFailure : Type 0 where
  pub cause : LoadCause
  pub detail : Text

abbrev load_failure : LoadCause → Text → LoadFailure
load_failure cause detail = record { cause = cause; detail = detail }

pub record ParsedFile : Type 0 where
  pub version : ℕ
  pub name : Text
  pub filename : Text

abbrev directory_failure : Text → FsError → LoadFailure
directory_failure dir err =
    if is_enoent err.code
    then load_failure dir_not_found (text "migrations directory not found: " ++ dir)
    else load_failure dir_unreadable (
        text "failed to read migrations directory "
        ++ dir
        ++ text ": "
        ++ error_message_of err.thrown)
  where
    is_enoent : Option Text → Bool
    is_enoent none = false
    is_enoent (some code) = code == text "ENOENT"

-- `{ ...meta, filename }`
abbrev pub with_filename : MigrationName → Text → ParsedFile
with_filename meta filename = record {
  version = meta.version;
  name = meta.name;
  filename = filename;
}

-- The loop over the sorted entries.
unfoldable parse_entries : List Text → Throws LoadFailure (List ParsedFile)
parse_entries [] = returns []
parse_entries (filename ∷ rest) =
    let more = parse_entries rest in
    if ends_with filename (text ".sql")
    then elim (parse_migration_filename filename) [
      | none ↦
          throws (load_failure invalid_filename (filename ++ text " does not match NNN_name.sql"))
      | some meta ↦ do files ← more; returns (with_filename meta filename ∷ files)
    ]
    else more

-- `seen.get(version)`
unfoldable claimant : List ParsedFile → ℕ → Option Text
claimant [] version = none
claimant (file ∷ seen) version =
    let earlier = claimant seen version in
    if nat_beq file.version version then some file.filename else earlier

unfoldable check_duplicates : List ParsedFile → List ParsedFile → Throws LoadFailure (Unit {0})
unfolding claimant
check_duplicates seen [] = returns tt
check_duplicates seen (file ∷ rest) =
    let more = check_duplicates (file ∷ seen) rest in
    elim (claimant seen file.version) [
      | some existing ↦ throws (
          load_failure duplicate_version (
            text "version "
            ++ (decimal file.version
                ++ (text " claimed by both " ++ (existing ++ (text " and " ++ file.filename))))))
      | none ↦ more
    ]

-- `parsed.sort((a, b) => a.version - b.version)`, which is stable.
unfoldable insert_version : ParsedFile → List ParsedFile → List ParsedFile
insert_version file [] = file ∷ []
insert_version file (next ∷ rest) =
    let later = insert_version file rest in
    if leb file.version next.version then file ∷ next ∷ rest else next ∷ later

unfoldable sort_versions : List ParsedFile → List ParsedFile
unfolding insert_version
sort_versions [] = []
sort_versions (file ∷ rest) = insert_version file (sort_versions rest)

unfoldable read_migrations :
    Files → Text → List ParsedFile → Throws LoadFailure (List MigrationFile)
read_migrations fs dir [] = returns []
read_migrations fs dir (file ∷ rest) =
    let more = read_migrations fs dir rest in
    elim (fs.read_file (fs.join dir file.filename)) [
      | returns sql ↦ do
        migrations ← more
        returns (record { version = file.version; name = file.name; sql = sql } ∷ migrations)
      | throws err ↦ throws (
          load_failure read_error (
            text "failed to read "
            ++ (file.filename ++ (text ": " ++ error_message_of err.thrown))))
    ]

unfoldable load_entries : Files → Text → List Text → Throws LoadFailure (List MigrationFile)
unfolding parse_entries check_duplicates sort_versions read_migrations
load_entries fs dir entries = do
  parsed ← parse_entries (sort entries)
  _ ← check_duplicates [] parsed
  read_migrations fs dir (sort_versions parsed)

-- The outer result is a violated precondition, the inner one `ok: false`.
unfoldable pub load_migrations_from_dir :
    Files → Text → Throws Thrown (Throws LoadFailure (List MigrationFile))
unfolding load_entries
load_migrations_from_dir fs dir = elim (trim dir) [
  | [] ↦
      throws
        (Thrown.error (text "Error") (text "loadMigrationsFromDir: dir must be a non-empty string"))
  | _ ∷ _ ↦ elim (fs.read_dir dir) [
    | throws err ↦ returns (throws (directory_failure dir err))
    | returns entries ↦ returns (load_entries fs dir entries)
  ]
]
