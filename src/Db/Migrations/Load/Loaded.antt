-- ===== src/Db/Migrations/Load/Loaded.antt =====
-- What a loaded directory is.
use mathlib.Core.List.{Perm}
use onetrackmind.Common.{
  true, List, [], ◌∷◌, some, Text, text, In, inl, inr, ◌≡◌, refl, ap, List-cases,
}
use onetrackmind.Common.Results.{Throws, returns, ◌>>=◌, bind-returns, Throws-cases}
use onetrackmind.Runtime.Files.{Files, ends_with}
use onetrackmind.Runtime.Sort.{sort, sort-eq_of_perm}
use onetrackmind.Runtime.Trim.{trim}
use onetrackmind.Runtime.Sort.Members.{sort-In}
use onetrackmind.Db.Migrations.Names.{parse_migration_filename}
use onetrackmind.Db.Migrations.Load.{
  MigrationFile, LoadFailure, ParsedFile, parse_entries, check_duplicates, sort_versions,
  read_migrations, load_entries, load_migrations_from_dir,
}
use onetrackmind.Db.Migrations.Load.Order.{
  check-Distinct, sort_versions-In, sort_versions-Ascending,
}
use onetrackmind.Db.Migrations.Load.Entries.{parse_entries-IsEntry, parse_entries-In}
use onetrackmind.Db.Migrations.Load.Contents.{
  IsAscending, read-AllRead, Ascending-read, IsRead-of, IsRead-for,
}

-- The migrations of a directory with these entries: in strictly ascending order of their versions,
-- each what the file of one entry NNN_name.sql holds, and one for every entry that ends in '.sql'.
pub record IsLoaded (fs : Files) (dir : Text) (entries : List Text) (ms : List MigrationFile)
    : Type 0 where
  pub ascending : IsAscending ms
  pub held :
      (m : MigrationFile)
      → In m ms
      → (filename : Text) × In filename entries
        × (parse_migration_filename filename ≡ some (record { version = m.version; name = m.name }))
        × (fs.read_file (fs.join dir filename) ≡ returns m.sql)
  pub complete :
      (filename : Text)
      → In filename entries
      → ends_with filename (text ".sql") ≡ true
      → (m : MigrationFile) × In m ms
        × (parse_migration_filename filename ≡ some (record { version = m.version; name = m.name }))

load_entries-IsLoaded :
    (fs : Files) (dir : Text) (entries : List Text) (ms : List MigrationFile)
    → load_entries fs dir entries ≡ returns ms
    → IsLoaded fs dir entries ms
unfolding load_entries
load_entries-IsLoaded fs dir entries ms h =
    let (parsed, parse, h2) = bind-returns (parse_entries (sort entries)) _ ms h in
    let (unit, checked, h3) = bind-returns (check_duplicates [] parsed) _ ms h2 in
    let distinct = (check-Distinct [] parsed checked).1 in
    let read = read-AllRead fs dir (sort_versions parsed) ms h3 in
    record {
      ascending =
          Ascending-read fs dir ms (sort_versions parsed) read
            (sort_versions-Ascending parsed distinct);
      held = λ m i.
          let (file, there, (v, n, bytes)) = IsRead-of fs dir ms (sort_versions parsed) read m i in
          let (member, ends, name) =
            parse_entries-IsEntry (sort entries) parsed parse file
              ((sort_versions-In file parsed).0 there) in
          (file.filename, (sort-In file.filename entries).0 member, rw (v, n) name, bytes);
      complete = λ filename i ends.
          let (file, there, same) =
            parse_entries-In (sort entries) parsed parse filename ((sort-In filename entries).1 i)
              ends in
          let (m, listed, (v, n, bytes)) =
            IsRead-for fs dir ms (sort_versions parsed) read file
              ((sort_versions-In file parsed).1 there) in
          let (member, end, name) = parse_entries-IsEntry (sort entries) parsed parse file there in
          (m, listed, rw (v, n, ← same) name);
    }

load-entries :
    (fs : Files) (dir : Text) (entries : List Text)
    (result : Throws LoadFailure (List MigrationFile))
    → fs.read_dir dir ≡ returns entries
    → load_migrations_from_dir fs dir ≡ returns result
    → load_entries fs dir entries ≡ result
unfolding load_migrations_from_dir
load-entries fs dir entries result listed h = elim (List-cases (trim dir)) [
  | inl blank ↦ absurd (cc (rw (load_migrations_from_dir, blank) at h))
  | inr (c, rest, filled) ↦ cc (rw (load_migrations_from_dir, filled, listed) at h)
]

-- A directory that is loaded is loaded right: the migrations stand in strictly ascending order of
-- their versions, each is what the file of an entry NNN_name.sql holds, and every entry that ends
-- in '.sql' is one of them.
pub load_migrations_from_dir-IsLoaded :
    (fs : Files) (dir : Text) (entries : List Text) (ms : List MigrationFile)
    → fs.read_dir dir ≡ returns entries
    → load_migrations_from_dir fs dir ≡ returns (returns ms)
    → IsLoaded fs dir entries ms
load_migrations_from_dir-IsLoaded fs dir entries ms listed h =
    load_entries-IsLoaded fs dir entries ms (load-entries fs dir entries (returns ms) listed h)

read-relisted :
    (fs : Files) (dir : Text) (others : List Text) (files : List ParsedFile)
    → read_migrations (record fs { read_dir = λ _. returns others }) dir files
      ≡ read_migrations fs dir files
unfolding read_migrations
read-relisted fs dir others [] = refl
read-relisted fs dir others (file ∷ files) =
    elim (Throws-cases (fs.read_file (fs.join dir file.filename))) [
      | inl (sql, held) ↦
          rw (read_migrations, held)
            (ap
              (λ more. more >>= λ ms.
                returns (record { version = file.version; name = file.name; sql = sql } ∷ ms))
              (read-relisted fs dir others files))
      | inr (err, bad) ↦ rw (read_migrations, bad)
    ]

load_entries-relisted :
    (fs : Files) (dir : Text) (entries others : List Text)
    → Perm entries others
    → load_entries (record fs { read_dir = λ _. returns others }) dir others
      ≡ load_entries fs dir entries
unfolding load_entries
load_entries-relisted fs dir entries others p = rw (sort-eq_of_perm p) (
    ap
      (λ (read : List ParsedFile → Throws LoadFailure (List MigrationFile)).
        parse_entries (sort others) >>= λ parsed. check_duplicates [] parsed >>= λ _. read parsed)
      (λ i parsed. read-relisted fs dir others (sort_versions parsed) i))

-- The order in which the file system lists the entries does not matter.
pub load_migrations_from_dir-perm :
    (fs : Files) (dir : Text) (entries others : List Text)
    → fs.read_dir dir ≡ returns entries
    → Perm entries others
    → load_migrations_from_dir (record fs { read_dir = λ _. returns others }) dir
      ≡ load_migrations_from_dir fs dir
unfolding load_migrations_from_dir
load_migrations_from_dir-perm fs dir entries others listed p = elim (List-cases (trim dir)) [
  | inl blank ↦ rw (load_migrations_from_dir, blank)
  | inr (c, rest, filled) ↦
      rw (load_migrations_from_dir, filled, listed)
        (ap (λ x. returns x) (load_entries-relisted fs dir entries others p))
]
