-- ===== src/Db/Migrations/Load/Contents.antt =====
-- backend/src/db/migrationRunner.ts: the contents of the migrations.
use onetrackmind.Common.{ℕ, ◌<◌, List, [], ◌∷◌, Text, All, In, inl, inr, ◌≡◌, refl, sym, subst}
use onetrackmind.Common.Results.{returns, bind-returns, returns-inj, Throws-cases}
use onetrackmind.Runtime.Files.{Files}
use onetrackmind.Db.Migrations.Load.{MigrationFile, ParsedFile, read_migrations}
use onetrackmind.Db.Migrations.Load.Order.{Ascending}

-- A migration is what a file of the directory holds.
abbrev pub IsRead : Files → Text → MigrationFile → ParsedFile → Type 0
IsRead fs dir m file =
    (m.version ≡ file.version)
    × (m.name ≡ file.name)
    × (fs.read_file (fs.join dir file.filename) ≡ returns m.sql)

abbrev pub AllRead : Files → Text → List MigrationFile → List ParsedFile → Type 0
AllRead fs dir [] [] = Unit
AllRead fs dir (m ∷ ms) (file ∷ files) = IsRead fs dir m file × AllRead fs dir ms files
AllRead fs dir _ _ = ⊥

pub read-AllRead :
    (fs : Files) (dir : Text) (files : List ParsedFile) (ms : List MigrationFile)
    → read_migrations fs dir files ≡ returns ms
    → AllRead fs dir ms files
unfolding read_migrations
read-AllRead fs dir [] ms h = subst (λ m. AllRead fs dir m []) (returns-inj h) tt
read-AllRead fs dir (file ∷ files) ms h =
    elim (Throws-cases (fs.read_file (fs.join dir file.filename))) [
      | inl (sql, held) ↦
          let m : MigrationFile = record { version = file.version; name = file.name; sql = sql } in
          let (others, more, shape) =
            bind-returns (read_migrations fs dir files) (λ o. returns (m ∷ o)) ms
              (rw (read_migrations, held) at h) in
          subst (λ x. AllRead fs dir x (file ∷ files)) (returns-inj shape)
            ((refl, refl, held), read-AllRead fs dir files others more)
      | inr (err, bad) ↦ absurd (cc (rw (read_migrations, bad) at h))
    ]

abbrev pub IsAscending : List MigrationFile → Type 0
IsAscending [] = Unit
IsAscending (m ∷ ms) = All (λ next. m.version < next.version) ms × IsAscending ms

All-below :
    (fs : Files) (dir : Text) (n : ℕ) (ms : List MigrationFile) (files : List ParsedFile)
    → AllRead fs dir ms files
    → All (λ file. n < file.version) files
    → All (λ m. n < m.version) ms
All-below fs dir n [] files r h = tt
All-below fs dir n (m ∷ ms) [] r h = absurd r
All-below fs dir n (m ∷ ms) (file ∷ files) r h =
    (subst (λ v. n < v) (sym r.0.0) h.0, All-below fs dir n ms files r.1 h.1)

pub Ascending-read :
    (fs : Files) (dir : Text) (ms : List MigrationFile) (files : List ParsedFile)
    → AllRead fs dir ms files
    → Ascending files
    → IsAscending ms
Ascending-read fs dir [] files r h = tt
Ascending-read fs dir (m ∷ ms) [] r h = absurd r
Ascending-read fs dir (m ∷ ms) (file ∷ files) r h = (
  All-below fs dir m.version ms files r.1
      (subst (λ v. All (λ next. v < next.version) files) (sym r.0.0) h.0),
  Ascending-read fs dir ms files r.1 h.1,
)

pub IsRead-of :
    (fs : Files) (dir : Text) (ms : List MigrationFile) (files : List ParsedFile)
    → AllRead fs dir ms files
    → (m : MigrationFile) → In m ms
    → (file : ParsedFile) × In file files × IsRead fs dir m file
IsRead-of fs dir [] files r m i = absurd i
IsRead-of fs dir (first ∷ ms) [] r m i = absurd r
IsRead-of fs dir (first ∷ ms) (file ∷ files) r m (inl here) =
    (file, inl refl, subst (λ x. IsRead fs dir x file) (sym here) r.0)
IsRead-of fs dir (first ∷ ms) (file ∷ files) r m (inr later) =
    let (found, there, held) = IsRead-of fs dir ms files r.1 m later in (found, inr there, held)

pub IsRead-for :
    (fs : Files) (dir : Text) (ms : List MigrationFile) (files : List ParsedFile)
    → AllRead fs dir ms files
    → (file : ParsedFile) → In file files
    → (m : MigrationFile) × In m ms × IsRead fs dir m file
IsRead-for fs dir ms [] r file i = absurd i
IsRead-for fs dir [] (first ∷ files) r file i = absurd r
IsRead-for fs dir (m ∷ ms) (first ∷ files) r file (inl here) =
    (m, inl refl, subst (λ x. IsRead fs dir m x) (sym here) r.0)
IsRead-for fs dir (m ∷ ms) (first ∷ files) r file (inr later) =
    let (found, there, held) = IsRead-for fs dir ms files r.1 file later in (found, inr there, held)
