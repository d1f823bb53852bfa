-- ===== src/Db/Migrations/Names.antt =====
-- backend/src/db/migrationRunner.ts: the filenames of migrations.
use mathlib.Core.Option
use onetrackmind.Common.{
  ℕ, ◌+◌, ◌*◌, ◌-◌, ◌/◌, ◌%◌, ◌<◌, Bool, true, ◌&&◌, ◌||◌, Option, none, some, [], ◌∷◌, ◌++◌, Text,
  Text-Eq, text, text_eq, text_eq_iff, leb, nat_beq, nat_beq_iff, every, if◌then◌else◌, ◌≡◌, refl,
  arith, ◌↔◌, ◌≢◌, Bool-cases, inl, inr,
}

pub record MigrationName : Type 0 where
  pub version : ℕ
  pub name : Text

-- `\d` and `[A-Za-z0-9_]`
abbrev pub is_digit : ℕ → Bool
is_digit c = leb 48 c && leb c 57

abbrev pub is_word : ℕ → Bool
is_word c = (leb 65 c && leb c 90) || (leb 97 c && leb c 122) || is_digit c || nat_beq c 95

-- `([A-Za-z0-9_]*)\.sql$`
unfoldable word_before_sql : Text → Option Text
word_before_sql [] = none
word_before_sql (c ∷ s) =
    if is_word c
    then Option.map (λ name. c ∷ name) (word_before_sql s)
    else if text_eq (c ∷ s) (text ".sql")
    then some []
    else none

abbrev named : ℕ → Option Text → Option MigrationName
named version none = none
named version (some []) = none
named version (some (c ∷ name)) = some (record { version = version; name = c ∷ name })

-- `parseInt(versionStr, 10)` of three digits
abbrev version_of : ℕ → ℕ → ℕ → ℕ
version_of a b c = (a - 48) * 100 + (b - 48) * 10 + (c - 48)

unfoldable pub parse_migration_filename : Text → Option MigrationName
unfolding word_before_sql
parse_migration_filename (a ∷ b ∷ c ∷ underscore ∷ rest) =
    if is_digit a && is_digit b && is_digit c && nat_beq underscore 95
    then named (version_of a b c) (word_before_sql rest)
    else none
parse_migration_filename _ = none

-- NNN_name.sql
unfoldable pub migration_filename : MigrationName → Text
migration_filename m =
    (48 + m.version / 100) ∷ (48 + m.version / 10 % 10) ∷ (48 + m.version % 10) ∷ 95 ∷ m.name
    ++ text ".sql"

abbrev pub IsMigrationName : MigrationName → Type 0
IsMigrationName m = (m.version < 1000) × (m.name ≢ []) × (every is_word m.name ≡ true)

word-print :
    (name : Text) → every is_word name ≡ true → word_before_sql (name ++ text ".sql") ≡ some name
unfolding word_before_sql text text_eq
word-print [] h = refl
word-print (c ∷ name) h = ground (arith, word-print name)

named_word-IsText :
    (c : ℕ) (o : Option Text) (name : Text)
    → Option.map (λ rest. c ∷ rest) o ≡ some name
    → (rest : Text) × (o ≡ some rest) × (name ≡ c ∷ rest)
named_word-IsText c none name h = cc
named_word-IsText c (some rest) name h = (rest, refl, cc)

word-read :
    (s name : Text)
    → word_before_sql s ≡ some name
    → (every is_word name ≡ true) × (s ≡ name ++ text ".sql")
unfolding word_before_sql
word-read [] name h = absurd (cc h)
word-read (c ∷ s) name h = elim (Bool-cases (is_word c)) [
  | inl word ↦
      let (rest, e, shape) = named_word-IsText c (word_before_sql s) name (rw word at h) in
      let (words, tail) = word-read s rest e in rw (shape, word, tail) (words, refl)
  | inr other ↦ elim (Bool-cases (text_eq (c ∷ s) (text ".sql"))) [
    | inl end ↦
        let none_left : [] ≡ name = cc (rw (other, end) at h) in
        rw (← none_left) (refl, (text_eq_iff (c ∷ s) (text ".sql")).0 end)
    | inr bad ↦ absurd (cc (rw (other, bad) at h))
  ]
]

version-digits :
    (a b c : ℕ)
    → is_digit a ≡ true
    → is_digit b ≡ true
    → is_digit c ≡ true
    → (48 + version_of a b c / 100 ≡ a)
      × (48 + version_of a b c / 10 % 10 ≡ b)
      × (48 + version_of a b c % 10 ≡ c)
      × (version_of a b c < 1000)
version-digits a b c ha hb hc = ground arith

digits-version :
    (v : ℕ)
    → v < 1000
    → (is_digit (48 + v / 100) ≡ true)
      × (is_digit (48 + v / 10 % 10) ≡ true)
      × (is_digit (48 + v % 10) ≡ true)
      × (version_of (48 + v / 100) (48 + v / 10 % 10) (48 + v % 10) ≡ v)
digits-version v h = ground arith

named-some :
    (v : ℕ) (o : Option Text) (m : MigrationName)
    → named v o ≡ some m
    → (o ≡ some m.name) × (m.version ≡ v) × (m.name ≢ [])
named-some v none m h = absurd (cc h)
named-some v (some []) m h = absurd (cc h)
named-some v (some (c ∷ name)) m h = (cc h, cc h, λ e. absurd (cc (h, e)))

four-split :
    (a b c d : Bool) → (a && b && c && d) ≡ true → (a ≡ true) × (b ≡ true) × (c ≡ true) × (d ≡ true)
four-split a b c d h = ground arith

filename-read :
    (f : Text) (m : MigrationName)
    → parse_migration_filename f ≡ some m
    → IsMigrationName m × (f ≡ migration_filename m)
unfolding parse_migration_filename migration_filename
filename-read (a ∷ b ∷ c ∷ u ∷ rest) m h =
    elim (Bool-cases (is_digit a && is_digit b && is_digit c && nat_beq u 95)) [
      | inl digits ↦
          let (da, db, dc, dash) =
            four-split (is_digit a) (is_digit b) (is_digit c) (nat_beq u 95) digits in
          let (name, v, filled) =
            named-some (version_of a b c) (word_before_sql rest) m (rw digits at h) in
          let (words, tail) = word-read rest m.name name in
          let (ea, eb, ec, small) = version-digits a b c da db dc in
          let eu : u ≡ 95 = (nat_beq_iff u 95).0 dash in
          ((rw v small, filled, words), rw (v, ea, eb, ec, eu, tail))
      | inr bad ↦ absurd (cc (rw bad at h))
    ]
filename-read [] m h = absurd (cc h)
filename-read (a ∷ []) m h = absurd (cc h)
filename-read (a ∷ b ∷ []) m h = absurd (cc h)
filename-read (a ∷ b ∷ c ∷ []) m h = absurd (cc h)

filled-named :
    (v : ℕ) (name : Text)
    → name ≢ []
    → named v (some name) ≡ some (record { version = v; name = name })
filled-named v [] h = absurd (h refl)
filled-named v (c ∷ name) h = refl

filename-print :
    (m : MigrationName)
    → IsMigrationName m
    → parse_migration_filename (migration_filename m) ≡ some m
unfolding parse_migration_filename migration_filename
filename-print m h =
    let (da, db, dc, v) = digits-version m.version h.0 in
    rw (da, db, dc, v, word-print m.name h.2) (filled-named m.version m.name h.1)

-- `parseMigrationFilename` accepts exactly the files NNN_name.sql with three digits and a name of
-- letters, digits and underscores, and reads that number and that name from them.
pub parse_migration_filename_iff :
    (f : Text) (m : MigrationName)
    → (parse_migration_filename f ≡ some m) ↔ (IsMigrationName m × (f ≡ migration_filename m))
parse_migration_filename_iff f m = (filename-read f m, λ (ok, e). rw e (filename-print m ok))
