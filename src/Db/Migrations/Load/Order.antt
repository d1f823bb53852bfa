-- ===== src/Db/Migrations/Load/Order.antt =====
-- The order of the loaded migrations.
use onetrackmind.Common.{
  ℕ, ◌<◌, List, [], ◌∷◌, Option, none, some, Text, leb, nat_beq, All, In, inl, inr, ◌↔◌, ◌≡◌, ◌≢◌,
  Bool-cases, Option-cases, arith, if◌then◌else◌,
}
use onetrackmind.Common.Results.{returns}
use onetrackmind.Db.Migrations.Load.{
  ParsedFile, claimant, check_duplicates, insert_version, sort_versions,
}

abbrev pub Distinct : List ParsedFile → Type 0
Distinct [] = Unit
Distinct (file ∷ rest) = All (λ next. file.version ≢ next.version) rest × Distinct rest

abbrev pub Ascending : List ParsedFile → Type 0
Ascending [] = Unit
Ascending (file ∷ rest) = All (λ next. file.version < next.version) rest × Ascending rest

abbrev pub Unclaimed : List ParsedFile → List ParsedFile → Type 0
Unclaimed seen rest = All (λ file. claimant seen file.version ≡ none) rest

unclaimed_one :
    (v w : ℕ) (name : Text) (earlier : Option Text)
    → (if nat_beq v w then some name else earlier) ≡ none
    → (earlier ≡ none) × (v ≢ w)
unclaimed_one v w name earlier h = elim (Bool-cases (nat_beq v w)) [
  | inl same ↦ absurd (cc (rw same at h))
  | inr apart ↦ (rw apart at h, λ e. ground arith)
]

Unclaimed-cons :
    (file : ParsedFile) (seen rest : List ParsedFile)
    → Unclaimed (file ∷ seen) rest
    → Unclaimed seen rest × All (λ next. file.version ≢ next.version) rest
unfolding claimant
Unclaimed-cons file seen [] h = (tt, tt)
Unclaimed-cons file seen (next ∷ rest) h =
    let (free, apart) =
      unclaimed_one file.version next.version file.filename (claimant seen next.version) h.0 in
    let (frees, aparts) = Unclaimed-cons file seen rest h.1 in ((free, frees), (apart, aparts))

pub check-Distinct :
    (seen rest : List ParsedFile)
    → check_duplicates seen rest ≡ returns tt
    → Unclaimed seen rest × Distinct rest
unfolding check_duplicates
check-Distinct seen [] h = (tt, tt)
check-Distinct seen (file ∷ rest) h = elim (Option-cases (claimant seen file.version)) [
  | inl free ↦
      let (frees, apart) = check-Distinct (file ∷ seen) rest (rw (free, check_duplicates) at h) in
      let (others, different) = Unclaimed-cons file seen rest frees in
      ((free, others), (different, apart))
  | inr (name, taken) ↦ absurd (cc (rw (taken, check_duplicates) at h))
]

insert_version-In :
    (f a : ParsedFile) (xs : List ParsedFile) → In f (insert_version a xs) ↔ In f (a ∷ xs)
unfolding insert_version
insert_version-In f a [] = ground arith
insert_version-In f a (x ∷ xs) = elim (Bool-cases (leb a.version x.version)) [
  | inl before ↦ rw before (λ h. h, λ h. h)
  | inr after ↦ rw after (ground (arith, insert_version-In f a xs))
]

pub sort_versions-In : (f : ParsedFile) (xs : List ParsedFile) → In f (sort_versions xs) ↔ In f xs
unfolding sort_versions
sort_versions-In f [] = (λ h. h, λ h. h)
sort_versions-In f (x ∷ xs) =
    ground (arith, insert_version-In f x (sort_versions xs), sort_versions-In f xs)

module _ (P : ParsedFile → Type 0) where
  insert_version-All :
      (a : ParsedFile) (xs : List ParsedFile) → P a → All P xs → All P (insert_version a xs)
  unfolding insert_version
  insert_version-All a [] ha hs = (ha, tt)
  insert_version-All a (x ∷ xs) ha hs = elim (Bool-cases (leb a.version x.version)) [
    | inl before ↦ rw before (ha, hs)
    | inr after ↦ rw after (hs.0, insert_version-All a xs ha hs.1)
  ]

  sort_versions-All : (xs : List ParsedFile) → All P xs → All P (sort_versions xs)
  unfolding sort_versions
  sort_versions-All [] hs = tt
  sort_versions-All (x ∷ xs) hs =
      insert_version-All x (sort_versions xs) hs.0 (sort_versions-All xs hs.1)

All-below :
    (n k : ℕ)
    → n < k
    → (xs : List ParsedFile) → All (λ x. k < x.version) xs
    → All (λ x. n < x.version) xs
All-below n k h [] hs = tt
All-below n k h (x ∷ xs) hs = (omega (arith, h, hs.0), All-below n k h xs hs.1)

insert_version-Ascending :
    (a : ParsedFile) (xs : List ParsedFile)
    → Ascending xs
    → All (λ x. a.version ≢ x.version) xs
    → Ascending (insert_version a xs)
unfolding insert_version
insert_version-Ascending a [] up apart = (tt, tt)
insert_version-Ascending a (x ∷ xs) up apart = elim (Bool-cases (leb a.version x.version)) [
  | inl before ↦
      let below : a.version < x.version = ground (arith, apart.0) in
      rw before ((below, All-below a.version x.version below xs up.0), up)
  | inr after ↦
      let below : x.version < a.version = ground arith in
      rw after (
        insert_version-All (λ y. x.version < y.version) a xs below up.0,
        insert_version-Ascending a xs up.1 apart.1,
      )
]

pub sort_versions-Ascending : (xs : List ParsedFile) → Distinct xs → Ascending (sort_versions xs)
unfolding sort_versions
sort_versions-Ascending [] h = tt
sort_versions-Ascending (x ∷ xs) h =
    insert_version-Ascending x (sort_versions xs) (sort_versions-Ascending xs h.1)
      (sort_versions-All (λ y. x.version ≢ y.version) xs h.0)
