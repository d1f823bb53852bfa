-- ===== src/Runtime/Date/Civil.antt =====
-- The calendar is strictly increasing in the day, and its parts are in range.
use onetrackmind.Common.{
  ℕ, zero, suc, ◌+◌, ◌-◌, ◌*◌, ◌≤◌, ◌<◌, ◌≡◌, ◌⊎◌, inl, inr, refl, List, [], ◌∷◌, length, All,
  arith,
}
use onetrackmind.Runtime.Date.{
  year_length, month_lengths, year_from, month_from, year_of, month_of, last_years,
}

abbrev sum : List ℕ → ℕ
sum [] = 0
sum (x ∷ xs) = x + sum xs

year_length_bounds : (y : ℕ) → (365 ≤ year_length y) × (year_length y ≤ 366)
unfolding year_length
year_length_bounds y = ground arith

year_from-ge : (f y d : ℕ) → y ≤ (year_from f y d).0
unfolding year_from
year_from-ge zero y d = omega arith
year_from-ge (suc f) y d = ground (arith, year_from-ge f (y + 1) (d - year_length y))

year_from-le : (f y d : ℕ) → (year_from f y d).0 ≤ y + f
unfolding year_from
year_from-le zero y d = omega arith
year_from-le (suc f) y d = ground (arith, year_from-le f (y + 1) (d - year_length y))

-- A later day lies in a later year, or later in the same year.
year_from_mono :
    (f y a b : ℕ)
    → a < b
    → ((year_from f y a).0 < (year_from f y b).0)
      ⊎ (((year_from f y a).0 ≡ (year_from f y b).0) × ((year_from f y a).1 < (year_from f y b).1))
unfolding year_from
year_from_mono zero y a b h = inr (refl, h)
year_from_mono (suc f) y a b h = ground (
  arith,
  year_from-ge f (y + 1) (b - year_length y),
  year_from_mono f (y + 1) (a - year_length y) (b - year_length y),
)

year_from-lt-length :
    (f y d : ℕ) → d < 365 * (f + 1) → (year_from f y d).1 < year_length (year_from f y d).0
unfolding year_from
year_from-lt-length zero y d h = omega (arith, year_length_bounds y)
year_from-lt-length (suc f) y d h =
    ground (arith, year_length_bounds y, year_from-lt-length f (y + 1) (d - year_length y))

month_from-ge : (lens : List ℕ) (m d : ℕ) → m ≤ (month_from lens m d).0
unfolding month_from
month_from-ge [] m d = omega arith
month_from-ge (len ∷ lens) m d = ground (arith, month_from-ge lens (m + 1) (d - len))

month_from_mono :
    (lens : List ℕ) (m a b : ℕ)
    → a < b
    → ((month_from lens m a).0 < (month_from lens m b).0)
      ⊎ (((month_from lens m a).0 ≡ (month_from lens m b).0)
          × ((month_from lens m a).1 < (month_from lens m b).1))
unfolding month_from
month_from_mono [] m a b h = inr (refl, h)
month_from_mono (len ∷ lens) m a b h =
    ground (
      arith,
      month_from-ge lens (m + 1) (b - len),
      month_from_mono lens (m + 1) (a - len) (b - len),
    )

month_from_bounds :
    (lens : List ℕ) (m d : ℕ)
    → All (λ len. len ≤ 31) lens
    → d < sum lens
    → ((month_from lens m d).0 < m + length lens) × ((month_from lens m d).1 < 31)
unfolding month_from
month_from_bounds [] m d small h = absurd (omega arith)
month_from_bounds (len ∷ lens) m d (l, small) h =
    ground (arith, month_from_bounds lens (m + 1) (d - len) small)

months_small : (y : ℕ) → All (λ len. len ≤ 31) (month_lengths y)
unfolding month_lengths
months_small y = ground arith

months_sum : (y : ℕ) → sum (month_lengths y) ≡ year_length y
unfolding month_lengths year_length
months_sum y = ground arith

months_count : (y : ℕ) → length (month_lengths y) ≡ 12
unfolding month_lengths
months_count y = refl

-- The year is written with four digits, and the month and the day with two.
pub calendar_bounds :
    (day : ℕ)
    → day < 2930950
    → ((year_of day).0 ≤ 9999)
      × ((month_of (year_of day)).0 ≤ 12)
      × ((month_of (year_of day)).1 < 31)
unfolding year_of month_of
calendar_bounds day h =
    let y = year_from last_years 1970 day in
    let (m, d) =
      month_from_bounds (month_lengths y.0) 1 y.1 (months_small y.0)
        (omega (arith, months_sum y.0, year_from-lt-length last_years 1970 day)) in
    (omega (arith, year_from-le last_years 1970 day), omega (arith, months_count y.0), d)

month_of_mono :
    (y z a b : ℕ)
    → y ≡ z
    → a < b
    → ((month_of (y, a)).0 < (month_of (z, b)).0)
      ⊎ (((month_of (y, a)).0 ≡ (month_of (z, b)).0) × ((month_of (y, a)).1 < (month_of (z, b)).1))
unfolding month_of
month_of_mono y z a b e h = rw e (month_from_mono (month_lengths z) 1 a b h)

-- The year, month and day of a later day are later, read in that order.
pub calendar_mono :
    (a b : ℕ)
    → a < b
    → ((year_of a).0 < (year_of b).0)
      ⊎ (((year_of a).0 ≡ (year_of b).0)
          × (((month_of (year_of a)).0 < (month_of (year_of b)).0)
              ⊎ (((month_of (year_of a)).0 ≡ (month_of (year_of b)).0)
                  × ((month_of (year_of a)).1 < (month_of (year_of b)).1))))
unfolding year_of
calendar_mono a b h = elim (year_from_mono last_years 1970 a b h) [
  | inl earlier ↦ inl earlier
  | inr (same, before) ↦ inr (same, month_of_mono _ _ _ _ same before)
]
