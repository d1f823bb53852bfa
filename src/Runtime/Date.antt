-- ===== src/Runtime/Date.antt =====
-- `Date.prototype.toISOString` on a number of milliseconds since 1970-01-01T00:00:00.000Z. The
-- years run from 1970 to 9999: the fuel of the year loop is the number of years between them.
pub mod Civil
pub mod Order
use onetrackmind.Common.{
  ℕ, zero, suc, ◌+◌, ◌-◌, ◌/◌, ◌%◌, Bool, ◌&&◌, ◌||◌, not, List, [], ◌∷◌, ltb, nat_beq, Text,
  if◌then◌else◌,
}

is_leap : ℕ → Bool
is_leap y = nat_beq (y % 4) 0 && (not (nat_beq (y % 100) 0) || nat_beq (y % 400) 0)

year_length : ℕ → ℕ
unfolding is_leap
year_length y = if is_leap y then 366 else 365

month_lengths : ℕ → List ℕ
unfolding is_leap
month_lengths y =
    31 ∷ (if is_leap y then 29 else 28) ∷ 31 ∷ 30 ∷ 31 ∷ 30 ∷ 31 ∷ 31 ∷ 30 ∷ 31 ∷ 30 ∷ 31 ∷ []

-- The year, and the day of that year from 0, of the day `d` after the first of year `y`.
year_from : ℕ → ℕ → ℕ → ℕ × ℕ
unfolding year_length
year_from zero y d = (y, d)
year_from (suc f) y d =
    let later = year_from f (y + 1) (d - year_length y) in
    if ltb d (year_length y) then (y, d) else later

-- The month from `m` on, and the day of that month from 0.
month_from : List ℕ → ℕ → ℕ → ℕ × ℕ
month_from [] m d = (m, d)
month_from (len ∷ lens) m d = if ltb d len then (m, d) else month_from lens (m + 1) (d - len)

abbrev pub last_years : ℕ
last_years = 8029

abbrev pub ms_per_day : ℕ
ms_per_day = 86400000

-- Up to here the year loop ends by its test.
abbrev pub max_ms : ℕ
max_ms = 253234080000000

unfoldable pub year_of : ℕ → ℕ × ℕ
unfolding year_from
year_of day = year_from last_years 1970 day

unfoldable pub month_of : ℕ × ℕ → ℕ × ℕ
unfolding month_from month_lengths
month_of (y, doy) = month_from (month_lengths y) 1 doy

abbrev two : ℕ → Text → Text
two n rest = (48 + n / 10) ∷ (48 + n % 10) ∷ rest

abbrev three : ℕ → Text → Text
three n rest = (48 + n / 100) ∷ two (n % 100) rest

abbrev four : ℕ → Text → Text
four n rest = two (n / 100) (two (n % 100) rest)

-- `YYYY-MM-DDTHH:mm:ss.sssZ`
abbrev iso_text : ℕ → ℕ → ℕ → ℕ → Text
iso_text y mo d tod = four y (
    b'-'
    ∷ two mo (
        b'-'
        ∷ two d (
            b'T'
            ∷ two (tod / 3600000) (
                b':'
                ∷ two (tod / 60000 % 60)
                    (b':' ∷ two (tod / 1000 % 60) (b'.' ∷ three (tod % 1000) (b'Z' ∷ [])))))))

unfoldable pub to_iso_string : ℕ → Text
unfolding year_of month_of
to_iso_string ms =
    let y = year_of (ms / ms_per_day) in
    let m = month_of y in iso_text y.0 m.0 (m.1 + 1) (ms % ms_per_day)
