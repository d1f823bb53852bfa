-- ===== src/Runtime/Decimal.antt =====
-- A number in a template literal, in decimal.
use onetrackmind.Common.{ℕ, zero, suc, ◌+◌, ◌/◌, ◌%◌, Text, [], ◌∷◌, ltb, if◌then◌else◌}

-- The decimal digits of a number before `rest`, on fuel that the number itself is enough for.
digits : ℕ → ℕ → Text → Text
digits zero n rest = (48 + n % 10) ∷ rest
digits (suc fuel) n rest =
    let more = digits fuel (n / 10) ((48 + n % 10) ∷ rest) in
    if ltb n 10 then (48 + n) ∷ rest else more

unfoldable pub decimal : ℕ → Text
unfolding digits
decimal n = digits n n []
