-- ===== src/Runtime/Date/Order.antt =====
-- The texts of `toISOString` are ordered as the instants that they name.
use onetrackmind.Common.{
  ℕ, ◌+◌, ◌/◌, ◌%◌, ◌<◌, ◌≡◌, ◌⊎◌, inl, inr, refl, true, [], ◌∷◌, Text, text_le, Bool, ◌&&◌,
  nat_beq, leb, ltb, arith, sym, ap, ◌∙◌, leb→le, if◌then◌else◌,
}
use onetrackmind.Runtime.Date.{
  two, three, four, iso_text, to_iso_string, year_of, month_of, ms_per_day, max_ms,
}
use onetrackmind.Runtime.Date.Civil.{calendar_bounds, calendar_mono}

-- First by one number, then by the rest.
abbrev then_le : ℕ → ℕ → Bool → Bool
then_le a b later = if ltb a b then true else nat_beq a b && later

text_le-two :
    (a b : ℕ) (r s : Text)
    → a < 100
    → b < 100
    → text_le (two a r) (two b s) ≡ then_le a b (text_le r s)
unfolding text_le
text_le-two a b r s ha hb = ground arith

text_le-same : (c : ℕ) (r s : Text) → text_le (c ∷ r) (c ∷ s) ≡ text_le r s
unfolding text_le
text_le-same c r s = ground arith

text_le-three :
    (a b : ℕ) (r s : Text)
    → a < 1000
    → b < 1000
    → text_le (three a r) (three b s) ≡ then_le a b (text_le r s)
unfolding text_le
text_le-three a b r s ha hb = ground arith

text_le-four :
    (a b : ℕ) (r s : Text)
    → a < 10000
    → b < 10000
    → text_le (four a r) (four b s) ≡ then_le a b (text_le r s)
text_le-four a b r s ha hb = ground (
  arith,
  text_le-two (a / 100) (b / 100) (two (a % 100) r) (two (b % 100) s),
  text_le-two (a % 100) (b % 100) r s,
)

text_le_refl : (s : Text) → text_le s s ≡ true
unfolding text_le
text_le_refl [] = refl
text_le_refl (c ∷ s) = ground (arith, text_le_refl s)

lt_cases : (a b : ℕ) → (a < b) ⊎ ((b < a) ⊎ (a ≡ b))
lt_cases a b = grind arith

-- The time of day.
abbrev clock_le : ℕ → ℕ → Bool
clock_le a b = then_le (a / 3600000) (b / 3600000) (
    then_le (a / 60000 % 60) (b / 60000 % 60)
      (then_le (a / 1000 % 60) (b / 1000 % 60) (then_le (a % 1000) (b % 1000) true)))

clock_le-eq-leb : (a b : ℕ) → clock_le a b ≡ leb a b
clock_le-eq-leb a b = ground arith

iso_text-le :
    (y z m n d e a b : ℕ)
    → y < 10000
    → z < 10000
    → m < 100
    → n < 100
    → d < 100
    → e < 100
    → a < ms_per_day
    → b < ms_per_day
    → text_le (iso_text y m d a) (iso_text z n e b)
      ≡ then_le y z (then_le m n (then_le d e (leb a b)))
iso_text-le y z m n d e a b hy hz hm hn hd he ha hb = simp (
  text_le-four y z _ _ hy hz,
  text_le-two m n _ _ hm hn,
  text_le-two d e _ _ hd he,
  text_le-two (a / 3600000) (b / 3600000) _ _ (omega arith) (omega arith),
  text_le-two (a / 60000 % 60) (b / 60000 % 60) _ _ (omega arith) (omega arith),
  text_le-two (a / 1000 % 60) (b / 1000 % 60) _ _ (omega arith) (omega arith),
  text_le-three (a % 1000) (b % 1000) _ _ (omega arith) (omega arith),
  text_le-same,
  text_le_refl [],
  ← clock_le-eq-leb a b,
)

-- Reading year, month, day and time of day in that order compares the instants.
instant_le :
    (a b : ℕ)
    → then_le (year_of (a / ms_per_day)).0 (year_of (b / ms_per_day)).0 (
        then_le (month_of (year_of (a / ms_per_day))).0 (month_of (year_of (b / ms_per_day))).0 (
          then_le
            ((month_of (year_of (a / ms_per_day))).1 + 1)
            ((month_of (year_of (b / ms_per_day))).1 + 1)
            (leb (a % ms_per_day) (b % ms_per_day))))
      ≡ leb a b
instant_le a b = elim (lt_cases (a / ms_per_day) (b / ms_per_day)) [
  | inl earlier ↦ ground (arith, calendar_mono (a / ms_per_day) (b / ms_per_day) earlier)
  | inr (inl later) ↦ ground (arith, calendar_mono (b / ms_per_day) (a / ms_per_day) later)
  | inr (inr same) ↦ rw same (ground arith)
]

-- Up to `max_ms`, the texts of two instants compare, code unit by code unit, as the instants do.
pub to_iso_string_le :
    (a b : ℕ) → a < max_ms → b < max_ms → text_le (to_iso_string a) (to_iso_string b) ≡ leb a b
unfolding to_iso_string
to_iso_string_le a b ha hb =
    let (ya, ma, da) = calendar_bounds (a / ms_per_day) (omega arith) in
    let (yb, mb, db) = calendar_bounds (b / ms_per_day) (omega arith) in
    iso_text-le _ _ _ _ _ _ (a % ms_per_day) (b % ms_per_day) (omega arith) (omega arith)
      (omega arith) (omega arith) (omega arith) (omega arith) (omega arith) (omega arith)
    ∙ instant_le a b

-- Up to `max_ms`, distinct instants have distinct texts.
pub to_iso_string-injective :
    (a b : ℕ) → a < max_ms → b < max_ms → to_iso_string a ≡ to_iso_string b → a ≡ b
to_iso_string-injective a b ha hb same = omega (
  arith,
  leb→le a b (
      sym (to_iso_string_le a b ha hb)
      ∙ ap (λ s. text_le s (to_iso_string b)) same
      ∙ text_le_refl (to_iso_string b)),
  leb→le b a (
      sym (to_iso_string_le b a hb ha)
      ∙ ap (λ s. text_le (to_iso_string b) s) same
      ∙ text_le_refl (to_iso_string b)),
)
