-- ===== src/Comms/Idempotency/Gate/Latest.antt =====
-- The row that SQL_CONTENT_HASH_WINDOW selects.
use onetrackmind.Common.{
  true, false, List, [], ◌∷◌, none, some, Text, text_le, ==_iff, Text-Eq, ◌≡◌, sym, subst, arith,
  inl, inr, All, In, Bool-cases, Option-cases,
}
use onetrackmind.Runtime.Date.Order.{to_iso_string_le}
use onetrackmind.Db.Mapping.IdempotencyKeys.{IdempotencyKeyRow}
use onetrackmind.Comms.Idempotency.Keys.{is_in_window, comes_first, best_in_window}
use onetrackmind.Comms.Idempotency.Gate.Window.{IsTimed}

-- The WHERE clause of the window, for a row written by the clock.
module _ (value low high : Text) where
  pub best-In :
      (rows : List IdempotencyKeyRow) (best : IdempotencyKeyRow)
      → best_in_window value low high rows ≡ some best
      → In best rows × (is_in_window value low high best ≡ true)
  unfolding best_in_window
  best-In [] best h = absurd (ground arith)
  best-In (row ∷ rows) best h = elim (Bool-cases (is_in_window value low high row)) [
    | inr outside ↦ let (there, inside) = best-In rows best (ground arith) in (inr there, inside)
    | inl inside ↦ elim (Option-cases (best_in_window value low high rows)) [
      | inl alone ↦ (inl (ground arith), ground arith)
      | inr (other, e) ↦
          let (there, within) = best-In rows other e in
          elim (Bool-cases (comes_first row other)) [
            | inl first ↦ (inl (ground arith), ground arith)
            | inr second ↦
                let same : best ≡ other = ground arith in
                (
                  inr (subst (λ b. In b rows) (sym same) there),
                  subst (λ b. is_in_window value low high b ≡ true) (sym same) within,
                )
          ]
    ]
  ]

  pub best-none :
      (rows : List IdempotencyKeyRow)
      → best_in_window value low high rows ≡ none
      → All (λ row. is_in_window value low high row ≡ false) rows
  unfolding best_in_window
  best-none [] h = tt
  best-none (row ∷ rows) h = elim (Bool-cases (is_in_window value low high row)) [
    | inl inside ↦ absurd (ground arith)
    | inr outside ↦ (outside, best-none rows (ground arith))
  ]

pub All-In :
    (P : IdempotencyKeyRow → Type 0) (row : IdempotencyKeyRow) (rows : List IdempotencyKeyRow)
    → All P rows
    → In row rows
    → P row
All-In P row [] all there = absurd there
All-In P row (r ∷ rows) (here, all) (inl e) = rw e here
All-In P row (r ∷ rows) (here, all) (inr there) = All-In P row rows all there

-- The order of two rows written by the clock is that of their instants.
timed_trans :
    (a b c : IdempotencyKeyRow)
    → IsTimed a
    → IsTimed b
    → IsTimed c
    → text_le a.first_seen_at b.first_seen_at ≡ true
    → text_le b.first_seen_at c.first_seen_at ≡ true
    → text_le a.first_seen_at c.first_seen_at ≡ true
timed_trans a b c (t, ta, sa) (u, tb, sb) (v, tc, sc) h k =
    ground
      (arith, to_iso_string_le t u sa sb, to_iso_string_le u v sb sc, to_iso_string_le t v sa sc)

comes_first-later :
    (a b : IdempotencyKeyRow)
    → IsTimed a
    → IsTimed b
    → comes_first a b ≡ true
    → text_le b.first_seen_at a.first_seen_at ≡ true
comes_first-later a b (t, ta, sa) (u, tb, sb) h = ground (
  arith,
  to_iso_string_le t u sa sb,
  to_iso_string_le u t sb sa,
  ==_iff a.first_seen_at b.first_seen_at,
)

comes_second-later :
    (a b : IdempotencyKeyRow)
    → IsTimed a
    → IsTimed b
    → comes_first a b ≡ false
    → text_le a.first_seen_at b.first_seen_at ≡ true
comes_second-later a b (t, ta, sa) (u, tb, sb) h = ground (arith, to_iso_string_le t u sa sb)

timed_refl : (a : IdempotencyKeyRow) → IsTimed a → text_le a.first_seen_at a.first_seen_at ≡ true
timed_refl a (t, ta, sa) = ground (arith, to_iso_string_le t t sa sa)

module _ (value low high : Text) where
  abbrev pub IsLatest : IdempotencyKeyRow → List IdempotencyKeyRow → Type 0
  IsLatest best rows =
      All
        (λ row.
          is_in_window value low high row ≡ true
          → text_le row.first_seen_at best.first_seen_at ≡ true)
        rows

  IsLatest-later :
      (a b : IdempotencyKeyRow) (rows : List IdempotencyKeyRow)
      → IsTimed a
      → IsTimed b
      → All IsTimed rows
      → text_le a.first_seen_at b.first_seen_at ≡ true
      → IsLatest a rows
      → IsLatest b rows
  IsLatest-later a b [] ta tb timed h latest = tt
  IsLatest-later a b (row ∷ rows) ta tb (tr, timed) h (here, latest) = (
    λ inside. timed_trans row a b tr ta tb (here inside) h,
    IsLatest-later a b rows ta tb timed h latest,
  )

  none-IsLatest :
      (best : IdempotencyKeyRow) (rows : List IdempotencyKeyRow)
      → All (λ row. is_in_window value low high row ≡ false) rows
      → IsLatest best rows
  none-IsLatest best [] none_there = tt
  none-IsLatest best (row ∷ rows) (outside, none_there) =
      (λ inside. absurd (ground arith), none-IsLatest best rows none_there)

  pub best-IsLatest :
      (rows : List IdempotencyKeyRow) (best : IdempotencyKeyRow)
      → All IsTimed rows
      → best_in_window value low high rows ≡ some best
      → IsLatest best rows
  unfolding best_in_window
  best-IsLatest [] best timed h = tt
  best-IsLatest (row ∷ rows) best (tr, timed) h =
      elim (Bool-cases (is_in_window value low high row)) [
        | inr outside ↦
            (λ inside. absurd (ground arith), best-IsLatest rows best timed (ground arith))
        | inl inside ↦ elim (Option-cases (best_in_window value low high rows)) [
          | inl alone ↦
              let same : best ≡ row = ground arith in
              subst (λ b. IsLatest b (row ∷ rows)) (sym same)
                (
                  λ _. timed_refl row tr,
                  none-IsLatest row rows (best-none value low high rows alone),
                )
          | inr (other, e) ↦
              let to : IsTimed other =
                All-In IsTimed other rows timed (best-In value low high rows other e).0 in
              let later = best-IsLatest rows other timed e in
              elim (Bool-cases (comes_first row other)) [
                | inl first ↦
                    let same : best ≡ row = ground arith in
                    subst (λ b. IsLatest b (row ∷ rows)) (sym same)
                      (
                        λ _. timed_refl row tr,
                        IsLatest-later other row rows to tr timed
                            (comes_first-later row other tr to first) later,
                      )
                | inr second ↦
                    let same : best ≡ other = ground arith in
                    subst (λ b. IsLatest b (row ∷ rows)) (sym same)
                      (λ _. comes_second-later row other tr to second, later)
              ]
        ]
      ]
