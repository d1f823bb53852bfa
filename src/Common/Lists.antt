-- ===== src/Common/Lists.antt =====
-- Lists measured by native numbers, and predicates on them by recursion.
use Prim.Native.Nat.{ℕ, zero, suc, ◌+◌, ◌-◌, ◌≤◌}
use mathlib.Core.Path.{◌≡◌, refl, ap}
use mathlib.Core.Logic.{◌⊎◌, ◌↔◌, inl, inr}
use mathlib.Core.Bool.{Bool, true, false, not, ◌||◌, ◌&&◌}
use mathlib.Core.List.{List, [], ◌∷◌, ◌++◌}
use native.Mathlib.Omega.{arith}
use onetrackmind.Common.Tests.{Eq, ◌==◌, Bool-cases}

module _ {ℓ} {A : Type ℓ} where
  abbrev pub length : List A → ℕ
  length [] = 0
  length (x ∷ xs) = suc (length xs)

  abbrev pub take : ℕ → List A → List A
  take zero xs = []
  take (suc n) [] = []
  take (suc n) (x ∷ xs) = x ∷ take n xs

  abbrev pub drop : ℕ → List A → List A
  drop zero xs = xs
  drop (suc n) [] = []
  drop (suc n) (x ∷ xs) = drop n xs

  pub length-append : (xs ys : List A) → length (xs ++ ys) ≡ length xs + length ys
  length-append [] ys = omega arith
  length-append (x ∷ xs) ys = omega (arith, length-append xs ys)

  pub length-take : (n : ℕ) (xs : List A) → length (take n xs) ≤ n
  length-take zero xs = omega arith
  length-take (suc n) [] = omega arith
  length-take (suc n) (x ∷ xs) = omega (arith, length-take n xs)

  pub length-drop : (n : ℕ) (xs : List A) → length (drop n xs) ≡ length xs - n
  length-drop zero xs = omega arith
  length-drop (suc n) [] = omega arith
  length-drop (suc n) (x ∷ xs) = omega (arith, length-drop n xs)

  -- `Array.prototype.every` and `some`.
  abbrev pub every : (A → Bool) → List A → Bool
  every p [] = true
  every p (x ∷ xs) = p x && every p xs

  abbrev pub some_of : (A → Bool) → List A → Bool
  some_of p [] = false
  some_of p (x ∷ xs) = p x || some_of p xs

  abbrev pub All {κ} : (A → Type κ) → List A → Type κ
  All P [] = Unit
  All P (x ∷ xs) = P x × All P xs

-- Membership of data, as a sum that the tactics take apart.
abbrev pub In : {A : Type 0} → A → List A → Type 0
In a [] = ⊥
In a (x ∷ xs) = (a ≡ x) ⊎ In a xs

module _ {ℓ} {A : Type ℓ} where
  pub All-append {κ} : (P : A → Type κ) (xs ys : List A) → All P xs → All P ys → All P (xs ++ ys)
  All-append P [] ys hx hy = hy
  All-append P (x ∷ xs) ys hx hy = (hx.0, All-append P xs ys hx.1 hy)

  -- `Array.prototype.includes`.
  unfoldable pub contains : ⦃e : Eq A⦄ → List A → A → Bool
  contains [] a = false
  contains (x ∷ xs) a = a == x || contains xs a

  pub tail-eq : {a b : A} {xs ys : List A} → a ∷ xs ≡ b ∷ ys → xs ≡ ys
  tail-eq e = cc

  pub List-cases : (xs : List A) → (xs ≡ []) ⊎ ((x : A) × (rest : List A) × (xs ≡ x ∷ rest))
  List-cases [] = inl refl
  List-cases (x ∷ xs) = inr (x, xs, refl)

  -- `Array.prototype.filter`
  abbrev pub filter : (A → Bool) → List A → List A
  filter p [] = []
  filter p (x ∷ xs) = elim (p x) [ true ↦ x ∷ filter p xs | false ↦ filter p xs ]

pub some_of_iff :
    {A : Type 0} (p : A → Bool) (xs : List A)
    → (some_of p xs ≡ true) ↔ ((x : A) × In x xs × (p x ≡ true))
some_of_iff p [] = (λ h. absurd (cc h), λ (x, i, h). absurd i)
some_of_iff p (x ∷ xs) = elim (Bool-cases (p x)) [
  | inl here ↦ rw here (λ _. (x, inl refl, here), λ _. refl)
  | inr other ↦ rw other (
    λ h. let (y, i, found) = (some_of_iff p xs).0 h in (y, inr i, found),
    λ (y, i, found). elim i [
      | inl same ↦ absurd (cc (ap p same, found, other))
      | inr later ↦ (some_of_iff p xs).1 (y, later, found)
    ],
  )
]

pub filter-In :
    {A : Type 0} (p : A → Bool) (a : A) (xs : List A)
    → In a (filter p xs) ↔ (In a xs × (p a ≡ true))
filter-In p a [] = ground arith
filter-In p a (x ∷ xs) = elim (Bool-cases (p x)) [
  | inl kept ↦
      rw (filter, kept)
        (
          λ i. elim i [
            | inl here ↦ (inl here, rw here kept)
            | inr later ↦ let (there, ok) = (filter-In p a xs).0 later in (inr there, ok)
          ],
          λ (i, ok). elim i [
            | inl here ↦ inl here
            | inr later ↦ inr ((filter-In p a xs).1 (later, ok))
          ],
        )
  | inr dropped ↦
      rw (filter, dropped)
        (
          λ i. let (there, ok) = (filter-In p a xs).0 i in (inr there, ok),
          λ (i, ok). elim i [
            | inl here ↦ absurd (cc (ap p here, ok, dropped))
            | inr later ↦ (filter-In p a xs).1 (later, ok)
          ],
        )
]

-- What a filter keeps and what it leaves are all there is.
pub length-filter :
    {A : Type 0} (p : A → Bool) (xs : List A)
    → length (filter p xs) + length (filter (λ x. not (p x)) xs) ≡ length xs
length-filter p [] = omega arith
length-filter p (x ∷ xs) = elim (Bool-cases (p x)) [
  | inl kept ↦ rw (filter, kept) (omega (arith, length-filter p xs))
  | inr dropped ↦ rw (filter, dropped) (omega (arith, length-filter p xs))
]
