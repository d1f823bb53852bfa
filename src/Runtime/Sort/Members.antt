-- ===== src/Runtime/Sort/Members.antt =====
-- The members of a sorted list.
use onetrackmind.Common.{Text, List, [], ◌∷◌, In, inl, inr, ◌↔◌, Bool-cases, text_le, arith}
use onetrackmind.Runtime.Sort.{insert, sort}

insert-In : (f a : Text) (xs : List Text) → In f (insert a xs) ↔ In f (a ∷ xs)
unfolding insert
insert-In f a [] = ground arith
insert-In f a (x ∷ xs) = elim (Bool-cases (text_le a x)) [
  | inl before ↦ rw before (λ h. h, λ h. h)
  | inr after ↦ rw after (ground (arith, insert-In f a xs))
]

pub sort-In : (f : Text) (xs : List Text) → In f (sort xs) ↔ In f xs
unfolding sort
sort-In f [] = (λ h. h, λ h. h)
sort-In f (x ∷ xs) = ground (arith, insert-In f x (sort xs), sort-In f xs)
