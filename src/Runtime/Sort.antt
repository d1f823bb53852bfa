-- ===== src/Runtime/Sort.antt =====
-- `Array.prototype.sort` on strings, with no comparator. Strings that compare equal are equal, so
-- every sorting algorithm gives this result.
pub mod Members
use mathlib.Core.List.{Perm, Permᴰ}
use mathlib.Core.List.Perm
use mathlib.Core.Logic.{∥∥₁_elim}
use onetrackmind.Common.{
  ◌≡◌, refl, ◌∙◌, inl, inr, true, false, List, [], ◌∷◌, Text, text_le, arith, if◌then◌else◌,
  Bool-cases,
}

insert : Text → List Text → List Text
insert a [] = a ∷ []
insert a (x ∷ xs) = if text_le a x then a ∷ x ∷ xs else x ∷ insert a xs

unfoldable pub sort : List Text → List Text
unfolding insert
sort [] = []
sort (x ∷ xs) = insert x (sort xs)

text_le_antisymm : (s t : Text) → text_le s t ≡ true → text_le t s ≡ true → s ≡ t
unfolding text_le
text_le_antisymm [] [] h k = refl
text_le_antisymm (a ∷ s) (b ∷ t) h k = ground (arith, text_le_antisymm s t)
text_le_antisymm [] (b ∷ t) h k = cc
text_le_antisymm (a ∷ s) [] h k = cc

pub text_le_total : (s t : Text) → text_le s t ≡ false → text_le t s ≡ true
unfolding text_le
text_le_total [] t h = cc
text_le_total (a ∷ s) [] h = refl
text_le_total (a ∷ s) (b ∷ t) h = ground (arith, text_le_total s t)

pub text_le_trans : (s t u : Text) → text_le s t ≡ true → text_le t u ≡ true → text_le s u ≡ true
unfolding text_le
text_le_trans [] t u h k = refl
text_le_trans (a ∷ s) [] u h k = cc
text_le_trans (a ∷ s) (b ∷ t) [] h k = cc
text_le_trans (a ∷ s) (b ∷ t) (c ∷ u) h k = ground (arith, text_le_trans s t u)

insert_comm : (a b : Text) (xs : List Text) → insert a (insert b xs) ≡ insert b (insert a xs)
unfolding insert
insert_comm a b [] = ground (arith, text_le_antisymm a b, text_le_total a b)
insert_comm a b (x ∷ xs) = ground (
  arith,
  insert_comm a b xs,
  text_le_antisymm a b,
  text_le_total a b,
  text_le_trans a b x,
  text_le_trans b a x,
)

insert-perm : (a : Text) (xs : List Text) → Perm (insert a xs) (a ∷ xs)
unfolding insert
insert-perm a [] = Perm.refl (a ∷ [])
insert-perm a (x ∷ xs) = elim (Bool-cases (text_le a x)) [
  | inl before ↦ rw before (Perm.refl _)
  | inr after ↦ rw after (Perm.trans (Perm.cons x (insert-perm a xs)) (Perm.swap a x xs))
]

-- Sorting keeps every string, as often as it occurs.
pub sort-perm : (xs : List Text) → Perm (sort xs) xs
unfolding sort
sort-perm [] = Perm.refl []
sort-perm (x ∷ xs) = Perm.trans (insert-perm x (sort xs)) (Perm.cons x (sort-perm xs))

sort-eq_of_permᴰ : {xs ys : List Text} → Permᴰ xs ys → sort xs ≡ sort ys
unfolding sort
sort-eq_of_permᴰ Permᴰ.nil = refl
sort-eq_of_permᴰ (Permᴰ.cons same p) = cc (sort-eq_of_permᴰ p)
sort-eq_of_permᴰ (Permᴰ.swap {a = a} {b = b} {l = l} e f) = rw (← e, ← f) (insert_comm a b (sort l))
sort-eq_of_permᴰ (Permᴰ.trans p q) = sort-eq_of_permᴰ p ∙ sort-eq_of_permᴰ q

texts_set : IsSet (List Text)
texts_set = hlevel

-- Sorting forgets the order of its input.
pub sort-eq_of_perm : {xs ys : List Text} → Perm xs ys → sort xs ≡ sort ys
sort-eq_of_perm p = ∥∥₁_elim p (texts_set _ _) sort-eq_of_permᴰ
