-- ===== src/Runtime/Trim/Ink.antt =====
-- What `trim` keeps: the characters that are neither white space nor a horizontal ellipsis.
use onetrackmind.Common.{
  ℕ, zero, suc, ◌≤◌, Bool, ◌||◌, not, [], ◌∷◌, ◌++◌, Text, length, take, drop, nat_beq,
  if◌then◌else◌, ◌≡◌, refl, ◌∙◌, arith, Bool-cases, inl, inr,
}
use onetrackmind.Runtime.Trim.{is_space, trim, trim_start, trim_end, kept}

abbrev pub is_ink : ℕ → Bool
is_ink c = not (is_space c || nat_beq c 0x2026)

unfoldable pub ink : Text → Text
ink [] = []
ink (c ∷ s) = if is_ink c then c ∷ ink s else ink s

pub ink-append : (s t : Text) → ink (s ++ t) ≡ ink s ++ ink t
unfolding ink
ink-append [] t = refl
ink-append (c ∷ s) t = ground (arith, ink-append s t)

ink-trim_start : (s : Text) → ink (trim_start s) ≡ ink s
unfolding ink trim_start
ink-trim_start [] = refl
ink-trim_start (c ∷ s) = elim (Bool-cases (is_space c)) [
  | inl space ↦ rw space (ink-trim_start s)
  | inr ink_here ↦ ground arith
]

ink-kept : (c : ℕ) (s : Text) → ink (kept c s) ≡ ink (c ∷ s)
unfolding ink
ink-kept c [] = elim (Bool-cases (is_space c)) [
  | inl space ↦ rw space
  | inr ink_here ↦ ground arith
]
ink-kept c (d ∷ s) = refl

ink-cons : (c : ℕ) (s t : Text) → ink s ≡ ink t → ink (c ∷ s) ≡ ink (c ∷ t)
unfolding ink
ink-cons c s t h = rw h

ink-trim_end : (s : Text) → ink (trim_end s) ≡ ink s
unfolding trim_end
ink-trim_end [] = refl
ink-trim_end (c ∷ s) = ink-kept c (trim_end s) ∙ ink-cons c (trim_end s) s (ink-trim_end s)

pub ink-trim : (s : Text) → ink (trim s) ≡ ink s
unfolding trim
ink-trim s = ink-trim_end (trim_start s) ∙ ink-trim_start s

pub ink-take-drop : (n : ℕ) (s : Text) → ink (take n s) ++ ink (drop n s) ≡ ink s
unfolding ink
ink-take-drop zero s = refl
ink-take-drop (suc n) [] = refl
ink-take-drop (suc n) (c ∷ s) = ground (arith, ink-take-drop n s)

length-trim_start : (s : Text) → length (trim_start s) ≤ length s
unfolding trim_start
length-trim_start [] = omega arith
length-trim_start (c ∷ s) = ground (arith, length-trim_start s)

length-kept : (c : ℕ) (s : Text) → length (kept c s) ≤ suc (length s)
length-kept c [] = ground arith
length-kept c (d ∷ s) = omega arith

length-trim_end : (s : Text) → length (trim_end s) ≤ length s
unfolding trim_end
length-trim_end [] = omega arith
length-trim_end (c ∷ s) = omega (arith, length-kept c (trim_end s), length-trim_end s)

pub length-trim : (s : Text) → length (trim s) ≤ length s
unfolding trim
length-trim s = omega (arith, length-trim_end (trim_start s), length-trim_start s)
