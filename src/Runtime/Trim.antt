-- ===== src/Runtime/Trim.antt =====
-- `String.prototype.trim`, by code unit.
pub mod Ink
use onetrackmind.Common.{
  ℕ, Bool, true, false, ◌&&◌, ◌||◌, List, [], ◌∷◌, ◌++◌, Text, leb, nat_beq, every, if◌then◌else◌,
  ◌≡◌, refl, arith, ◌↔◌, ◌≢◌, Bool-cases, inl, inr,
}

-- The white space and the line terminators of ECMAScript.
abbrev pub is_space : ℕ → Bool
is_space c =
    (leb 9 c && leb c 13)
    || nat_beq c 32
    || nat_beq c 160
    || nat_beq c 0x1680
    || (leb 0x2000 c && leb c 0x200A)
    || nat_beq c 0x2028
    || nat_beq c 0x2029
    || nat_beq c 0x202F
    || nat_beq c 0x205F
    || nat_beq c 0x3000
    || nat_beq c 0xFEFF

unfoldable pub trim_start : Text → Text
trim_start [] = []
trim_start (c ∷ s) = if is_space c then trim_start s else c ∷ s

-- A code unit before a text that is trimmed at its end.
abbrev kept : ℕ → Text → Text
kept c [] = if is_space c then [] else c ∷ []
kept c (d ∷ rest) = c ∷ d ∷ rest

unfoldable pub trim_end : Text → Text
trim_end [] = []
trim_end (c ∷ s) = kept c (trim_end s)

unfoldable pub trim : Text → Text
unfolding trim_start trim_end
trim s = trim_end (trim_start s)

end-nil : trim_end [] ≡ []
unfolding trim_end
end-nil = refl

-- A text that starts with ink keeps it.
end-ink : (c : ℕ) (s : Text) → is_space c ≡ false → trim_end (c ∷ s) ≢ []
unfolding trim_end
end-ink c s ink h = ink_kept (trim_end s) h
  where
    ink_kept : (rest : Text) → kept c rest ≢ []
    ink_kept [] = λ k. ground (arith, ink)
    ink_kept (d ∷ rest) = λ k. cc

blank_start : (s : Text) → every is_space s ≡ true → trim_start s ≡ []
unfolding trim_start
blank_start [] h = refl
blank_start (c ∷ s) h = ground (arith, blank_start s)

start-blank : (s : Text) → trim_end (trim_start s) ≡ [] → every is_space s ≡ true
unfolding trim_start
start-blank [] h = refl
start-blank (c ∷ s) h = elim (Bool-cases (is_space c)) [
  | inl space ↦ rw space (start-blank s (rw space at h))
  | inr ink ↦ absurd (end-ink c s ink (rw ink at h))
]

-- A text is blank after `trim` exactly when every code unit is white space.
pub trim_iff : (s : Text) → (trim s ≡ []) ↔ (every is_space s ≡ true)
unfolding trim
trim_iff s = (start-blank s, λ h. rw (blank_start s h) end-nil)
