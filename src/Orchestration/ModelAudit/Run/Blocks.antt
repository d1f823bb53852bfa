-- ===== src/Orchestration/ModelAudit/Run/Blocks.antt =====
-- The block of an answer that is read.
use onetrackmind.Common.{
  List, [], ◌∷◌, ◌++◌, some, Text, Text-Eq, text, All, ◌==◌, ==_iff, tail-eq, ◌≡◌, ◌≢◌, ◌↔◌, refl,
  sym, ap, ◌∙◌, inl, inr, Bool-cases,
}
use onetrackmind.Orchestration.ModelAudit.Run.{ContentBlock, text_block}

abbrev text_of : ContentBlock → Text
text_of b = b.block_text

abbrev type_of_block : ContentBlock → Text
type_of_block b = b.block_type

head-eq : {a b : ContentBlock} {xs ys : List ContentBlock} → a ∷ xs ≡ b ∷ ys → a ≡ b
head-eq h = cc h

-- The first block of the type 'text' has this text.
abbrev pub IsFirstText : List ContentBlock → Text → Type 0
IsFirstText blocks answer =
    (before after : List ContentBlock) × (b : ContentBlock) × (blocks ≡ before ++ b ∷ after)
    × All (λ x. x.block_type ≢ text "text") before
    × (b.block_type ≡ text "text")
    × (b.block_text ≡ answer)

pub text_block_iff :
    (blocks : List ContentBlock) (answer : Text)
    → (text_block blocks ≡ some answer) ↔ IsFirstText blocks answer
unfolding text_block
text_block_iff [] answer = (
  λ h. absurd (cc h),
  λ (before, after, b, split, _, _, _). absurd (nothing_in b after before split),
)
  where
    nothing_in : (b : ContentBlock) (after before : List ContentBlock) → [] ≢ before ++ b ∷ after
    nothing_in b after [] h = cc h
    nothing_in b after (x ∷ before) h = cc h
text_block_iff (b ∷ blocks) answer = elim (Bool-cases (b.block_type == text "text")) [
  | inl here ↦
      let typed = (==_iff b.block_type (text "text")).0 here in
      rw (text_block, here)
        (
          λ h. ([], blocks, b, refl, tt, typed, cc h),
          λ (before, after, found, split, none_before, _, said).
              ap (λ x. some x) (first_is before after found typed split none_before ∙ said),
        )
  | inr other ↦
      let off : b.block_type ≢ text "text" =
        λ e. cc ((==_iff b.block_type (text "text")).1 e, other) in
      rw (text_block, other)
        (
          λ h.
              let (before, after, found, split, none_before, typed, said) =
                (text_block_iff blocks answer).0 h in
              (b ∷ before, after, found, ap (λ x. b ∷ x) split, (off, none_before), typed, said),
          λ (before, after, found, split, none_before, typed, said).
              (text_block_iff blocks answer).1
                (later before after found off split none_before typed said),
        )
]
  where
    first_is :
        (before after : List ContentBlock) (found : ContentBlock)
        → b.block_type ≡ text "text"
        → b ∷ blocks ≡ before ++ found ∷ after
        → All (λ x. x.block_type ≢ text "text") before
        → b.block_text ≡ found.block_text
    first_is [] after found typed split _ = ap text_of (head-eq split)
    first_is (x ∷ before) after found typed split (odd, _) =
        absurd (odd (ap type_of_block (sym (head-eq split)) ∙ typed))

    later :
        (before after : List ContentBlock) (found : ContentBlock)
        → b.block_type ≢ text "text"
        → b ∷ blocks ≡ before ++ found ∷ after
        → All (λ x. x.block_type ≢ text "text") before
        → found.block_type ≡ text "text"
        → found.block_text ≡ answer
        → IsFirstText blocks answer
    later [] after found off split _ typed said =
        absurd (off (ap type_of_block (head-eq split) ∙ typed))
    later (x ∷ before) after found off split (_, rest) typed said =
        (before, after, found, tail-eq split, rest, typed, said)
