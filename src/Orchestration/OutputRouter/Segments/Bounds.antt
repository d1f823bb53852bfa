-- ===== src/Orchestration/OutputRouter/Segments/Bounds.antt =====
-- The split of an SMS: it ends, its segments are bounded, and it loses nothing but white space.
use onetrackmind.Common.{
  ℕ, zero, suc, ◌+◌, ◌≤◌, true, ◌&&◌, List, [], ◌∷◌, ◌++◌, Option, none, some, Text, length, take,
  drop, leb, leb→le, nat_beq, All, length-take, length-drop, ◌≡◌, ◌≢◌, refl, ap, ◌∙◌, arith, ◌⊎◌,
  inl, inr, Bool-cases,
}
use onetrackmind.Runtime.Trim.{trim}
use onetrackmind.Runtime.Trim.Ink.{ink, ink-append, ink-trim, ink-take-drop, length-trim}
use onetrackmind.Orchestration.OutputRouter.Segments.{
  sms_max_chars, index_from, last_index_of, max_index, last_boundary, cut_at, split_loop, non_empty,
  format_for_sms,
}

-- An index below the length of the window, by one character at least.
abbrev IsInside : Text → Option ℕ → Type 0
IsInside window none = Unit
IsInside window (some i) = i + 2 ≤ length window

index_from-IsInside :
    (a b c : ℕ) (s : Text) (i : Option ℕ) → IsInside s i → IsInside (c ∷ s) (index_from a b c s i)
index_from-IsInside a b c s (some i) h = omega arith
index_from-IsInside a b c [] none h = tt
index_from-IsInside a b c (d ∷ s) none h = elim (Bool-cases (nat_beq c a && nat_beq d b)) [
  | inl here ↦ rw here (omega arith)
  | inr elsewhere ↦ rw elsewhere tt
]

last_index_of-IsInside : (a b : ℕ) (s : Text) → IsInside s (last_index_of a b s)
unfolding last_index_of
last_index_of-IsInside a b [] = tt
last_index_of-IsInside a b (c ∷ s) =
    index_from-IsInside a b c s (last_index_of a b s) (last_index_of-IsInside a b s)

max_index-IsInside :
    (s : Text) (i j : Option ℕ) → IsInside s i → IsInside s j → IsInside s (max_index i j)
max_index-IsInside s none j hi hj = hj
max_index-IsInside s (some i) none hi hj = hi
max_index-IsInside s (some i) (some j) hi hj = elim (Bool-cases (leb i j)) [
  | inl later ↦ rw later hj
  | inr sooner ↦ rw sooner hi
]

last_boundary-IsInside : (s : Text) → IsInside s (last_boundary s)
unfolding last_boundary
last_boundary-IsInside s = max_index-IsInside s _ _ (last_index_of-IsInside b'.' b' ' s) (
    max_index-IsInside s _ _ (last_index_of-IsInside b'?' b' ' s) (
      max_index-IsInside s _ _ (last_index_of-IsInside b'!' b' ' s) (
        max_index-IsInside s _ _ (last_index_of-IsInside b'.' b'\n' s) (
          max_index-IsInside s _ _ (last_index_of-IsInside b'?' b'\n' s)
            (last_index_of-IsInside b'!' b'\n' s)))))

-- At most the limit, or a hard cut: at most the limit and an ellipsis.
abbrev pub IsSegment : Text → Type 0
IsSegment segment =
    (length segment ≤ sms_max_chars)
    ⊎ ((body : Text) × (segment ≡ body ++ 0x2026 ∷ []) × (length body ≤ sms_max_chars))

-- The segment is bounded, the rest is shorter than the text, and both have its ink.
abbrev IsCut : Text → Text × Text → Type 0
IsCut s (segment, rest) =
    IsSegment segment × (suc (length rest) ≤ length s) × (ink segment ++ ink rest ≡ ink s)

kept_ink : (n : ℕ) (s : Text) → ink (trim (take n s)) ++ ink (trim (drop n s)) ≡ ink s
kept_ink n s = rw (ink-trim (take n s), ink-trim (drop n s)) (ink-take-drop n s)

ink-ellipsis : (s : Text) → ink (s ++ 0x2026 ∷ []) ≡ ink s
unfolding ink
ink-ellipsis [] = refl
ink-ellipsis (c ∷ s) = ground (arith, ink-ellipsis s)

hard-IsCut :
    (c : ℕ) (s : Text)
    → IsCut
        (c ∷ s)
        (trim (take sms_max_chars (c ∷ s)) ++ 0x2026 ∷ [], trim (drop sms_max_chars (c ∷ s)))
hard-IsCut c s = (
  inr (
    trim (take sms_max_chars (c ∷ s)),
    refl,
    omega (arith, length-trim (take sms_max_chars (c ∷ s)), length-take sms_max_chars (c ∷ s)),
  ),
  omega (arith, length-trim (drop sms_max_chars (c ∷ s)), length-drop sms_max_chars (c ∷ s)),
  rw (ink-ellipsis (trim (take sms_max_chars (c ∷ s)))) (kept_ink sms_max_chars (c ∷ s)),
)

cut_at-IsCut :
    (c : ℕ) (s : Text) (i : Option ℕ)
    → IsInside (take sms_max_chars (c ∷ s)) i
    → IsCut (c ∷ s) (cut_at (c ∷ s) i)
unfolding cut_at
cut_at-IsCut c s (some (suc i)) h = (
  inl (
      omega (
        arith,
        length-trim (take (suc (suc i)) (c ∷ s)),
        length-take (suc (suc i)) (c ∷ s),
        length-take sms_max_chars (c ∷ s),
      )),
  omega (arith, length-trim (drop (suc (suc i)) (c ∷ s)), length-drop (suc (suc i)) (c ∷ s)),
  kept_ink (suc (suc i)) (c ∷ s),
)
cut_at-IsCut c s (some zero) h = hard-IsCut c s
cut_at-IsCut c s none h = hard-IsCut c s

abbrev pub concat : List Text → Text
concat [] = []
concat (s ∷ rest) = s ++ concat rest

-- Bounded segments with the ink of the text, in its order.
abbrev pub IsSplit : Text → List Text → Type 0
IsSplit s segments = All IsSegment segments × (ink (concat segments) ≡ ink s)

append_nil : (s : Text) → s ++ [] ≡ s
append_nil [] = refl
append_nil (c ∷ s) = ap (λ t. c ∷ t) (append_nil s)

short_segment : (s : Text) → leb (length s) sms_max_chars ≡ true → length (trim s) ≤ sms_max_chars
short_segment s short = omega (arith, leb→le (length s) sms_max_chars short, length-trim s)

split_loop-IsSplit :
    (fuel : ℕ) (s : Text)
    → length s ≤ fuel
    → (segments : List Text) × (split_loop fuel s ≡ some segments) × IsSplit s segments
unfolding split_loop
split_loop-IsSplit fuel [] enough = ([], refl, (tt, refl))
split_loop-IsSplit zero (c ∷ s) enough = absurd (omega arith)
split_loop-IsSplit (suc fuel) (c ∷ s) enough =
    let cut = cut_at (c ∷ s) (last_boundary (take sms_max_chars (c ∷ s))) in
    let (bounded, shorter, ink_kept) =
      cut_at-IsCut c s _ (last_boundary-IsInside (take sms_max_chars (c ∷ s))) in
    let (segments, found, (each, same)) = split_loop-IsSplit fuel cut.1 (omega arith) in
    elim (Bool-cases (leb (length (c ∷ s)) sms_max_chars)) [
      | inl short ↦ (
        trim (c ∷ s) ∷ [],
        rw short,
        (
          (inl (short_segment (c ∷ s) short), tt),
          ap ink (append_nil (trim (c ∷ s))) ∙ ink-trim (c ∷ s),
        ),
      )
      | inr long ↦ (
        cut.0 ∷ segments,
        rw (long, found),
        (
          (bounded, each),
          ink-append cut.0 (concat segments) ∙ ap (λ t. ink cut.0 ++ t) same ∙ ink_kept,
        ),
      )
    ]

each_non_empty :
    (segments : List Text) → All IsSegment segments → All IsSegment (non_empty segments)
unfolding non_empty
each_non_empty [] each = tt
each_non_empty ([] ∷ segments) (here, each) = each_non_empty segments each
each_non_empty ((c ∷ s) ∷ segments) (here, each) = (here, each_non_empty segments each)

concat-non_empty : (segments : List Text) → concat (non_empty segments) ≡ concat segments
unfolding non_empty
concat-non_empty [] = refl
concat-non_empty ([] ∷ segments) = concat-non_empty segments
concat-non_empty ((c ∷ s) ∷ segments) = ap (λ t. (c ∷ s) ++ t) (concat-non_empty segments)

non_empty-IsSplit :
    (s : Text) (segments : List Text) → IsSplit s segments → IsSplit s (non_empty segments)
non_empty-IsSplit s segments (each, same) =
    (each_non_empty segments each, ap ink (concat-non_empty segments) ∙ same)

-- For any stripped text, the loop ends on its fuel; every segment has at most 1600 characters, or is a
-- hard cut of at most 1600 and an ellipsis; and the segments together hold the characters of the stripped
-- text that are neither white space nor ellipses, in their order, with none lost and none added.
pub format_for_sms-IsSplit :
    (strip_markdown : Text → Text) (source : Text)
    → let stripped = strip_markdown source in
      (split_loop (length stripped) stripped ≢ none)
      × IsSplit stripped (format_for_sms strip_markdown source)
unfolding format_for_sms
format_for_sms-IsSplit strip_markdown source =
    let stripped = strip_markdown source in
    let (segments, found, split) = split_loop-IsSplit (length stripped) stripped (omega arith) in
    (rw found (λ h. cc), rw found (non_empty-IsSplit stripped segments split))
