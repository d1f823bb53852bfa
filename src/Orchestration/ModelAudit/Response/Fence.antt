-- ===== src/Orchestration/ModelAudit/Response/Fence.antt =====
-- The fence around an answer: the two regular expressions of `parseAuditResponse`.
use onetrackmind.Common.{
  ℕ, [], ◌∷◌, ◌++◌, none, some, Text, Text-Eq, text, text_eq, text_eq_iff, nat_beq, nat_beq_iff,
  length, length-append, ◌≡◌, ◌≢◌, ◌⊎◌, ◌↔◌, inl, inr, refl, sym, ap, ◌∙◌, ◌<◌, append_assoc,
  tail-eq, Bool-cases, Option-cases, arith,
}
use onetrackmind.Runtime.Trim.{trim}
use onetrackmind.Orchestration.ModelAudit.Response.{
  after_prefix, optional_prefix, strip_opening, strip_closing, cleaned,
}

-- The text starts with the prefix, and this is the rest.
abbrev StartsWith : Text → Text → Type 0
StartsWith prefix s = (rest : Text) × (s ≡ prefix ++ rest)

abbrev EndsWith : Text → Text → Type 0
EndsWith suffix s = (body : Text) × (s ≡ body ++ suffix)

-- Without the prefix, if it is there.
abbrev IsWithout : (prefix s rest : Text) → Type 0
IsWithout prefix s rest = (s ≡ prefix ++ rest) ⊎ ((¬ StartsWith prefix s) × (rest ≡ s))

-- Three backticks, then 'json' if it is there, then a newline if it is there.
abbrev pub IsOpened : (s rest : Text) → Type 0
IsOpened s rest =
    ((a b : Text) × (s ≡ text "```" ++ a)
      × IsWithout (text "json") a b
      × IsWithout (text "\n") b rest)
    ⊎ ((¬ StartsWith (text "```") s) × (rest ≡ s))

-- Three backticks at the end, and a newline before them if it is there.
abbrev pub IsClosed : (s body : Text) → Type 0
IsClosed s body =
    (s ≡ body ++ text "\n```")
    ⊎ (((¬ EndsWith (text "\n```") s) × (s ≡ body ++ text "```"))
        ⊎ ((¬ EndsWith (text "```") s) × (body ≡ s)))

-- The text without white space around it and without its fence.
abbrev pub IsUnfenced : (raw body : Text) → Type 0
IsUnfenced raw body =
    (opened closed : Text) × IsOpened (trim raw) opened
    × IsClosed opened closed
    × (body ≡ trim closed)

after_prefix_iff :
    (prefix s rest : Text) → (after_prefix prefix s ≡ some rest) ↔ (s ≡ prefix ++ rest)
unfolding after_prefix
after_prefix_iff [] s rest = (λ h. cc h, λ h. cc h)
after_prefix_iff (p ∷ prefix) [] rest = (λ h. absurd (cc h), λ h. absurd (cc h))
after_prefix_iff (p ∷ prefix) (c ∷ s) rest = elim (Bool-cases (nat_beq p c)) [
  | inl here ↦
      let same = (nat_beq_iff p c).0 here in
      let later = after_prefix_iff prefix s rest in
      rw (after_prefix, here) (λ h. cc (same, later.0 h), λ h. later.1 (cc h))
  | inr other ↦
      rw (after_prefix, other)
        (
          λ h. absurd (cc h),
          λ h. let same : p ≡ c = cc h in absurd (cc ((nat_beq_iff p c).1 same, other)),
        )
]

after_prefix_none : (prefix s : Text) → after_prefix prefix s ≡ none → ¬ StartsWith prefix s
after_prefix_none prefix s h (rest, starts) = cc (h, (after_prefix_iff prefix s rest).1 starts)

optional_prefix_iff :
    (prefix s rest : Text) → (optional_prefix prefix s ≡ rest) ↔ IsWithout prefix s rest
optional_prefix_iff prefix s rest = elim (Option-cases (after_prefix prefix s)) [
  | inl gone ↦
      rw (optional_prefix, gone)
        (
          λ h. inr (after_prefix_none prefix s gone, sym h),
          λ h. elim h [
            | inl starts ↦ absurd (after_prefix_none prefix s gone (rest, starts))
            | inr (_, same) ↦ sym same
          ],
        )
  | inr (found, there) ↦
      rw (optional_prefix, there)
        (
          λ h. inl ((after_prefix_iff prefix s found).0 there ∙ ap (λ x. prefix ++ x) h),
          λ h. elim h [
            | inl starts ↦ cc (there, (after_prefix_iff prefix s rest).1 starts)
            | inr (bare, _) ↦ absurd (bare (found, (after_prefix_iff prefix s found).0 there))
          ],
        )
]

strip_opening_iff : (s rest : Text) → (strip_opening s ≡ rest) ↔ IsOpened s rest
unfolding strip_opening
strip_opening_iff s rest = elim (Option-cases (after_prefix (text "```") s)) [
  | inl gone ↦
      rw (strip_opening, gone)
        (
          λ h. inr (after_prefix_none (text "```") s gone, sym h),
          λ h. elim h [
            | inl (a, b, starts, _, _) ↦ absurd (after_prefix_none (text "```") s gone (a, starts))
            | inr (_, same) ↦ sym same
          ],
        )
  | inr (a, there) ↦
      let starts = (after_prefix_iff (text "```") s a).0 there in
      rw (strip_opening, there)
        (
          λ h. inl (
            a,
            optional_prefix (text "json") a,
            starts,
            (optional_prefix_iff (text "json") a _).0 refl,
            (optional_prefix_iff (text "\n") (optional_prefix (text "json") a) rest).0 h,
          ),
          λ h. elim h [
            | inl (a', b, starts', json, line) ↦
                let same : a' ≡ a = cc (there, (after_prefix_iff (text "```") s a').1 starts') in
                ap (λ x. optional_prefix (text "\n") (optional_prefix (text "json") x)) (sym same)
                ∙ ap (optional_prefix (text "\n")) ((optional_prefix_iff (text "json") a' b).1 json)
                ∙ (optional_prefix_iff (text "\n") b rest).1 line
            | inr (bare, _) ↦ absurd (bare (a, starts))
          ],
        )
]

abbrev fence : Text
fence = text "```"

abbrev line_fence : Text
line_fence = text "\n```"

length-fence : length fence ≡ 3
unfolding text
length-fence = refl

length-line_fence : length line_fence ≡ 4
unfolding text
length-line_fence = refl

too_short : (suffix s : Text) → length s < length suffix → ¬ EndsWith suffix s
too_short suffix s short (body, e) = omega (arith, ap length e, length-append body suffix, short)

line_fence-fence : (body : Text) → body ++ line_fence ≡ (body ++ text "\n") ++ fence
unfolding text
line_fence-fence body = sym (append_assoc body (text "\n") fence)

cancel_end : (a b suffix : Text) → a ++ suffix ≡ b ++ suffix → a ≡ b
cancel_end [] [] suffix h = refl
cancel_end [] (d ∷ b) suffix h = absurd (omega (arith, ap length h, length-append b suffix))
cancel_end (c ∷ a) [] suffix h = absurd (omega (arith, ap length h, length-append a suffix))
cancel_end (c ∷ a) (d ∷ b) suffix h =
    let same : c ≡ d = cc h in
    ap (λ x. c ∷ x) (cancel_end a b suffix (tail-eq h)) ∙ ap (λ x. x ∷ b) same

not_ends :
    (suffix : Text) (c : ℕ) (s : Text)
    → (c ∷ s ≢ suffix)
    → (¬ EndsWith suffix s)
    → ¬ EndsWith suffix (c ∷ s)
not_ends suffix c s apart bare ([], h) = apart h
not_ends suffix c s apart bare (d ∷ body, h) = bare (body, tail-eq h)

IsClosed-cons :
    (c : ℕ) (s body : Text)
    → (c ∷ s ≢ line_fence)
    → (c ∷ s ≢ fence)
    → IsClosed s body
    → IsClosed (c ∷ s) (c ∷ body)
IsClosed-cons c s body off_line off (inl h) = inl (ap (λ x. c ∷ x) h)
IsClosed-cons c s body off_line off (inr (inl (bare, h))) =
    inr (inl (not_ends line_fence c s off_line bare, ap (λ x. c ∷ x) h))
IsClosed-cons c s body off_line off (inr (inr (bare, h))) =
    inr (inr (not_ends fence c s off bare, ap (λ x. c ∷ x) h))

strip_closing-IsClosed : (s : Text) → IsClosed s (strip_closing s)
unfolding strip_closing
strip_closing-IsClosed [] = inr (inr (too_short fence [] (omega (arith, length-fence)), refl))
strip_closing-IsClosed (c ∷ s) = elim (Bool-cases (text_eq (c ∷ s) line_fence)) [
  | inl at_line ↦ rw (strip_closing, at_line) (inl ((text_eq_iff (c ∷ s) line_fence).0 at_line))
  | inr off_line ↦ elim (Bool-cases (text_eq (c ∷ s) fence)) [
    | inl at_fence ↦
        let same = (text_eq_iff (c ∷ s) fence).0 at_fence in
        let short = ap length same in
        rw (strip_closing, off_line, at_fence)
          (inr (
            inl (
              too_short line_fence (c ∷ s) (omega (arith, short, length-fence, length-line_fence)),
              same,
            )))
    | inr off ↦
        rw (strip_closing, off_line, off)
          (IsClosed-cons c s (strip_closing s)
            (λ e. cc ((text_eq_iff (c ∷ s) line_fence).1 e, off_line))
            (λ e. cc ((text_eq_iff (c ∷ s) fence).1 e, off)) (strip_closing-IsClosed s))
  ]
]

IsClosed-unique : (s a b : Text) → IsClosed s a → IsClosed s b → a ≡ b
IsClosed-unique s a b (inl h) (inl k) = cancel_end a b line_fence (sym h ∙ k)
IsClosed-unique s a b (inl h) (inr (inl (bare, k))) = absurd (bare (a, h))
IsClosed-unique s a b (inl h) (inr (inr (bare, k))) =
    absurd (bare (a ++ text "\n", h ∙ line_fence-fence a))
IsClosed-unique s a b (inr (inl (bare, h))) (inl k) = absurd (bare (b, k))
IsClosed-unique s a b (inr (inl (_, h))) (inr (inl (_, k))) = cancel_end a b fence (sym h ∙ k)
IsClosed-unique s a b (inr (inl (_, h))) (inr (inr (bare, k))) = absurd (bare (a, h))
IsClosed-unique s a b (inr (inr (bare, h))) (inl k) =
    absurd (bare (b ++ text "\n", k ∙ line_fence-fence b))
IsClosed-unique s a b (inr (inr (bare, h))) (inr (inl (_, k))) = absurd (bare (b, k))
IsClosed-unique s a b (inr (inr (_, h))) (inr (inr (_, k))) = h ∙ sym k

pub cleaned_iff : (raw body : Text) → (cleaned raw ≡ body) ↔ IsUnfenced raw body
unfolding cleaned
cleaned_iff raw body = (
  λ h. (
    strip_opening (trim raw),
    strip_closing (strip_opening (trim raw)),
    (strip_opening_iff (trim raw) _).0 refl,
    strip_closing-IsClosed (strip_opening (trim raw)),
    sym h,
  ),
  λ (opened, closed, opening, closing, same).
      let at = (strip_opening_iff (trim raw) opened).1 opening in
      let shut =
        IsClosed-unique opened (strip_closing opened) closed (strip_closing-IsClosed opened)
          closing in
      ap (λ x. trim (strip_closing x)) at ∙ (ap (λ x. trim x) shut ∙ sym same),
)
