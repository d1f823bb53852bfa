-- ===== src/Orchestration/ModelAudit/Prompt/Ends.antt =====
-- How the audit's question ends.
use onetrackmind.Common.{List, [], ◌∷◌, ◌++◌, append_assoc, Text, text, ◌≡◌, refl, sym, ap, ◌∙◌}
use onetrackmind.Runtime.Join.{join}
use onetrackmind.Orchestration.ModelAudit.Prompt.{ModelAuditInput, prompt_lines, build_audit_prompt}

abbrev pub EndsIn : Text → Text → Type 0
EndsIn ending t = (before : Text) × (t ≡ before ++ ending)

abbrev AreLast : (heading last : Text) → List Text → Type 0
AreLast heading last [] = ⊥
AreLast heading last (s ∷ []) = ⊥
AreLast heading last (s ∷ t ∷ []) = (s ≡ heading) × (t ≡ last)
AreLast heading last (s ∷ t ∷ u ∷ rest) = AreLast heading last (t ∷ u ∷ rest)

EndsIn-join :
    (heading last separator : Text) (lines : List Text)
    → AreLast heading last lines
    → EndsIn (heading ++ (separator ++ last)) (join separator lines)
unfolding join
EndsIn-join heading last separator [] h = absurd h
EndsIn-join heading last separator (s ∷ []) h = absurd h
EndsIn-join heading last separator (s ∷ t ∷ []) (first, second) =
    ([], ap (λ x. x ++ (separator ++ t)) first ∙ ap (λ x. heading ++ (separator ++ x)) second)
EndsIn-join heading last separator (s ∷ t ∷ u ∷ rest) h =
    let ending = heading ++ (separator ++ last) in
    let (before, same) = EndsIn-join heading last separator (t ∷ u ∷ rest) h in
    (
      s ++ (separator ++ before),
      ap (λ x. s ++ (separator ++ x)) same
          ∙ (ap (λ x. s ++ x) (sym (append_assoc separator before ending))
              ∙ sym (append_assoc s (separator ++ before) ending)),
    )

-- The response to audit, under its heading.
abbrev pub audited_part : ModelAuditInput → Text
audited_part input = text "RESPONSE TO AUDIT:" ++ (text "\n" ++ input.response_text)

pub build_audit_prompt-EndsIn :
    (input : ModelAuditInput) → EndsIn (audited_part input) (build_audit_prompt input)
unfolding build_audit_prompt
build_audit_prompt-EndsIn input =
    EndsIn-join (text "RESPONSE TO AUDIT:") input.response_text (text "\n") (prompt_lines input)
      (refl, refl)
