-- ===== src/Orchestration/ModelAudit/Run/Audited.antt =====
-- How an audit ends.
use onetrackmind.Common.{
  List, [], ◌∷◌, ◌++◌, some, Text, Text-Eq, text, ◌≡◌, refl, inl, inr, Option-cases,
}
use onetrackmind.Orchestration.ModelAudit.Response.Fence.{IsUnfenced}
use onetrackmind.Common.Results.{Thrown, Throws, returns, throws, error_message_of, Throws-cases}
use onetrackmind.Db.Serializers.{Members, value, obj}
use onetrackmind.Comms.Effects.{LogLine}
use onetrackmind.Orchestration.ModelAudit.Response.{ModelAuditResult, parse_audit_response}
use onetrackmind.Orchestration.ModelAudit.Response.Accepts.{IsAudit, parse_audit_response_iff}
use onetrackmind.Orchestration.ModelAudit.Prompt.{ModelAuditInput, build_audit_prompt}
use onetrackmind.Orchestration.ModelAudit.Prompt.Ends.{
  EndsIn, audited_part, build_audit_prompt-EndsIn,
}
use onetrackmind.Orchestration.ModelAudit.Run.Blocks.{IsFirstText, text_block_iff}
use onetrackmind.Orchestration.ModelAudit.Run.{
  AuditCause, timeout, api_error, invalid_json, config_error, ModelAuditError, ContentBlock,
  AuditCall, responded, failed, timed_out, AuditDeps, text_block, start_line, error_line,
  complete_line, answered, raced, run_model_audit,
}

module _ (deps : AuditDeps) (input : ModelAuditInput) where
  -- The API is asked with the prompt of the file and a question that ends in the response to audit,
  -- and the call ends so.
  abbrev pub IsAsked : AuditCall → Type 0
  IsAsked call =
      (prompt question : Text) × (deps.load_prompt ≡ returns prompt)
      × EndsIn (audited_part input) question
      × (deps.create prompt question ≡ call)

  -- The first block of the type 'text' holds this audit.
  abbrev pub IsAnswer : List ContentBlock → ModelAuditResult → Type 0
  IsAnswer blocks r =
      (answer body : Text) × (ms : Members) × IsFirstText blocks answer
      × IsUnfenced answer body
      × (deps.codec.parse body ≡ value (obj ms))
      × IsAudit ms r

  abbrev pub IsCause : AuditCause → Text → List LogLine → Type 0
  IsCause config_error message lines =
      (e : Thrown) × (deps.load_prompt ≡ throws e)
      × (message ≡ text "Config error: " ++ error_message_of e)
      × (lines
          ≡ start_line deps input
            ∷ error_line deps input (text "config_error") (error_message_of e)
            ∷ [])
  IsCause api_error message lines =
      (e : Thrown) × IsAsked (failed e)
      × (message ≡ text "API error: " ++ error_message_of e)
      × (lines
          ≡ start_line deps input
            ∷ error_line deps input (text "api_error") (error_message_of e)
            ∷ [])
  IsCause timeout message lines = IsAsked timed_out × (lines ≡ start_line deps input ∷ [])
  IsCause invalid_json message lines =
      (blocks : List ContentBlock) × IsAsked (responded blocks)
      × (¬ ((r : ModelAuditResult) × IsAnswer blocks r))
      × (lines ≡ start_line deps input ∷ [])

  abbrev pub IsOutcome : Throws ModelAuditError ModelAuditResult → List LogLine → Type 0
  IsOutcome (returns r) lines =
      (blocks : List ContentBlock) × IsAsked (responded blocks)
      × IsAnswer blocks r
      × (lines ≡ start_line deps input ∷ complete_line deps input r ∷ [])
  IsOutcome (throws e) lines =
      (e.session_id ≡ input.session_id)
      × (e.request_id ≡ input.request_id)
      × IsCause e.cause e.message lines

  answered_by :
      (blocks : List ContentBlock) (r : ModelAuditResult) (answer : Text)
      → text_block blocks ≡ some answer
      → parse_audit_response deps.shown deps.codec answer ≡ returns r
      → IsAnswer blocks r
  answered_by blocks r answer there read =
      let (body, ms, unfenced, parsed, holds) =
        (parse_audit_response_iff deps.shown deps.codec answer r).0 read in
      (answer, body, ms, (text_block_iff blocks answer).0 there, unfenced, parsed, holds)

  answer_read :
      (blocks : List ContentBlock) (r : ModelAuditResult)
      → IsAnswer blocks r
      → (answer : Text) × (text_block blocks ≡ some answer)
        × (parse_audit_response deps.shown deps.codec answer ≡ returns r)
  answer_read blocks r (answer, body, ms, first, unfenced, parsed, holds) = (
    answer,
    (text_block_iff blocks answer).1 first,
    (parse_audit_response_iff deps.shown deps.codec answer r).1 (body, ms, unfenced, parsed, holds),
  )

  answered-IsOutcome :
      (blocks : List ContentBlock)
      → IsAsked (responded blocks)
      → IsOutcome (answered deps input blocks).0 (answered deps input blocks).1
  unfolding answered
  answered-IsOutcome blocks asked = elim (Option-cases (text_block blocks)) [
    | inl silent ↦
        rw (answered, silent)
          (
            refl,
            refl,
            (
              blocks,
              asked,
              (λ h.
                  let (answer, there, _) = answer_read blocks h.0 h.1 in
                  absurd (cc (silent, there))),
              refl,
            ),
          )
    | inr (answer, there) ↦
        elim (Throws-cases (parse_audit_response deps.shown deps.codec answer)) [
          | inl (r, read) ↦
              rw (answered, there, read)
                (blocks, asked, answered_by blocks r answer there read, refl)
          | inr (e, refused) ↦
              rw (answered, there, refused)
                (
                  refl,
                  refl,
                  (
                    blocks,
                    asked,
                    (λ h.
                        let (other, found, read) = answer_read blocks h.0 h.1 in
                        absurd (cc (refused, there, found, read))),
                    refl,
                  ),
                )
        ]
  ]

  raced-IsOutcome :
      (call : AuditCall)
      → IsAsked call
      → IsOutcome (raced deps input call).0 (raced deps input call).1
  unfolding raced
  raced-IsOutcome (responded blocks) asked = answered-IsOutcome blocks asked
  raced-IsOutcome (failed e) asked = (refl, refl, (e, asked, refl, refl))
  raced-IsOutcome timed_out asked = (refl, refl, (asked, refl))

-- An audit ends in one of these ways. It returns a result when the prompt's file is read, the API
-- answers a question that ends in the response to audit, and the first text block of the answer is an
-- audit with that result; it then logs the start and the result. Else it throws an error with the ids
-- of the input: for a prompt that is not read or a call that fails, with the message and a logged
-- error; for a call that takes too long, or an answer whose first text block is not an audit or is
-- missing, with no more than the start in the log.
pub run_model_audit-IsOutcome :
    (deps : AuditDeps) (input : ModelAuditInput)
    → IsOutcome deps input (run_model_audit deps input).0 (run_model_audit deps input).1
unfolding run_model_audit
run_model_audit-IsOutcome deps input = elim (Throws-cases deps.load_prompt) [
  | inr (e, missing) ↦ simp (run_model_audit, missing) (refl, refl, (e, refl, refl, refl))
  | inl (prompt, loaded) ↦
      simp (run_model_audit, loaded)
        (raced-IsOutcome deps input (deps.create prompt (build_audit_prompt input))
          (prompt, build_audit_prompt input, loaded, build_audit_prompt-EndsIn input, refl))
]
