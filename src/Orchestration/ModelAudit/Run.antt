-- ===== src/Orchestration/ModelAudit/Run.antt =====
-- backend/src/orchestration/modelAudit.ts: the audit. The prompt's file, the race of the API call with
-- the timer, `String()` of a member, and the clean-up of logged messages in primaryCall.ts are
-- parameters.
pub mod Blocks
pub mod Audited
use onetrackmind.Common.{
  ℕ, ◌-◌, List, [], ◌∷◌, ◌++◌, Option, none, some, Text, Text-Eq, text, ◌==◌, if◌then◌else◌,
}
use onetrackmind.Common.Results.{Thrown, Throws, returns, throws, error_message_of}
use onetrackmind.Runtime.Decimal.{decimal}
use onetrackmind.Db.Serializers.{Json, JsonCodec}
use onetrackmind.Comms.Effects.{LogLine, log_line, Level}
use onetrackmind.Orchestration.ModelAudit.Response.{
  ModelAuditResult, audit_result_text, parse_audit_response,
}
use onetrackmind.Orchestration.ModelAudit.Prompt.{ModelAuditInput, build_audit_prompt}

pub data AuditCause : Type 0 where
  timeout api_error invalid_json config_error : AuditCause

pub record ModelAuditError : Type 0 where
  pub message : Text
  pub session_id : Text
  pub request_id : Text
  pub cause : AuditCause

pub record ContentBlock : Type 0 where
  pub block_type : Text
  pub block_text : Text

-- How the race ends.
pub data AuditCall : Type 0 where
  responded : List ContentBlock → AuditCall
  failed : Thrown → AuditCall
  timed_out : AuditCall

pub record AuditDeps : Type 0 where
  pub load_prompt : Throws Thrown Text
  pub create : (system user_prompt : Text) → AuditCall
  pub shown : Option Json → Text
  pub codec : JsonCodec
  pub sanitize : Text → Text
  pub timeout_ms : ℕ
  pub duration_ms : ℕ

abbrev pub model_audit_model : Text
model_audit_model = text "claude-sonnet-4-6"

-- `response.content.find(b => b.type === 'text')`
unfoldable pub text_block : List ContentBlock → Option Text
text_block [] = none
text_block (b ∷ blocks) =
    let rest = text_block blocks in if b.block_type == text "text" then some b.block_text else rest

module _ (deps : AuditDeps) (input : ModelAuditInput) where
  abbrev pub audit_error : Text → AuditCause → ModelAuditError
  audit_error message cause = record {
    message = message;
    session_id = input.session_id;
    request_id = input.request_id;
    cause = cause;
  }

  abbrev ids : List (Text × Text)
  ids = (text "requestId", input.request_id) ∷ (text "sessionId", input.session_id) ∷ []

  abbrev pub start_line : LogLine
  start_line = log_line Level.info (text "start") (ids ++ (text "model", model_audit_model) ∷ [])

  abbrev pub error_line : Text → Text → LogLine
  error_line cause message =
      log_line Level.error (text "error")
        (ids ++ (text "cause", cause) ∷ (text "message", deps.sanitize message) ∷ [])

  abbrev pub complete_line : ModelAuditResult → LogLine
  complete_line r = log_line Level.info (text "complete") (
      ids
      ++ (text "result", audit_result_text r.result)
        ∷ (text "durationMs", decimal deps.duration_ms)
        ∷ [])

  abbrev Audit : Type 0
  Audit = Throws ModelAuditError ModelAuditResult × List LogLine

  unfoldable answered : List ContentBlock → Audit
  unfolding text_block parse_audit_response
  answered blocks = elim (text_block blocks) [
    | none ↦ (
      throws (audit_error (text "Audit response contained no text block") invalid_json),
      start_line ∷ [],
    )
    | some answer ↦ elim (parse_audit_response deps.shown deps.codec answer) [
      | throws e ↦ (throws (audit_error (error_message_of e) invalid_json), start_line ∷ [])
      | returns r ↦ (returns r, start_line ∷ complete_line r ∷ [])
    ]
  ]

  unfoldable raced : AuditCall → Audit
  unfolding answered
  raced (responded blocks) = answered blocks
  raced (failed e) = (
    throws (audit_error (text "API error: " ++ error_message_of e) api_error),
    start_line ∷ error_line (text "api_error") (error_message_of e) ∷ [],
  )
  raced timed_out = (
    throws (
        audit_error (text "Model audit timed out after " ++ (decimal deps.timeout_ms ++ text "ms"))
          timeout),
    start_line ∷ [],
  )

  unfoldable pub run_model_audit : Audit
  unfolding raced
  run_model_audit = elim deps.load_prompt [
    | throws e ↦ (
      throws (audit_error (text "Config error: " ++ error_message_of e) config_error),
      start_line ∷ error_line (text "config_error") (error_message_of e) ∷ [],
    )
    | returns prompt ↦ raced (deps.create prompt (build_audit_prompt input))
  ]
