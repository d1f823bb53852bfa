-- ===== src/Orchestration/ModelAudit/Prompt.antt =====
-- backend/src/orchestration/modelAudit.ts: whether the audit runs, and what it is asked.
pub mod Ends
use onetrackmind.Common.{
  Bool, true, false, not, ◌&&◌, List, [], ◌∷◌, ◌++◌, Option, none, some, Text, text, map, filter,
  some_of,
}
use onetrackmind.Runtime.Join.{join}
use onetrackmind.Orchestration.EventClassifier.Input.{
  EventType, user_message, event_type_text, ProcessedEvent,
}
use onetrackmind.Orchestration.Session.State.{
  FlagType, safety, ActiveFlag, OpenItem, ConsistContext,
}
use onetrackmind.Orchestration.Formatters.{
  format_active_flags, format_open_items, format_consist_context,
}

pub data FlagSeverity : Type 0 where
  hold flag warn : FlagSeverity

pub record PreflightFlag : Type 0 where
  pub rule : Text
  pub detail : Text
  pub severity : FlagSeverity

pub record PreflightResult : Type 0 where
  pub pass : Bool
  pub flags : List PreflightFlag

-- `additionalRecords` is read by nothing here.
pub record ContextualData : Type 0 where
  pub active_flags : List ActiveFlag
  pub open_items : List OpenItem
  pub consist_context : Option ConsistContext

pub record ModelAuditInput : Type 0 where
  pub response_text : Text
  pub event : ProcessedEvent
  pub contextual_data : ContextualData
  pub preflight_flags : List PreflightFlag
  pub session_id : Text
  pub request_id : Text

abbrev is_user_message : EventType → Bool
is_user_message user_message = true
is_user_message _ = false

abbrev is_safety : FlagType → Bool
is_safety safety = true
is_safety _ = false

abbrev pub is_open_safety_flag : ActiveFlag → Bool
is_open_safety_flag f = is_safety f.flag_type && not f.acknowledged

unfoldable pub should_run_model_audit : ProcessedEvent → ContextualData → PreflightResult → Bool
should_run_model_audit event contextual_data preflight_result =
    let condition3 = is_user_message event.event_type in
    let condition4 = preflight_result.pass in
    let condition5 = not (some_of is_open_safety_flag contextual_data.active_flags) in
    not (condition3 && condition4 && condition5)

abbrev severity_upper : FlagSeverity → Text
severity_upper hold = text "HOLD"
severity_upper flag = text "FLAG"
severity_upper warn = text "WARN"

abbrev preflight_line : PreflightFlag → Text
preflight_line f =
    text "- [" ++ (severity_upper f.severity ++ (text "] " ++ (f.rule ++ (text ": " ++ f.detail))))

abbrev preflight_summary : List PreflightFlag → Text
preflight_summary [] = text "none"
preflight_summary (f ∷ flags) = join (text "\n") (map preflight_line (f ∷ flags))

-- `s || 'none'`
abbrev or_none : Text → Text
or_none [] = text "none"
or_none (c ∷ s) = c ∷ s

abbrev or_unknown : Option Text → Text
or_unknown none = text "unknown"
or_unknown (some channel) = channel

-- The lines that are joined.
abbrev pub prompt_lines : ModelAuditInput → List Text
prompt_lines input =
    let data_of = input.contextual_data in
    (text "EVENT TYPE: " ++ event_type_text input.event.event_type)
    ∷ (text "CHANNEL: " ++ or_unknown input.event.metadata.channel)
    ∷ []
    ∷ text "ACTIVE SAFETY FLAGS:"
    ∷ or_none (format_active_flags (filter is_open_safety_flag data_of.active_flags))
    ∷ []
    ∷ text "PRE-FLIGHT FINDINGS:"
    ∷ preflight_summary input.preflight_flags
    ∷ []
    ∷ text "VERIFIED CONTEXT (what the assistant had access to):"
    ∷ (text "Consist machines:\n" ++ or_none (format_consist_context data_of.consist_context))
    ∷ (text "Open items:\n" ++ or_none (format_open_items data_of.open_items))
    ∷ (text "Event content: " ++ input.event.raw_content)
    ∷ []
    ∷ text "RESPONSE TO AUDIT:"
    ∷ input.response_text
    ∷ []

unfoldable pub build_audit_prompt : ModelAuditInput → Text
build_audit_prompt input = join (text "\n") (prompt_lines input)
