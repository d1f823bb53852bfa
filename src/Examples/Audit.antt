-- ===== src/Examples/Audit.antt =====
-- The theorems on the model audit: an answer in a fence that asks for a correction.
use onetrackmind.Common.{
  Option, [], ◌∷◌, none, some, Text, text, Text-Eq, ◌==◌, if◌then◌else◌, ◌≡◌, ◌↔◌,
}
use onetrackmind.Common.Results.{returns}
use onetrackmind.Db.Serializers.{
  Json, str, obj, Members, end, member, JsonCodec, value, syntax_error,
}
use onetrackmind.Orchestration.EventClassifier.Input.{user_message, ProcessedEvent}
use onetrackmind.Orchestration.ModelAudit.Response.{revise, ModelAuditResult, parse_audit_response}
use onetrackmind.Orchestration.ModelAudit.Response.Fence.{IsUnfenced}
use onetrackmind.Orchestration.ModelAudit.Response.Accepts.{IsAudit, parse_audit_response_iff}
use onetrackmind.Orchestration.ModelAudit.Prompt.{ContextualData, ModelAuditInput}
use onetrackmind.Orchestration.ModelAudit.Run.{responded, AuditDeps, run_model_audit}
use onetrackmind.Orchestration.ModelAudit.Run.Audited.{IsOutcome, run_model_audit-IsOutcome}

abbrev answer_members : Members
answer_members = member (text "result") (str (text "revise")) (
    member (text "issue") (str (text "no source"))
      (member (text "correction") (str (text "cite it")) end))

abbrev codec : JsonCodec
codec = record {
  parse = λ s. if s == text "{}" then value (obj answer_members) else syntax_error (text "bad");
  stringify = λ _. text "{}";
}

abbrev shown : Option Json → Text
shown _ = text "undefined"

abbrev fenced : Text
fenced = text "```json\n{}\n```"

abbrev verdict : ModelAuditResult
verdict = record {
  result = revise;
  issue = some (text "no source");
  correction = some (text "cite it");
}

parse_audit_response_iff_example : (parse_audit_response shown codec fenced ≡ returns verdict) ↔ (
    (body : Text) × (ms : Members) × IsUnfenced fenced body
    × (codec.parse body ≡ value (obj ms))
    × IsAudit ms verdict)
parse_audit_response_iff_example = parse_audit_response_iff shown codec fenced verdict

abbrev event : ProcessedEvent
event = record {
  event_type = user_message;
  raw_content = text "status?";
  metadata = record {
    session_id = text "s1";
    user_id = text "u1";
    channel = none;
    sender = none;
    thread_id = none;
    email_provider = none;
  };
  timestamp = text "2026-01-01T00:00:00.000Z";
}

abbrev context : ContextualData
context = record { active_flags = []; open_items = []; consist_context = none }

abbrev input : ModelAuditInput
input = record {
  response_text = text "All clear.";
  event = event;
  contextual_data = context;
  preflight_flags = [];
  session_id = text "s1";
  request_id = text "r1";
}

abbrev deps : AuditDeps
deps = record {
  load_prompt = returns (text "Audit this.");
  create = λ _ _. responded (record { block_type = text "text"; block_text = fenced } ∷ []);
  shown = shown;
  codec = codec;
  sanitize = λ s. s;
  timeout_ms = 30000;
  duration_ms = 12;
}

run_model_audit-IsOutcome_example :
    IsOutcome deps input (run_model_audit deps input).0 (run_model_audit deps input).1
run_model_audit-IsOutcome_example = run_model_audit-IsOutcome deps input
