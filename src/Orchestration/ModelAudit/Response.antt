-- ===== src/Orchestration/ModelAudit/Response.antt =====
-- backend/src/orchestration/modelAudit.ts: the parser of the audit's answer. `String()` of a member is
-- a parameter.
pub mod Fence
pub mod Accepts
use onetrackmind.Common.{
  ℕ, Bool, true, false, List, [], ◌∷◌, ◌++◌, Option, none, some, Text, Text-Eq, text, ◌==◌, nat_beq,
  take, if◌then◌else◌, ◌||◌,
}
use onetrackmind.Common.Results.{Thrown, Throws, returns, throws, ◌>>=◌}
use onetrackmind.Runtime.Trim.{trim}
use onetrackmind.Db.Serializers.{Json, str, Members, JsonCodec, Parsed, value, syntax_error}
use onetrackmind.Orchestration.Narrowing.{field, as_string, extract_string, to_record}

pub data AuditResult : Type 0 where
  pass flag revise : AuditResult

pub record ModelAuditResult : Type 0 where
  pub result : AuditResult
  pub issue : Option Text
  pub correction : Option Text

abbrev pub audit_result_text : AuditResult → Text
audit_result_text pass = text "pass"
audit_result_text flag = text "flag"
audit_result_text revise = text "revise"

-- `validResults.find(v => v === obj['result'])`
unfoldable pub valid_result : Option Text → Option AuditResult
valid_result none = none
valid_result (some s) =
    if s == text "pass"
    then some pass
    else if s == text "flag"
    then some flag
    else if s == text "revise"
    then some revise
    else none

-- The text after a prefix.
unfoldable after_prefix : Text → Text → Option Text
after_prefix [] s = some s
after_prefix (p ∷ prefix) [] = none
after_prefix (p ∷ prefix) (c ∷ s) = if nat_beq p c then after_prefix prefix s else none

abbrev optional_prefix : Text → Text → Text
optional_prefix prefix s = elim (after_prefix prefix s) [ none ↦ s | some rest ↦ rest ]

-- `.replace(/^```(?:json)?\n?/, '')`
unfoldable strip_opening : Text → Text
unfolding after_prefix
strip_opening s = elim (after_prefix (text "```") s) [
  | none ↦ s
  | some rest ↦ optional_prefix (text "\n") (optional_prefix (text "json") rest)
]

-- `.replace(/\n?```$/, '')`, at the first place from which the pattern reaches the end
unfoldable strip_closing : Text → Text
strip_closing [] = []
strip_closing (c ∷ s) =
    let rest = strip_closing s in
    if (c ∷ s) == text "\n```" || (c ∷ s) == text "```" then [] else c ∷ rest

unfoldable pub cleaned : Text → Text
unfolding strip_opening strip_closing
cleaned raw = trim (strip_closing (strip_opening (trim raw)))

abbrev plain_error : Text → Thrown
plain_error message = Thrown.error (text "Error") message

-- A member that is a string with some character.
abbrev pub filled : Option Text → Option Text
filled none = none
filled (some []) = none
filled (some (c ∷ s)) = some (c ∷ s)

abbrev required_member : AuditResult → Text → Option Text → Throws Thrown (Unit {0})
required_member result key (some s) = returns tt
required_member result key none = throws (
    plain_error (
      text "Audit result \""
      ++ (audit_result_text result
          ++ (text "\" must include a non-empty \"" ++ (key ++ text "\" field")))))

-- A result other than 'pass' carries an issue and a correction.
unfoldable checked_members :
    AuditResult → (issue correction : Option Text) → Throws Thrown (Unit {0})
checked_members pass issue correction = returns tt
checked_members flag issue correction = required_member flag (text "issue") issue >>= λ _.
    required_member flag (text "correction") correction
checked_members revise issue correction = required_member revise (text "issue") issue >>= λ _.
    required_member revise (text "correction") correction

module _ (shown : Option Json → Text) where
  unfoldable audit_of : Members → Throws Thrown ModelAuditResult
  unfolding valid_result checked_members
  audit_of ms = elim (valid_result (extract_string ms (text "result"))) [
    | none ↦ throws (
        plain_error (
          text "Audit response \"result\" must be pass|flag|revise, got: \""
          ++ (shown (field ms (text "result")) ++ text "\"")))
    | some result ↦
        let issue = filled (extract_string ms (text "issue")) in
        let correction = filled (extract_string ms (text "correction")) in
        checked_members result issue correction >>= λ _.
        returns (record { result = result; issue = issue; correction = correction })
  ]

  unfoldable pub parse_audit_response : JsonCodec → Text → Throws Thrown ModelAuditResult
  unfolding cleaned audit_of
  parse_audit_response codec raw = elim (codec.parse (cleaned raw)) [
    | syntax_error message ↦ throws (
        plain_error
          (text "Invalid JSON in audit response: \"" ++ (take 120 (cleaned raw) ++ text "\"")))
    | value v ↦ elim (to_record v) [
      | none ↦ throws (plain_error (text "Audit response is not a JSON object"))
      | some ms ↦ audit_of ms
    ]
  ]
