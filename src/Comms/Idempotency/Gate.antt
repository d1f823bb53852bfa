-- ===== src/Comms/Idempotency/Gate.antt =====
-- The executor: backend/src/comms/idempotencyChecker/index.ts. `randomUUID()` is an argument.
pub mod Reports
pub mod Once
pub mod Window
pub mod Latest
pub mod Sightings
use onetrackmind.Common.{ℕ, false, List, [], ◌∷◌, ◌++◌, Option, none, some, Text, text}
use onetrackmind.Common.Results.{
  Thrown, Throws, returns, throws, error_class_of, error_message_of, unless_fault,
}
use onetrackmind.Db.Vocabulary.{
  IdempotencyProvenance, content_hash_fallback, provider_text, provenance_text, key_type_text,
}
use onetrackmind.Db.Mapping.IdempotencyKeys.{IdempotencyKeyRow, idempotency_keys_to_db}
use onetrackmind.Comms.Effects.{Level, LogLine, DiagnosticSeverity, log_line}
use onetrackmind.Comms.Idempotency.Plan.{
  IdempotencyInput, FallbackDegradation, no_provider_message_id, empty_provider_message_id,
  PlanBase, IdempotencyPlan, provider_id_plan, content_hash_plan, plan_idempotency_check,
}
use onetrackmind.Comms.Idempotency.Keys.{
  DuplicateRow, sql_provider_id_gate, sql_provider_id_duplicate, sql_content_hash_window,
  sql_content_hash_insert,
}
use onetrackmind.Comms.Idempotency.World.{
  IdempotencyOp, provider_id_insert, provider_id_conflict_fetch, content_hash_select,
  content_hash_insert, op_text, IdempotencyDiagnosticEvent, World, IdempotencyCheckerDeps,
  IdempotencyResult, novel, duplicate, error, write_log, set_keys, emit,
}

abbrev pub new_key_row : PlanBase → Text → IdempotencyKeyRow
new_key_row plan uuid = idempotency_keys_to_db (record {
  id = uuid;
  key_type = plan.key_type;
  provider = plan.provider;
  key_value = plan.key_value;
  first_seen_at = plan.first_seen_at;
  expires_at = plan.expires_at;
  linked_message_id = none;
  is_synced = false;
})

-- `gateFailure`
gate_failure :
    IdempotencyCheckerDeps
    → IdempotencyProvenance
    → PlanBase
    → IdempotencyOp
    → (error_class detail : Text) → World
    → IdempotencyResult × World
gate_failure deps provenance plan op error_class detail w =
    let reason : Text = op_text op ++ (text ": " ++ detail) in
    let line = log_line Level.error (text "idempotency gate error") (
      (text "provenance", provenance_text provenance)
      ∷ (text "provider", provider_text plan.provider)
      ∷ (text "contentHash", plan.content_hash)
      ∷ (text "op", op_text op)
      ∷ (text "errorClass", error_class)
      ∷ (text "reason", reason)
      ∷ []) in
    let event : IdempotencyDiagnosticEvent = record {
      op = op;
      severity = DiagnosticSeverity.critical;
      provider = some plan.provider;
      error_class = error_class;
      detail = detail;
    } in
    (error provenance plan.content_hash reason, emit deps event (write_log line w))

-- A caught value, by its class and its message.
abbrev caught :
    IdempotencyCheckerDeps
    → IdempotencyProvenance
    → PlanBase
    → IdempotencyOp
    → Thrown
    → World
    → IdempotencyResult × World
caught deps provenance plan op e w =
    gate_failure deps provenance plan op (error_class_of e) (error_message_of e) w

abbrev decision_line : (decision : Text) → IdempotencyProvenance → PlanBase → Text × Text → LogLine
decision_line decision provenance plan id_field =
    log_line Level.info (text "idempotency decision") (
      (text "decision", decision)
      ∷ (text "provenance", provenance_text provenance)
      ∷ (text "keyType", key_type_text plan.key_type)
      ∷ (text "provider", provider_text plan.provider)
      ∷ (text "contentHash", plan.content_hash)
      ∷ id_field
      ∷ [])

abbrev answer_novel : IdempotencyProvenance → PlanBase → Text → World → IdempotencyResult × World
answer_novel provenance plan id w = (
  novel provenance plan.content_hash id,
  write_log (decision_line (text "novel") provenance plan (text "keyId", id)) w,
)

abbrev answer_duplicate :
    IdempotencyProvenance → PlanBase → DuplicateRow → World → IdempotencyResult × World
answer_duplicate provenance plan row w = (
  duplicate provenance plan.content_hash row.id row.linked_message_id,
  write_log (decision_line (text "duplicate") provenance plan (text "matchedKeyId", row.id)) w,
)

-- After SQL_PROVIDER_ID_DUPLICATE.
provider_id_fetched :
    IdempotencyCheckerDeps
    → PlanBase
    → World
    → Throws Thrown (Option DuplicateRow)
    → IdempotencyResult × World
unfolding gate_failure
provider_id_fetched deps plan w (throws e) =
    caught deps IdempotencyProvenance.provider_id plan provider_id_conflict_fetch e w
provider_id_fetched deps plan w (returns none) =
    gate_failure deps IdempotencyProvenance.provider_id plan provider_id_conflict_fetch
      (text "ConflictRowMissing")
      (text "ON CONFLICT fired but no matching provider_id key row found") w
provider_id_fetched deps plan w (returns (some row)) =
    answer_duplicate IdempotencyProvenance.provider_id plan row w

-- After SQL_PROVIDER_ID_GATE.
provider_id_inserted :
    IdempotencyCheckerDeps
    → PlanBase
    → World
    → Throws Thrown (Option Text × List IdempotencyKeyRow)
    → IdempotencyResult × World
unfolding gate_failure provider_id_fetched
provider_id_inserted deps plan w (throws e) =
    caught deps IdempotencyProvenance.provider_id plan provider_id_insert e w
provider_id_inserted deps plan w (returns (some id, rows)) =
    answer_novel IdempotencyProvenance.provider_id plan id (set_keys rows w)
provider_id_inserted deps plan w (returns (none, rows)) =
    provider_id_fetched deps plan (set_keys rows w) (
      unless_fault (deps.fault provider_id_conflict_fetch)
        (returns (sql_provider_id_duplicate plan.provider plan.key_value rows)))

unfoldable pub execute_provider_id_gate :
    PlanBase → IdempotencyCheckerDeps → (uuid : Text) → World → IdempotencyResult × World
unfolding provider_id_inserted
execute_provider_id_gate plan deps uuid w = provider_id_inserted deps plan w (
    unless_fault (deps.fault provider_id_insert)
      (sql_provider_id_gate (new_key_row plan uuid) w.db.idempotency_keys))

-- After SQL_CONTENT_HASH_INSERT.
content_hash_inserted :
    IdempotencyCheckerDeps
    → PlanBase
    → (id : Text) → World
    → Throws Thrown (List IdempotencyKeyRow)
    → IdempotencyResult × World
unfolding gate_failure
content_hash_inserted deps plan id w (throws e) =
    caught deps content_hash_fallback plan content_hash_insert e w
content_hash_inserted deps plan id w (returns rows) =
    answer_novel content_hash_fallback plan id (set_keys rows w)

-- After SQL_CONTENT_HASH_WINDOW.
content_hash_selected :
    IdempotencyCheckerDeps
    → PlanBase
    → (uuid : Text) → World
    → Throws Thrown (Option DuplicateRow)
    → IdempotencyResult × World
unfolding gate_failure content_hash_inserted
content_hash_selected deps plan uuid w (throws e) =
    caught deps content_hash_fallback plan content_hash_select e w
content_hash_selected deps plan uuid w (returns (some row)) =
    answer_duplicate content_hash_fallback plan row w
content_hash_selected deps plan uuid w (returns none) = content_hash_inserted deps plan uuid w (
    unless_fault (deps.fault content_hash_insert)
      (sql_content_hash_insert (new_key_row plan uuid) w.db.idempotency_keys))

abbrev warn_degraded : FallbackDegradation → PlanBase → World → World
warn_degraded no_provider_message_id plan w = w
warn_degraded empty_provider_message_id plan w =
    write_log
      (log_line Level.warn (text "idempotency fallback: empty providerMessageId treated as absent")
        ((text "provider", provider_text plan.provider)
          ∷ (text "contentHash", plan.content_hash)
          ∷ []))
      w

unfoldable pub execute_content_hash_gate :
    PlanBase
    → (window_start_at : Text) → FallbackDegradation
    → IdempotencyCheckerDeps
    → (uuid : Text) → World
    → IdempotencyResult × World
unfolding content_hash_selected
execute_content_hash_gate plan window_start_at degradation deps uuid w =
    content_hash_selected deps plan uuid (warn_degraded degradation plan w) (
      unless_fault (deps.fault content_hash_select) (
        returns (
          sql_content_hash_window plan.key_value window_start_at plan.first_seen_at
            w.db.idempotency_keys)))

unfoldable pub execute_idempotency_plan :
    IdempotencyPlan → IdempotencyCheckerDeps → (uuid : Text) → World → IdempotencyResult × World
execute_idempotency_plan (provider_id_plan plan) deps uuid w =
    execute_provider_id_gate plan deps uuid w
execute_idempotency_plan (content_hash_plan plan window_start_at degradation) deps uuid w =
    execute_content_hash_gate plan window_start_at degradation deps uuid w

unfoldable pub check_idempotency :
    (sha256 : Text → Text)
    → IdempotencyInput
    → IdempotencyCheckerDeps
    → (now : ℕ) → (uuid : Text) → World
    → IdempotencyResult × World
check_idempotency sha256 input deps now uuid w =
    execute_idempotency_plan (plan_idempotency_check sha256 input now) deps uuid w
