-- ===== src/Comms/Idempotency/Link.antt =====
-- The link backfill: backend/src/comms/idempotencyChecker/index.ts.
pub mod Laws
use onetrackmind.Common.{List, [], ◌∷◌, ◌++◌, Option, none, some, Text, text}
use onetrackmind.Common.Results.{
  Thrown, Throws, returns, throws, error_class_of, error_message_of, unless_fault,
}
use onetrackmind.Db.Mapping.IdempotencyKeys.{IdempotencyKeyRow}
use onetrackmind.Comms.Effects.{Level, DiagnosticSeverity, log_line}
use onetrackmind.Comms.Idempotency.Keys.{sql_link}
use onetrackmind.Comms.Idempotency.World.{
  link_update, op_text, IdempotencyDiagnosticEvent, World, IdempotencyCheckerDeps, write_log,
  set_keys, emit,
}

pub data LinkFailure : Type 0 where
  key_not_found db_error : LinkFailure

pub data LinkResult : Type 0 where
  ok : LinkResult
  failure : LinkFailure → (detail : Text) → LinkResult

link_failure :
    IdempotencyCheckerDeps
    → (key_id message_id : Text) → LinkFailure
    → (error_class detail : Text) → World
    → LinkResult × World
link_failure deps key_id message_id reason error_class detail w =
    let line = log_line Level.error (text "idempotency link error") (
      (text "keyId", key_id)
      ∷ (text "messageId", message_id)
      ∷ (text "op", op_text link_update)
      ∷ (text "errorClass", error_class)
      ∷ (text "reason", detail)
      ∷ []) in
    let event : IdempotencyDiagnosticEvent = record {
      op = link_update;
      severity = DiagnosticSeverity.critical;
      provider = none;
      error_class = error_class;
      detail = detail;
    } in
    (failure reason detail, emit deps event (write_log line w))

-- After SQL_LINK.
linked :
    IdempotencyCheckerDeps
    → (key_id message_id : Text) → World
    → Throws Thrown (Option Text × List IdempotencyKeyRow)
    → LinkResult × World
unfolding link_failure
linked deps key_id message_id w (throws e) =
    link_failure deps key_id message_id db_error (error_class_of e) (error_message_of e) w
linked deps key_id message_id w (returns (none, rows)) =
    link_failure deps key_id message_id key_not_found (text "KeyNotFound")
      (text "link_update matched no idempotency_keys row for keyId=" ++ key_id) (set_keys rows w)
linked deps key_id message_id w (returns (some id, rows)) = (
  ok,
  write_log
      (log_line Level.info (text "idempotency key linked")
        ((text "keyId", key_id) ∷ (text "messageId", message_id) ∷ []))
      (set_keys rows w),
)

unfoldable pub link_idempotency_key :
    (key_id message_id : Text) → IdempotencyCheckerDeps → World → LinkResult × World
unfolding linked
link_idempotency_key key_id message_id deps w = linked deps key_id message_id w (
    unless_fault (deps.fault link_update)
      (sql_link message_id key_id w.db.comms_log w.db.idempotency_keys))
