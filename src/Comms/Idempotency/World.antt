-- ===== src/Comms/Idempotency/World.antt =====
-- What the executor of backend/src/comms/idempotencyChecker/index.ts works on. A call takes the world
-- before it and gives the world after it: the database, the lines handed to the Logger and the
-- diagnostic events handed to the emitter, the newest last.
use onetrackmind.Common.{List, [], ◌∷◌, ◌++◌, Option, Text, text}
use onetrackmind.Common.Results.{Thrown, Throws, returns, throws}
use onetrackmind.Db.Vocabulary.{CommsProvider, IdempotencyProvenance}
use onetrackmind.Db.Mapping.IdempotencyKeys.{IdempotencyKeyRow}
use onetrackmind.Comms.Effects.{LogLine, CommsDb, DiagnosticSeverity}

pub data IdempotencyOp : Type 0 where
  provider_id_insert provider_id_conflict_fetch content_hash_select : IdempotencyOp
  content_hash_insert link_update : IdempotencyOp

abbrev pub op_text : IdempotencyOp → Text
op_text provider_id_insert = text "provider_id_insert"
op_text provider_id_conflict_fetch = text "provider_id_conflict_fetch"
op_text content_hash_select = text "content_hash_select"
op_text content_hash_insert = text "content_hash_insert"
op_text link_update = text "link_update"

-- The field `module` is 'idempotencyChecker' in every event.
pub record IdempotencyDiagnosticEvent : Type 0 where
  pub op : IdempotencyOp
  pub severity : DiagnosticSeverity
  pub provider : Option CommsProvider
  pub error_class : Text
  pub detail : Text

pub record World : Type 0 where
  pub db : CommsDb
  pub log : List LogLine
  pub events : List IdempotencyDiagnosticEvent

-- A driver fault for each statement, and whether the emitter's promise is rejected.
pub record IdempotencyCheckerDeps : Type 0 where
  pub fault : IdempotencyOp → Option Thrown
  pub emit_diagnostic : IdempotencyDiagnosticEvent → Throws Thrown (Unit {0})

pub data IdempotencyResult : Type 0 where
  novel : IdempotencyProvenance → (content_hash key_id : Text) → IdempotencyResult
  duplicate :
      IdempotencyProvenance
      → (content_hash matched_key_id : Text) → (linked_message_id : Option Text) → IdempotencyResult
  error : IdempotencyProvenance → (content_hash reason : Text) → IdempotencyResult

abbrev pub write_log : LogLine → World → World
write_log line w = record w { log = w.log ++ line ∷ [] }

abbrev pub set_keys : List IdempotencyKeyRow → World → World
set_keys rows w = record w { db = record (w.db) { idempotency_keys = rows } }

-- The event is handed over, and a rejection is swallowed.
abbrev pub emit : IdempotencyCheckerDeps → IdempotencyDiagnosticEvent → World → World
emit deps event w = elim (deps.emit_diagnostic event) [
  | returns _ ↦ record w { events = w.events ++ event ∷ [] }
  | throws _ ↦ record w { events = w.events ++ event ∷ [] }
]
