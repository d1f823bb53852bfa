-- ===== src/Comms/Effects.antt =====
-- What the communications modules share: the log lines of the injected Logger, and the database
-- that they write, with the constraints of backend/migrations/001_phase4_comms.sql that a typed row
-- can still violate. A statement that throws changes nothing.
use onetrackmind.Common.{Bool, true, List, Option, none, some, Text, Text-Eq, ◌==◌, some_of}
use onetrackmind.Db.Mapping.CommsLog.{CommsLogRow}
use onetrackmind.Db.Mapping.Contacts.{ContactRow}
use onetrackmind.Db.Mapping.IdempotencyKeys.{IdempotencyKeyRow}

pub data Level : Type 0 where
  debug info warn error : Level

-- backend/src/db/types.ts
pub data DiagnosticSeverity : Type 0 where
  info warning critical : DiagnosticSeverity

pub record LogLine : Type 0 where
  pub level : Level
  pub message : Text
  pub fields : List (Text × Text)

pub record CommsDb : Type 0 where
  pub contacts : List ContactRow
  pub comms_log : List CommsLogRow
  pub idempotency_keys : List IdempotencyKeyRow

abbrev pub log_line : Level → Text → List (Text × Text) → LogLine
log_line level message fields = record { level = level; message = message; fields = fields }

-- `FOREIGN KEY` to `comms_log(id)` and to `contacts(id)`.
abbrev pub has_message : Text → List CommsLogRow → Bool
has_message id rows = some_of (λ row. row.id == id) rows

abbrev pub has_contact : Option Text → List ContactRow → Bool
has_contact none rows = true
has_contact (some id) rows = some_of (λ row. row.id == id) rows
