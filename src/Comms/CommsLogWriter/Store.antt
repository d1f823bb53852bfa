-- ===== src/Comms/CommsLogWriter/Store.antt =====
-- The inserter: backend/src/comms/commsLogWriter/index.ts. `randomUUID()` is an argument.
pub mod Outcome
pub mod Fate
use onetrackmind.Common.{ℕ, List, [], ◌∷◌, ◌++◌, Option, none, some, Text, text}
use onetrackmind.Common.Results.{
  Thrown, Throws, returns, throws, error_class_of, error_message_of, unless_fault,
}
use onetrackmind.Db.Vocabulary.{
  CommsProvider, provider_text, channel_text, direction_text, provenance_text,
}
use onetrackmind.Db.Serializers.{JsonCodec}
use onetrackmind.Db.Mapping.CommsLog.{CommsLogRow, comms_log_to_db}
use onetrackmind.Comms.Effects.{Level, LogLine, CommsDb, DiagnosticSeverity, log_line}
use onetrackmind.Comms.CommsLogWriter.Record.{
  CommsLogWriteInput, write_base, assemble_comms_log_record,
}
use onetrackmind.Comms.CommsLogWriter.Table.{sql_insert_comms_log}

-- The fields `module` and `op` are 'commsLogWriter' and 'comms_log_insert' in every event.
pub record CommsLogWriterDiagnosticEvent : Type 0 where
  pub severity : DiagnosticSeverity
  pub provider : CommsProvider
  pub error_class : Text
  pub detail : Text

pub record WriterWorld : Type 0 where
  pub db : CommsDb
  pub log : List LogLine
  pub events : List CommsLogWriterDiagnosticEvent

-- A driver fault for the statement, and whether the emitter's promise is rejected.
pub record CommsLogWriterDeps : Type 0 where
  pub fault : Option Thrown
  pub emit_diagnostic : CommsLogWriterDiagnosticEvent → Throws Thrown (Unit {0})

pub data CommsLogWriteResult : Type 0 where
  stored : (id : Text) → CommsLogWriteResult
  duplicate : CommsProvider → (provider_message_id : Text) → CommsLogWriteResult
  error : (reason : Text) → CommsLogWriteResult

abbrev pub write_line : LogLine → WriterWorld → WriterWorld
write_line line w = record w { log = w.log ++ line ∷ [] }

abbrev pub set_messages : List CommsLogRow → WriterWorld → WriterWorld
set_messages rows w = record w { db = record (w.db) { comms_log = rows } }

-- The event is handed over, and a rejection is swallowed.
abbrev emit_event : CommsLogWriterDeps → CommsLogWriterDiagnosticEvent → WriterWorld → WriterWorld
emit_event deps event w = elim (deps.emit_diagnostic event) [
  | returns _ ↦ record w { events = w.events ++ event ∷ [] }
  | throws _ ↦ record w { events = w.events ++ event ∷ [] }
]

unfoldable pub insert_failure :
    CommsLogWriterDeps
    → CommsProvider
    → (content_hash error_class detail : Text) → WriterWorld
    → CommsLogWriteResult × WriterWorld
insert_failure deps provider content_hash error_class detail w =
    let reason : Text = text "comms_log_insert: " ++ detail in
    let line = log_line Level.error (text "comms_log write error") (
      (text "provider", provider_text provider)
      ∷ (text "contentHash", content_hash)
      ∷ (text "op", text "comms_log_insert")
      ∷ (text "errorClass", error_class)
      ∷ (text "reason", reason)
      ∷ []) in
    let event : CommsLogWriterDiagnosticEvent = record {
      severity = DiagnosticSeverity.critical;
      provider = provider;
      error_class = error_class;
      detail = detail;
    } in
    (error reason, emit_event deps event (write_line line w))

abbrev stored_line : CommsLogRow → Text → LogLine
stored_line row id = log_line Level.info (text "comms_log write") (
    (text "decision", text "stored")
    ∷ (text "id", id)
    ∷ (text "provider", provider_text row.provider)
    ∷ (text "channel", channel_text row.channel)
    ∷ (text "direction", direction_text row.direction)
    ∷ (text "provenance", provenance_text row.idempotency_provenance)
    ∷ (text "contentHash", row.content_hash)
    ∷ [])

abbrev duplicate_line : CommsProvider → Text → Text → LogLine
duplicate_line provider id content_hash = log_line Level.info (text "comms_log write") (
    (text "decision", text "duplicate")
    ∷ (text "provider", provider_text provider)
    ∷ (text "providerMessageId", id)
    ∷ (text "contentHash", content_hash)
    ∷ [])

-- The insert returned no row.
not_inserted :
    CommsLogWriterDeps
    → CommsProvider
    → Option Text
    → (content_hash : Text) → WriterWorld
    → CommsLogWriteResult × WriterWorld
unfolding insert_failure
not_inserted deps provider none content_hash w =
    insert_failure deps provider content_hash (text "InsertRowMissing")
      (text "INSERT returned no row for a NULL provider_message_id insert") w
not_inserted deps provider (some id) content_hash w =
    (duplicate provider id, write_line (duplicate_line provider id content_hash) w)

-- After SQL_INSERT_COMMS_LOG.
inserted :
    CommsLogWriterDeps
    → CommsLogRow
    → WriterWorld
    → Throws Thrown (Option Text × List CommsLogRow)
    → CommsLogWriteResult × WriterWorld
unfolding insert_failure not_inserted
inserted deps row w (throws e) =
    insert_failure deps row.provider row.content_hash (error_class_of e) (error_message_of e) w
inserted deps row w (returns (some id, rows)) =
    (stored id, write_line (stored_line row id) (set_messages rows w))
inserted deps row w (returns (none, rows)) =
    not_inserted deps row.provider row.provider_message_id row.content_hash (set_messages rows w)

abbrev pub written_row : JsonCodec → CommsLogWriteInput → (uuid : Text) → (now : ℕ) → CommsLogRow
written_row codec input uuid now = comms_log_to_db codec (assemble_comms_log_record input uuid now)

unfoldable pub store_comms_log :
    JsonCodec
    → CommsLogWriteInput
    → CommsLogWriterDeps
    → (now : ℕ) → (uuid : Text) → WriterWorld
    → CommsLogWriteResult × WriterWorld
unfolding inserted
store_comms_log codec input deps now uuid w =
    let row = written_row codec input uuid now in
    inserted deps row w
      (unless_fault deps.fault (sql_insert_comms_log row w.db.contacts w.db.comms_log))
