-- ===== src/Comms/CommsLogWriter/Store/Outcome.antt =====
-- What each result of the inserter says of the table, the log and the events.
use onetrackmind.Common.{
  ℕ, true, [], ◌∷◌, ◌++◌, Option, none, some, Text, text, ◌≡◌, refl, arith, inl, inr,
}
use onetrackmind.Common.Results.{Thrown, unless_fault}
use onetrackmind.Db.Serializers.{JsonCodec}
use onetrackmind.Db.Mapping.CommsLog.{CommsLogRow}
use onetrackmind.Comms.Effects.{DiagnosticSeverity}
use onetrackmind.Comms.CommsLogWriter.Record.{CommsLogWriteInput}
use onetrackmind.Comms.CommsLogWriter.Table.{is_known, sql_insert_comms_log}
use onetrackmind.Comms.CommsLogWriter.Table.Invariant.{
  IsSoundRow, IsNewIn, sql_insert_comms_log_cases,
}
use onetrackmind.Comms.CommsLogWriter.Store.{
  CommsLogWriterDiagnosticEvent, WriterWorld, CommsLogWriterDeps, CommsLogWriteResult, stored,
  duplicate, error, set_messages, insert_failure, not_inserted, inserted, written_row,
  store_comms_log,
}

-- The row that is written, and what each result says.
abbrev pub Outcome : CommsLogRow → WriterWorld → CommsLogWriteResult × WriterWorld → Type 0
Outcome row w (stored id, w') =
    (id ≡ row.id)
    × IsSoundRow w.db.contacts row
    × IsNewIn w.db.comms_log row
    × (w'.db ≡ (set_messages (w.db.comms_log ++ row ∷ []) w).db)
    × (w'.events ≡ w.events)
Outcome row w (duplicate provider id, w') =
    (row.provider ≡ provider)
    × (row.provider_message_id ≡ some id)
    × (is_known provider (some id) w.db.comms_log ≡ true)
    × (w'.db ≡ w.db)
    × (w'.events ≡ w.events)
Outcome row w (error reason, w') =
    (w'.db ≡ w.db)
    × ((event : CommsLogWriterDiagnosticEvent) × (w'.events ≡ w.events ++ event ∷ [])
        × (event.severity ≡ DiagnosticSeverity.critical)
        × (reason ≡ text "comms_log_insert: " ++ event.detail))

insert_failure-Outcome :
    (deps : CommsLogWriterDeps) (row : CommsLogRow) (w : WriterWorld) (error_class detail : Text)
    → Outcome row w (insert_failure deps row.provider row.content_hash error_class detail w)
unfolding insert_failure
insert_failure-Outcome deps row w error_class detail = (
  ground arith,
  (
    record {
      severity = DiagnosticSeverity.critical;
      provider = row.provider;
      error_class = error_class;
      detail = detail;
    },
    ground arith,
    refl,
    refl,
  ),
)

known-Outcome :
    (deps : CommsLogWriterDeps) (row : CommsLogRow) (w : WriterWorld) (id : Option Text)
    → row.provider_message_id ≡ id
    → is_known row.provider id w.db.comms_log ≡ true
    → Outcome row w (not_inserted deps row.provider id row.content_hash w)
unfolding not_inserted
known-Outcome deps row w none same known = absurd (ground arith)
known-Outcome deps row w (some id) same known = (refl, same, known, refl, refl)

inserted-Outcome :
    (deps : CommsLogWriterDeps) (row : CommsLogRow) (w : WriterWorld) (fault : Option Thrown)
    → Outcome row w (
        inserted deps row w
          (unless_fault fault (sql_insert_comms_log row w.db.contacts w.db.comms_log)))
unfolding inserted
inserted-Outcome deps row w (some e) = insert_failure-Outcome deps row w _ _
inserted-Outcome deps row w none =
    elim (sql_insert_comms_log_cases row w.db.contacts w.db.comms_log) [
      | inl (e, threw) ↦ rw threw (insert_failure-Outcome deps row w _ _)
      | inr (inl (absorbed, known)) ↦
          rw absorbed (known-Outcome deps row w row.provider_message_id refl known)
      | inr (inr (added, sound, new)) ↦ rw added (refl, sound, new, refl, refl)
    ]

-- A stored result gives the row's id, and the row, which satisfies every constraint of the table and
-- repeats no key of it, is added at the end; a duplicate means that the provider's message id is there;
-- on an error or a duplicate the database is unchanged, and an error alone emits one critical event,
-- whose detail ends the reason.
pub store_comms_log-Outcome :
    (codec : JsonCodec) (input : CommsLogWriteInput) (deps : CommsLogWriterDeps) (now : ℕ)
    (uuid : Text) (w : WriterWorld)
    → Outcome (written_row codec input uuid now) w (store_comms_log codec input deps now uuid w)
unfolding store_comms_log
store_comms_log-Outcome codec input deps now uuid w =
    inserted-Outcome deps (written_row codec input uuid now) w deps.fault
