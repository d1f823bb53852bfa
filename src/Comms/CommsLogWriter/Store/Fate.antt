-- ===== src/Comms/CommsLogWriter/Store/Fate.antt =====
-- The result that a working database gives, and the row that it holds then.
use onetrackmind.Common.{
  ℕ, true, false, List, Option, none, some, Text, ◌≡◌, refl, inl, inr, Bool-cases, if◌then◌else◌,
}
use onetrackmind.Db.Vocabulary.{CommsProvider}
use onetrackmind.Db.Serializers.{JsonCodec, ok, RoundTrips, string_array}
use onetrackmind.Db.Mapping.CommsLog.{CommsLogRow, comms_log_to_db, comms_log_from_db}
use onetrackmind.Db.Mapping.RoundTrip.{comms_log_round_trip}
use onetrackmind.Comms.Effects.{has_message, has_contact}
use onetrackmind.Comms.CommsLogWriter.Record.{
  CommsLogWriteInput, inbound, outbound, write_base, assemble_comms_log_record,
}
use onetrackmind.Comms.CommsLogWriter.Table.{is_paired, is_keyed, is_known, sql_insert_comms_log}
use onetrackmind.Comms.CommsLogWriter.Store.{
  WriterWorld, CommsLogWriterDeps, CommsLogWriteResult, stored, duplicate, not_inserted, inserted,
  written_row, store_comms_log,
}

-- `stored` under the new id, unless the provider's message id is there.
abbrev pub fate :
    CommsProvider → Option Text → (uuid : Text) → List CommsLogRow → CommsLogWriteResult
fate provider none uuid rows = stored uuid
fate provider (some id) uuid rows =
    if is_known provider (some id) rows then duplicate provider id else stored uuid

-- Every assembled row pairs its direction with its delivery state, whatever the input.
pub assembled-is_paired :
    (codec : JsonCodec) (input : CommsLogWriteInput) (uuid : Text) (now : ℕ)
    → let row = written_row codec input uuid now in
      is_paired row.direction row.delivery_state ≡ true
unfolding assemble_comms_log_record comms_log_to_db
assembled-is_paired codec (inbound base flag) uuid now = refl
assembled-is_paired codec (outbound base state detail leg) uuid now = refl

inserted-fate :
    (deps : CommsLogWriterDeps) (row : CommsLogRow) (w : WriterWorld) (id : Option Text)
    → row.provider_message_id ≡ id
    → is_paired row.direction row.delivery_state ≡ true
    → is_keyed row.idempotency_provenance row.provider_message_id ≡ true
    → has_contact row.contact_id w.db.contacts ≡ true
    → has_message row.id w.db.comms_log ≡ false
    → (inserted deps row w (sql_insert_comms_log row w.db.contacts w.db.comms_log)).0
      ≡ fate row.provider id row.id w.db.comms_log
unfolding inserted not_inserted sql_insert_comms_log
inserted-fate deps row w none named paired keyed contact fresh =
    rw (paired, keyed, fresh, named, contact) refl
inserted-fate deps row w (some id) named paired keyed contact fresh =
    elim (Bool-cases (is_known row.provider (some id) w.db.comms_log)) [
      | inl known ↦ rw (paired, keyed, fresh, named, known)
      | inr new ↦ rw (paired, keyed, fresh, named, new, contact)
    ]

-- With a driver that does not fail, a fresh row id, a contact that exists, and a message id when the
-- provenance claims one, a write is stored exactly when the table holds no message of the provider
-- with the same id; a write without a message id is always stored.
pub store_comms_log-fate :
    (codec : JsonCodec) (input : CommsLogWriteInput) (deps : CommsLogWriterDeps) (now : ℕ)
    (uuid : Text) (w : WriterWorld)
    → deps.fault ≡ none
    → is_keyed (write_base input).idempotency_provenance (write_base input).provider_message_id
      ≡ true
    → has_contact (write_base input).contact_id w.db.contacts ≡ true
    → has_message uuid w.db.comms_log ≡ false
    → (store_comms_log codec input deps now uuid w).0
      ≡ fate (write_base input).provider (write_base input).provider_message_id uuid w.db.comms_log
unfolding store_comms_log assemble_comms_log_record comms_log_to_db
store_comms_log-fate codec (inbound base flag) deps now uuid w sound keyed contact fresh =
    rw sound (inserted-fate deps _ w base.provider_message_id refl refl keyed contact fresh)
store_comms_log-fate codec (outbound base state detail leg) deps now uuid w sound keyed contact
      fresh =
    rw sound (inserted-fate deps _ w base.provider_message_id refl refl keyed contact fresh)

-- A written row whose recipients survive the JSON codec reads back as the record that the assembler
-- made.
pub written_row-reads_back :
    (codec : JsonCodec) (input : CommsLogWriteInput) (uuid : Text) (now : ℕ)
    → RoundTrips codec (string_array (write_base input).to_identifiers)
    → comms_log_from_db codec (written_row codec input uuid now)
      ≡ ok (assemble_comms_log_record input uuid now)
unfolding assemble_comms_log_record
written_row-reads_back codec (inbound base flag) uuid now h = comms_log_round_trip codec _ h
written_row-reads_back codec (outbound base state detail leg) uuid now h =
    comms_log_round_trip codec _ h
