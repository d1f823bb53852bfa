-- ===== src/Examples/Writer.antt =====
-- The theorems on the inserter: an outbound message into a table that holds one inbound message.
use onetrackmind.Common.{true, List, [], ◌∷◌, none, some, Text, text, text_eq, Text-Eq, ◌≡◌, refl}
use onetrackmind.Common.Results.{returns}
use onetrackmind.Db.Vocabulary.{
  CommsProvider-Eq, twilio, IdempotencyProvenance, CommsChannel, DeliveryState, TriageLabel,
  TimeSensitivity,
}
use onetrackmind.Db.Serializers.{JsonCodec, value, string_array, ok}
use onetrackmind.Db.Mapping.CommsLog.{comms_log_to_db, comms_log_from_db}
use onetrackmind.Comms.CommsLogWriter.Record.{
  CommsLogWriteBase, CommsLogWriteInput, inbound, outbound, assemble_comms_log_record,
}
use onetrackmind.Comms.CommsLogWriter.Table.{is_paired}
use onetrackmind.Comms.CommsLogWriter.Store.{
  WriterWorld, CommsLogWriterDeps, written_row, store_comms_log,
}
use onetrackmind.Comms.CommsLogWriter.Store.Outcome.{Outcome, store_comms_log-Outcome}
use onetrackmind.Comms.CommsLogWriter.Store.Fate.{
  fate, assembled-is_paired, store_comms_log-fate, written_row-reads_back,
}
use onetrackmind.Examples.Fixtures.{now}

abbrev recipients : List Text
recipients = text "+15550002" ∷ []

-- A codec that knows one array.
abbrev codec : JsonCodec
codec = record { parse = λ _. value (string_array recipients); stringify = λ _. text "[]" }

abbrev base : CommsLogWriteBase
base = record {
  provider = twilio;
  provider_message_id = some (text "SM1");
  channel = CommsChannel.sms;
  idempotency_provenance = IdempotencyProvenance.provider_id;
  content_hash = text "h";
  thread_key = text "t";
  from_identifier = text "+15550001";
  to_identifiers = recipients;
  subject = none;
  body = text "on site at 7";
  provider_timestamp = none;
  contact_id = none;
  topic_tag = none;
  triage_label = TriageLabel.awareness_only;
}

abbrev first_input : CommsLogWriteInput
first_input = inbound base TimeSensitivity.none

abbrev second_input : CommsLogWriteInput
second_input =
    outbound (record base { provider_message_id = some (text "SM2") }) DeliveryState.queued none
      none

abbrev sound : CommsLogWriterDeps
sound = record { fault = none; emit_diagnostic = λ _. returns tt }

abbrev stored_world : WriterWorld
stored_world = record {
  db = record {
    contacts = [];
    comms_log = written_row codec first_input (text "m1") now ∷ [];
    idempotency_keys = [];
  };
  log = [];
  events = [];
}

store_comms_log-Outcome_example :
    Outcome
      (written_row codec first_input (text "m2") now)
      stored_world
      (store_comms_log codec first_input sound now (text "m2") stored_world)
store_comms_log-Outcome_example =
    store_comms_log-Outcome codec first_input sound now (text "m2") stored_world

store_comms_log-fate_example :
    (store_comms_log codec first_input sound now (text "m2") stored_world).0
    ≡ fate twilio (some (text "SM1")) (text "m2") stored_world.db.comms_log
unfolding comms_log_to_db assemble_comms_log_record text text_eq
store_comms_log-fate_example =
    store_comms_log-fate codec first_input sound now (text "m2") stored_world refl refl refl refl

written_row-reads_back_example :
    comms_log_from_db codec (written_row codec second_input (text "m2") now)
    ≡ ok (assemble_comms_log_record second_input (text "m2") now)
written_row-reads_back_example = written_row-reads_back codec second_input (text "m2") now refl

assembled-is_paired_example :
    let row = written_row codec second_input (text "m2") now in
    is_paired row.direction row.delivery_state ≡ true
assembled-is_paired_example = assembled-is_paired codec second_input (text "m2") now
