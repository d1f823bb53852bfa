-- ===== src/Db/Mapping/RoundTrip.antt =====
-- Rows and domain values of backend/src/db/mapping: what is written reads back.
use onetrackmind.Common.{refl, Option, none, some, ◌≡◌, arith, every, true, text}
use onetrackmind.Db.Serializers.{
  bool_from_db-to_db, arr, obj, items, Members, JsonCodec, RoundTrips, string_array, ok,
}
use onetrackmind.Db.Serializers.Laws.{
  string_array_from_db-json_to_db, json_object_from_db-json_to_db,
}
use onetrackmind.Db.Mapping.Contacts.{ContactDomain, contacts_from_db, contacts_to_db}
use onetrackmind.Db.Constraints.Identifiers.{
  is_contact_identifier, parse_contact_identifiers-stringify,
}
use onetrackmind.Db.Mapping.CommsLog.{CommsLogDomain, comms_log_from_db, comms_log_to_db}
use onetrackmind.Db.Mapping.IdempotencyKeys.{
  IdempotencyKeyDomain, idempotency_keys_from_db, idempotency_keys_to_db,
}
use onetrackmind.Db.Mapping.ThreadMappings.{
  ThreadMappingDomain, thread_mappings_from_db, thread_mappings_to_db,
}
use onetrackmind.Db.Mapping.PollingState.{
  PollingStateDomain, cursor_from_db, cursor_to_db, polling_state_from_db, polling_state_to_db,
}

abbrev pub CursorRoundTrips : JsonCodec → Option Members → Type 0
CursorRoundTrips codec none = Unit
CursorRoundTrips codec (some cursor) = RoundTrips codec (obj cursor)

-- A comms_log value whose recipients survive the JSON codec reads back from its row unchanged.
pub comms_log_round_trip :
    (codec : JsonCodec) (d : CommsLogDomain)
    → RoundTrips codec (string_array d.to_identifiers)
    → comms_log_from_db codec (comms_log_to_db codec d) ≡ ok d
unfolding comms_log_from_db comms_log_to_db
comms_log_round_trip codec d h = ground (
  arith,
  h,
  string_array_from_db-json_to_db codec (text "comms_log.to_identifiers") d.to_identifiers,
)

-- Every idempotency_keys value reads back from its row unchanged.
pub idempotency_keys_round_trip :
    (d : IdempotencyKeyDomain) → idempotency_keys_from_db (idempotency_keys_to_db d) ≡ ok d
unfolding idempotency_keys_from_db idempotency_keys_to_db
idempotency_keys_round_trip d = ground arith

-- Every thread_mappings value reads back from its row unchanged.
pub thread_mappings_round_trip :
    (d : ThreadMappingDomain) → thread_mappings_from_db (thread_mappings_to_db d) ≡ ok d
unfolding thread_mappings_from_db thread_mappings_to_db
thread_mappings_round_trip d = ground arith

-- A contact whose identifiers are well-formed, and whose JSON columns survive the codec, reads
-- back from its row unchanged.
pub contacts_round_trip :
    (codec : JsonCodec) (d : ContactDomain)
    → every is_contact_identifier d.identifiers ≡ true
    → RoundTrips codec (string_array d.channels)
    → RoundTrips codec (arr (items d.identifiers))
    → RoundTrips codec (obj d.recognition_metadata)
    → contacts_from_db codec (contacts_to_db codec d) ≡ ok d
unfolding contacts_from_db contacts_to_db
contacts_round_trip codec d shape channels identifiers metadata = ground (
  arith,
  parse_contact_identifiers-stringify codec d.identifiers shape identifiers,
  json_object_from_db-json_to_db codec (text "contacts.recognition_metadata") d.recognition_metadata
      metadata,
  string_array_from_db-json_to_db codec (text "contacts.channels") d.channels channels,
  bool_from_db-to_db d.is_internal_channel,
  bool_from_db-to_db d.is_synced,
)

cursor_round_trip :
    (codec : JsonCodec) (cursor : Option Members)
    → CursorRoundTrips codec cursor
    → cursor_from_db codec (cursor_to_db codec cursor) ≡ ok cursor
unfolding cursor_from_db cursor_to_db
cursor_round_trip codec none h = refl
cursor_round_trip codec (some cursor) h =
    rw (json_object_from_db-json_to_db codec (text "polling_state.cursor") cursor h)

-- A polling state whose cursor, if there is one, survives the codec reads back unchanged.
pub polling_state_round_trip :
    (codec : JsonCodec) (d : PollingStateDomain)
    → CursorRoundTrips codec d.cursor
    → polling_state_from_db codec (polling_state_to_db codec d) ≡ ok d
unfolding polling_state_from_db polling_state_to_db
polling_state_round_trip codec d h = ground (arith, cursor_round_trip codec d.cursor h)
