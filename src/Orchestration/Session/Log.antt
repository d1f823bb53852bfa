-- ===== src/Orchestration/Session/Log.antt =====
-- backend/src/orchestration/sessionPersistence.ts: the entries that are written.
pub mod Written
use onetrackmind.Common.{
  ℕ, Bool, List, [], ◌∷◌, ◌++◌, Option, none, some, Text, Text-Eq, text, ◌==◌, if◌then◌else◌,
}
use onetrackmind.Common.Results.{Thrown, Throws, returns, throws, error_message_of}
use onetrackmind.Runtime.Date.{to_iso_string}
use onetrackmind.Runtime.Join.{join}
use onetrackmind.Runtime.Decimal.{decimal}
use onetrackmind.Db.Serializers.{
  Json, str, num, obj, Members, JsonCodec, Parsed, value, syntax_error,
}
use onetrackmind.Orchestration.Narrowing.{field, to_record}
use onetrackmind.Orchestration.Session.State.{SessionState}
use onetrackmind.Orchestration.Session.Cache.{members, state_value}
use onetrackmind.Orchestration.Session.Store.{
  SessionLogEntry, StateRow, SessionDb, SessionOp, insert_entry, upsert_state, Faults,
  SessionPersistenceError, write_error, invalid_payload, persistence_error,
}

pub data EntryType : Type 0 where
  session_open user_message assistant_response flag_raised flag_acknowledged : EntryType
  approval_decision route_result session_close : EntryType

abbrev pub entry_type_text : EntryType → Text
entry_type_text session_open = text "session_open"
entry_type_text user_message = text "user_message"
entry_type_text assistant_response = text "assistant_response"
entry_type_text flag_raised = text "flag_raised"
entry_type_text flag_acknowledged = text "flag_acknowledged"
entry_type_text approval_decision = text "approval_decision"
entry_type_text route_result = text "route_result"
entry_type_text session_close = text "session_close"

abbrev pub entry_types : List EntryType
entry_types =
    session_open ∷ user_message ∷ assistant_response ∷ flag_raised ∷ flag_acknowledged
    ∷ approval_decision ∷ route_result ∷ session_close ∷ []

abbrev pub payload_schemas : EntryType → List Text
payload_schemas session_open =
    text "sessionId" ∷ text "userId" ∷ text "editionId" ∷ text "openedAt" ∷ []
payload_schemas user_message = text "content" ∷ text "channel" ∷ []
payload_schemas assistant_response =
    text "content" ∷ text "inputTokens" ∷ text "outputTokens" ∷ text "model" ∷ []
payload_schemas flag_raised = text "flagId" ∷ text "type" ∷ text "content" ∷ []
payload_schemas flag_acknowledged = text "flagId" ∷ []
payload_schemas approval_decision = text "requestId" ∷ text "decision" ∷ []
payload_schemas route_result = text "channel" ∷ text "success" ∷ text "segmentCount" ∷ []
payload_schemas session_close = text "closedAt" ∷ text "turnCount" ∷ []

abbrev pub current_schema_version : ℕ
current_schema_version = 1

pub data SerializeReason : Type 0 where
  missing_fields invalid_type : SerializeReason

pub record SerializeFailure : Type 0 where
  pub reason : SerializeReason
  pub fields : List Text
  pub message : Text

-- The loop over the required fields.
unfoldable pub missing_of : List Text → Members → List Text
missing_of [] data_members = []
missing_of (key ∷ required) data_members =
    let rest = missing_of required data_members in
    elim (field data_members key) [ none ↦ key ∷ rest | some _ ↦ rest ]

abbrev missing_failure : EntryType → List Text → SerializeFailure
missing_failure entry_type missing = record {
  reason = missing_fields;
  fields = missing;
  message =
      entry_type_text entry_type
      ++ (text ": missing required fields: " ++ join (text ", ") missing);
}

-- The data are a JSON object, which `JSON.stringify` does not throw on.
unfoldable pub serialize_payload : JsonCodec → EntryType → Members → Throws SerializeFailure Text
unfolding missing_of
serialize_payload codec entry_type data_members =
    elim (missing_of (payload_schemas entry_type) data_members) [
      | [] ↦ returns (codec.stringify (obj data_members))
      | first ∷ rest ↦ throws (missing_failure entry_type (first ∷ rest))
    ]

-- `Omit<SessionLogEntry, 'entryId' | 'timestamp' | 'schemaVersion'>`
pub record NewEntry : Type 0 where
  pub session_id : Text
  pub user_id : Text
  pub entry_type : EntryType
  pub payload : Text

abbrev pub bad_payload : NewEntry → Text → SessionPersistenceError
bad_payload entry message =
    persistence_error message entry.session_id (text "writeLogEntry") invalid_payload

-- The payload that is stored, or the reason why it is refused.
unfoldable pub checked_payload : JsonCodec → NewEntry → Throws SessionPersistenceError Text
unfolding serialize_payload
checked_payload codec entry = elim (codec.parse entry.payload) [
  | syntax_error message ↦ throws (
      bad_payload entry
        (entry_type_text entry.entry_type ++ (text ": unparseable payload: " ++ message)))
  | value v ↦ elim (to_record v) [
    | none ↦ throws (
        bad_payload entry
          (entry_type_text entry.entry_type ++ text ": payload must be a JSON object"))
    | some ms ↦ elim (serialize_payload codec entry.entry_type ms) [
      | throws failure ↦ throws (bad_payload entry failure.message)
      | returns payload ↦ returns payload
    ]
  ]
]

abbrev pub full_entry : NewEntry → Text → Text → ℕ → SessionLogEntry
full_entry entry payload entry_id now = record {
  entry_id = entry_id;
  session_id = entry.session_id;
  user_id = entry.user_id;
  entry_type = entry_type_text entry.entry_type;
  payload = payload;
  schema_version = current_schema_version;
  timestamp = to_iso_string now;
}

abbrev pub insert_error : NewEntry → Thrown → SessionPersistenceError
insert_error entry e =
    persistence_error (text "SQLite write failed: " ++ error_message_of e) entry.session_id
      (text "writeLogEntry") write_error

unfoldable pub write_log_entry :
    JsonCodec
    → Faults
    → NewEntry
    → (entry_id : Text) → (now : ℕ) → SessionDb
    → Option SessionPersistenceError × SessionDb
unfolding checked_payload
write_log_entry codec fault entry entry_id now db = elim (checked_payload codec entry) [
  | throws e ↦ (some e, db)
  | returns payload ↦ elim (fault insert_entry) [
    | some e ↦ (some (insert_error entry e), db)
    | none ↦ (
      none,
      record db { session_log = db.session_log ++ full_entry entry payload entry_id now ∷ [] },
    )
  ]
]

-- `ON CONFLICT(session_id) DO UPDATE`, which keeps the user and the edition of the row.
unfoldable pub upserted : StateRow → List StateRow → List StateRow
upserted new [] = new ∷ []
upserted new (row ∷ rows) =
    let rest = upserted new rows in
    if row.session_id == new.session_id
    then record row { state_json = new.state_json; last_interaction_at = new.last_interaction_at }
      ∷ rows
    else row ∷ rest

abbrev pub state_row : JsonCodec → SessionState → StateRow
state_row codec st = record {
  session_id = st.session_id;
  user_id = st.user_id;
  edition_id = st.edition_id;
  state_json = codec.stringify (state_value st);
  last_interaction_at = st.last_interaction_at;
}

unfoldable pub update_state_object :
    JsonCodec → Faults → SessionState → SessionDb → Option SessionPersistenceError × SessionDb
unfolding upserted
update_state_object codec fault st db = elim (fault upsert_state) [
  | some e ↦ (
    some (
        persistence_error (text "State object UPSERT failed: " ++ error_message_of e) st.session_id
          (text "updateStateObject") write_error),
    db,
  )
  | none ↦ (none, record db { session_states = upserted (state_row codec st) db.session_states })
]

abbrev close_payload : (now turn_count : ℕ) → Members
close_payload now turn_count =
    members (
      (text "closedAt", str (to_iso_string now))
      ∷ (text "turnCount", num (decimal turn_count))
      ∷ [])

unfoldable pub close_session :
    JsonCodec
    → Faults
    → (session_id user_id : Text) → (turn_count : ℕ) → (entry_id : Text) → (closed written : ℕ)
    → SessionDb
    → Option SessionPersistenceError × SessionDb
unfolding write_log_entry
close_session codec fault session_id user_id turn_count entry_id closed written db =
    write_log_entry codec fault
      (record {
        session_id = session_id;
        user_id = user_id;
        entry_type = session_close;
        payload = codec.stringify (obj (close_payload closed turn_count));
      })
      entry_id written db
