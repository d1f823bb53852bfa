-- ===== src/Orchestration/Session/Replay.antt =====
-- backend/src/orchestration/sessionPersistence.ts: `replaySessionLog`.
pub mod Rows
pub mod Events
pub mod Flags
pub mod Described
pub mod Replayed
use onetrackmind.Common.{
  ℕ, Bool, true, false, List, [], ◌∷◌, ◌++◌, Option, none, some, Text, Text-Eq, text, text_le, ◌==◌,
  nat_beq, map, if◌then◌else◌,
}
use onetrackmind.Common.Results.{Thrown, Throws, returns, throws, ◌>>=◌, error_message_of}
use onetrackmind.Runtime.Decimal.{decimal}
use onetrackmind.Db.Serializers.{
  Json, null, bool, num, str, arr, obj, Members, JsonCodec, Parsed, value, syntax_error,
}
use onetrackmind.Orchestration.Narrowing.{extract_string, to_record}
use onetrackmind.Comms.Effects.{LogLine, log_line, Level}
use onetrackmind.Orchestration.Session.State.{
  MessageRole, user, assistant, FlagType, Message, ActiveFlag, SessionState, flag_type_text,
  flag_types, literal_of,
}
use onetrackmind.Orchestration.Session.Cache.{extract_literal}
use onetrackmind.Orchestration.Session.Store.{
  SessionLogEntry, SessionDb, SessionWorld, write_line, select_entries, Faults,
  SessionPersistenceError, read_error, replay_error, invalid_payload, persistence_error,
}
use onetrackmind.Orchestration.Session.Log.{
  EntryType, session_open, user_message, assistant_response, flag_raised, flag_acknowledged,
  approval_decision, route_result, session_close, entry_type_text, entry_types,
  current_schema_version,
}

-- `ORDER BY timestamp ASC`. SQL leaves the order of equal timestamps open; here they stay in the order
-- of insertion.
unfoldable pub insert_row : SessionLogEntry → List SessionLogEntry → List SessionLogEntry
insert_row row [] = row ∷ []
insert_row row (next ∷ rest) =
    let later = insert_row row rest in
    if text_le row.timestamp next.timestamp then row ∷ next ∷ rest else next ∷ later

unfoldable pub by_timestamp : List SessionLogEntry → List SessionLogEntry
unfolding insert_row
by_timestamp [] = []
by_timestamp (row ∷ rows) = insert_row row (by_timestamp rows)

unfoldable pub of_session : Text → List SessionLogEntry → List SessionLogEntry
of_session session_id [] = []
of_session session_id (row ∷ rows) =
    let rest = of_session session_id rows in
    if row.session_id == session_id then row ∷ rest else rest

-- `WHERE session_id = ? ORDER BY timestamp ASC`
abbrev pub entries_of : Text → SessionDb → List SessionLogEntry
entries_of session_id db = by_timestamp (of_session session_id db.session_log)

abbrev pub empty_state : (session_id user_id : Text) → SessionState
empty_state session_id user_id = record {
  session_id = session_id;
  user_id = user_id;
  edition_id = [];
  opened_at = [];
  last_interaction_at = [];
  conversation_history = [];
  active_flags = [];
  open_items = [];
  consist_context = none;
  is_from_log_replay = true;
}

abbrev pub replay_failure : Text → Text → SessionPersistenceError
replay_failure session_id message =
    persistence_error message session_id (text "replaySessionLog") invalid_payload

abbrev shape_of : Json → Text
shape_of null = text "null"
shape_of (arr vs) = text "array"
shape_of (bool b) = text "boolean"
shape_of (num n) = text "number"
shape_of (str s) = text "string"
shape_of (obj ms) = text "object"

abbrev pub touched : Text → SessionState → SessionState
touched timestamp st = record st { last_interaction_at = timestamp }

abbrev pub said : MessageRole → Text → Text → SessionState → SessionState
said role content timestamp st = record st {
  conversation_history =
      st.conversation_history
      ++ record { role = role; content = content; timestamp = some timestamp } ∷ [];
  last_interaction_at = timestamp;
}

-- `activeFlags.find(...)`, and `flag.acknowledged = true`
unfoldable pub acknowledge_first : Text → List ActiveFlag → List ActiveFlag
acknowledge_first flag_id [] = []
acknowledge_first flag_id (flag ∷ flags) =
    let rest = acknowledge_first flag_id flags in
    if flag.flag_id == flag_id then record flag { acknowledged = true } ∷ flags else flag ∷ rest

abbrev pub raised : Text → FlagType → Text → Text → ActiveFlag
raised flag_id flag_type content timestamp = record {
  flag_id = flag_id;
  flag_type = flag_type;
  content = content;
  raised_at = timestamp;
  acknowledged = false;
}

module _ (session_id : Text) (row : SessionLogEntry) where
  unfoldable pub require_string : Members → Text → Throws SessionPersistenceError Text
  require_string ms key = elim (extract_string ms key) [
    | some s ↦ returns s
    | none ↦ throws (
        replay_failure session_id
          (text "Missing or non-string field '" ++ (key ++ (text "' in entryId=" ++ row.entry_id))))
  ]

  unfoldable pub require_flag_type : Members → Throws SessionPersistenceError FlagType
  require_flag_type ms = elim (extract_literal flag_type_text flag_types ms (text "type")) [
    | some t ↦ returns t
    | none ↦ throws (
        replay_failure session_id
          (text "Missing or invalid 'type' field in entryId=" ++ row.entry_id))
  ]

  -- The switch over the type of the entry.
  unfoldable pub apply_type :
      Option EntryType → Members → SessionState → Throws SessionPersistenceError SessionState
  unfolding require_string require_flag_type acknowledge_first
  apply_type (some session_open) ms st = do
    opened_at ← require_string ms (text "openedAt")
    edition_id ← require_string ms (text "editionId")
    returns (record st {
      edition_id = edition_id;
      opened_at = opened_at;
      last_interaction_at = opened_at;
    })
  apply_type (some user_message) ms st = do
    content ← require_string ms (text "content")
    returns (said user content row.timestamp st)
  apply_type (some assistant_response) ms st = do
    content ← require_string ms (text "content")
    returns (said assistant content row.timestamp st)
  apply_type (some flag_raised) ms st = do
    flag_id ← require_string ms (text "flagId")
    flag_type ← require_flag_type ms
    content ← require_string ms (text "content")
    returns (record st {
      active_flags = st.active_flags ++ raised flag_id flag_type content row.timestamp ∷ [];
    })
  apply_type (some flag_acknowledged) ms st = do
    flag_id ← require_string ms (text "flagId")
    returns (record st { active_flags = acknowledge_first flag_id st.active_flags })
  apply_type (some approval_decision) ms st = returns (touched row.timestamp st)
  apply_type (some route_result) ms st = returns (touched row.timestamp st)
  apply_type (some session_close) ms st = returns (touched row.timestamp st)
  apply_type none ms st = returns st

-- The type of an entry, where it is one of the eight.
abbrev pub type_of : SessionLogEntry → Option EntryType
type_of row = literal_of entry_type_text entry_types row.entry_type

abbrev pub unrecognized_version : SessionLogEntry → LogLine
unrecognized_version row =
    log_line Level.warn (text "skipping entry with unrecognized schemaVersion") (
      (text "entryId", row.entry_id)
      ∷ (text "schemaVersion", decimal row.schema_version)
      ∷ (text "current", decimal current_schema_version)
      ∷ [])

abbrev pub type_lines : SessionLogEntry → Option EntryType → List LogLine
type_lines row (some t) = []
type_lines row none =
    log_line Level.warn (text "unrecognized entryType") ((text "entryType", row.entry_type) ∷ [])
    ∷ []

module _ (codec : JsonCodec) (session_id : Text) where
  -- An entry of the current version.
  unfoldable pub apply_payload :
      SessionLogEntry → SessionState → Throws SessionPersistenceError SessionState
  unfolding apply_type
  apply_payload row st = elim (codec.parse row.payload) [
    | syntax_error message ↦ throws (
        replay_failure session_id
          (text "Unparseable payload entryId=" ++ (row.entry_id ++ (text ": " ++ message))))
    | value v ↦ elim (to_record v) [
      | none ↦ throws (
          replay_failure session_id
            (text "Non-object payload entryId=" ++ (row.entry_id ++ (text ": got " ++ shape_of v))))
      | some ms ↦ apply_type session_id row (type_of row) ms st
    ]
  ]

  -- The loop over the rows, with the lines that it logs.
  unfoldable pub replay_rows :
      List SessionLogEntry
      → SessionState
      → List LogLine
      → Throws SessionPersistenceError SessionState × List LogLine
  unfolding apply_payload
  replay_rows [] st lines = (returns st, lines)
  replay_rows (row ∷ rows) st lines = elim (nat_beq row.schema_version current_schema_version) [
    | false ↦ replay_rows rows st (lines ++ unrecognized_version row ∷ [])
    | true ↦ elim (apply_payload row st) [
      | throws e ↦ (throws e, lines)
      | returns next ↦ replay_rows rows next (lines ++ type_lines row (type_of row))
    ]
  ]

  unfoldable pub replay_session_log :
      Faults
      → (user_id : Text) → SessionWorld
      → Throws SessionPersistenceError SessionState × SessionWorld
  unfolding replay_rows by_timestamp of_session
  replay_session_log fault user_id w = elim (fault select_entries) [
    | some e ↦ (
      throws (
          persistence_error (text "Log read failed: " ++ error_message_of e) session_id
            (text "replaySessionLog") read_error),
      w,
    )
    | none ↦ elim (entries_of session_id w.db) [
      | [] ↦ (
        throws (
            persistence_error (text "No log entries found for sessionId=" ++ session_id) session_id
              (text "replaySessionLog") replay_error),
        w,
      )
      | row ∷ rows ↦
          let (result, lines) = replay_rows (row ∷ rows) (empty_state session_id user_id) w.lines in
          (result, record w { lines = lines })
    ]
  ]
