-- ===== src/Orchestration/Session/Replay/Events.antt =====
-- What the entries of a log say, and the state that they describe.
use onetrackmind.Common.{
  Bool, true, false, not, ◌&&◌, ◌||◌, List, [], ◌∷◌, Option, none, some, Text, Text-Eq, text, ◌==◌,
  nat_beq, contains,
}
use onetrackmind.Common.Options.{◌>>=◌}
use onetrackmind.Db.Serializers.{Members, JsonCodec, Parsed, value, syntax_error}
use onetrackmind.Orchestration.Narrowing.{extract_string, to_record}
use onetrackmind.Orchestration.Session.State.{
  MessageRole, user, assistant, Message, ActiveFlag, flag_type_text, flag_types,
}
use onetrackmind.Orchestration.Session.Cache.{extract_literal}
use onetrackmind.Orchestration.Session.Store.{SessionLogEntry}
use onetrackmind.Orchestration.Session.Log.{
  EntryType, session_open, user_message, assistant_response, flag_raised, flag_acknowledged,
  approval_decision, route_result, session_close, current_schema_version,
}
use onetrackmind.Orchestration.Session.Replay.{raised, type_of}

pub data Event : Type 0 where
  opened : (opened_at edition_id : Text) → Event
  message : Message → Event
  flag : ActiveFlag → Event
  acknowledgement : (flag_id : Text) → Event
  activity : (timestamp : Text) → Event
  nothing : Event

abbrev message_event : MessageRole → Members → Text → Option Event
message_event role ms timestamp = do
  content ← extract_string ms (text "content")
  some (message (record { role = role; content = content; timestamp = some timestamp }))

-- The event of an entry with a payload, unless a member is missing.
unfoldable pub event_at : Option EntryType → Members → Text → Option Event
event_at (some session_open) ms timestamp = do
  opened_at ← extract_string ms (text "openedAt")
  edition_id ← extract_string ms (text "editionId")
  some (opened opened_at edition_id)
event_at (some user_message) ms timestamp = message_event user ms timestamp
event_at (some assistant_response) ms timestamp = message_event assistant ms timestamp
event_at (some flag_raised) ms timestamp = do
  flag_id ← extract_string ms (text "flagId")
  flag_type ← extract_literal flag_type_text flag_types ms (text "type")
  content ← extract_string ms (text "content")
  some (flag (raised flag_id flag_type content timestamp))
event_at (some flag_acknowledged) ms timestamp = do
  flag_id ← extract_string ms (text "flagId")
  some (acknowledgement flag_id)
event_at (some approval_decision) ms timestamp = some (activity timestamp)
event_at (some route_result) ms timestamp = some (activity timestamp)
event_at (some session_close) ms timestamp = some (activity timestamp)
event_at none ms timestamp = some nothing

abbrev pub payload_of : Parsed → Option Members
payload_of (syntax_error detail) = none
payload_of (value v) = to_record v

unfoldable pub event_of : JsonCodec → SessionLogEntry → Option Event
unfolding event_at
event_of codec row = elim (nat_beq row.schema_version current_schema_version) [
  | false ↦ some nothing
  | true ↦ payload_of (codec.parse row.payload) >>= λ ms. event_at (type_of row) ms row.timestamp
]

-- The events of a log, if every entry of the current version can be read.
unfoldable pub events_of : JsonCodec → List SessionLogEntry → Option (List Event)
unfolding event_of
events_of codec [] = some []
events_of codec (row ∷ rows) = do
  event ← event_of codec row
  rest ← events_of codec rows
  some (event ∷ rest)

unfoldable pub messages : List Event → List Message
messages [] = []
messages (message m ∷ events) = m ∷ messages events
messages (_ ∷ events) = messages events

abbrev pub touch : Event → Option Text
touch (opened opened_at edition_id) = some opened_at
touch (message m) = m.timestamp
touch (flag f) = none
touch (acknowledgement flag_id) = none
touch (activity timestamp) = some timestamp
touch nothing = none

-- The last value, or the one before the events.
abbrev pub or_before {ℓ} : {A : Type ℓ} → Option A → Option A → Option A
or_before (some later) before = some later
or_before none before = before

unfoldable pub last_touch : List Event → Option Text
last_touch [] = none
last_touch (event ∷ events) = or_before (last_touch events) (touch event)

abbrev pub opening : Event → Option (Text × Text)
opening (opened opened_at edition_id) = some (opened_at, edition_id)
opening _ = none

unfoldable pub last_opening : List Event → Option (Text × Text)
last_opening [] = none
last_opening (event ∷ events) = or_before (last_opening events) (opening event)

unfoldable pub is_acknowledged : Text → List Event → Bool
is_acknowledged flag_id [] = false
is_acknowledged flag_id (acknowledgement other ∷ events) =
    flag_id == other || is_acknowledged flag_id events
is_acknowledged flag_id (_ ∷ events) = is_acknowledged flag_id events

abbrev pub acknowledged_by : List Text → List Event → ActiveFlag → ActiveFlag
acknowledged_by earlier events f = record f {
  acknowledged =
      f.acknowledged || (not (contains earlier f.flag_id) && is_acknowledged f.flag_id events);
}

-- The flags in the order in which they are raised. A flag is acknowledged if an acknowledgement of
-- its id follows and no flag of that id has been raised before it.
unfoldable pub flags_from : List Text → List Event → List ActiveFlag
unfolding is_acknowledged
flags_from earlier [] = []
flags_from earlier (flag f ∷ events) =
    acknowledged_by earlier events f ∷ flags_from (f.flag_id ∷ earlier) events
flags_from earlier (_ ∷ events) = flags_from earlier events
