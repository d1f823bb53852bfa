-- ===== src/Orchestration/Session/Cache.antt =====
-- backend/src/orchestration/sessionPersistence.ts: the column `state_json`, written by
-- `JSON.stringify(state)` and read back by `parseCachedState`.
pub mod RoundTrip
use onetrackmind.Common.{Bool, List, [], ◌∷◌, ◌++◌, Option, none, some, Text, text, Text-Eq, map}
use onetrackmind.Common.Options.{◌>>=◌}
use onetrackmind.Db.Serializers.{
  Json, null, bool, num, str, arr, obj, Members, end, member, items, Parsed, value, syntax_error,
  JsonCodec,
}
use onetrackmind.Orchestration.Narrowing.{
  field, extract_string, extract_number, extract_array, extract_boolean, extract_one_of, to_record,
}
use onetrackmind.Orchestration.Session.State.{
  MessageRole, FlagType, ItemCategory, Message, ActiveFlag, OpenItem, MachineRef, ConsistContext,
  SessionState, role_text, flag_type_text, category_text, message_roles, flag_types,
  item_categories, literal_of,
}

-- `extractOneOf`, and the member of the union that its result is.
unfoldable pub extract_literal : {A : Type 0} → (A → Text) → List A → Members → Text → Option A
unfolding extract_one_of literal_of
extract_literal as_text literals ms key =
    extract_one_of ms key (map as_text literals) >>= literal_of as_text literals

unfoldable pub parse_all : {A : Type 0} → (Json → Option A) → List Json → Option (List A)
parse_all parse [] = some []
parse_all parse (v ∷ vs) = do a ← parse v; rest ← parse_all parse vs; some (a ∷ rest)

unfoldable parse_message : Json → Option Message
unfolding to_record extract_literal extract_string
parse_message v = do
  ms ← to_record v
  role ← extract_literal role_text message_roles ms (text "role")
  content ← extract_string ms (text "content")
  some (record { role = role; content = content; timestamp = extract_string ms (text "timestamp") })

unfoldable parse_active_flag : Json → Option ActiveFlag
unfolding to_record extract_literal extract_string extract_boolean
parse_active_flag v = do
  ms ← to_record v
  flag_id ← extract_string ms (text "flagId")
  flag_type ← extract_literal flag_type_text flag_types ms (text "type")
  content ← extract_string ms (text "content")
  raised_at ← extract_string ms (text "raisedAt")
  acknowledged ← extract_boolean ms (text "acknowledged")
  some (record {
    flag_id = flag_id;
    flag_type = flag_type;
    content = content;
    raised_at = raised_at;
    acknowledged = acknowledged;
  })

unfoldable parse_open_item : Json → Option OpenItem
unfolding to_record extract_literal extract_string extract_number extract_boolean
parse_open_item v = do
  ms ← to_record v
  item_id ← extract_string ms (text "itemId")
  category ← extract_literal category_text item_categories ms (text "category")
  content ← extract_string ms (text "content")
  priority ← extract_number ms (text "priority")
  is_push ← extract_boolean ms (text "isPush")
  some (record {
    item_id = item_id;
    category = category;
    content = content;
    priority = priority;
    is_push = is_push;
  })

unfoldable parse_machine_ref : Json → Option MachineRef
unfolding to_record extract_string extract_number
parse_machine_ref v = do
  ms ← to_record v
  position ← extract_number ms (text "position")
  name ← extract_string ms (text "name")
  some (record {
    position = position;
    name = name;
    serial_number = extract_string ms (text "serialNumber");
  })

-- The outer `none` is `undefined`, the inner one `null`.
unfoldable parse_consist_context : Json → Option (Option ConsistContext)
unfolding to_record extract_string extract_array parse_all parse_machine_ref
parse_consist_context null = some none
parse_consist_context v = do
  ms ← to_record v
  consist_id ← extract_string ms (text "consistId")
  machines ← extract_array ms (text "relevantMachines") >>= parse_all parse_machine_ref
  some (some (record { consist_id = consist_id; relevant_machines = machines }))

unfoldable state_of : Members → Option SessionState
unfolding field extract_string extract_array extract_boolean parse_all parse_message
    parse_active_flag parse_open_item parse_consist_context
state_of ms = do
  session_id ← extract_string ms (text "sessionId")
  user_id ← extract_string ms (text "userId")
  edition_id ← extract_string ms (text "editionId")
  opened_at ← extract_string ms (text "openedAt")
  last_interaction_at ← extract_string ms (text "lastInteractionAt")
  history ← extract_array ms (text "conversationHistory") >>= parse_all parse_message
  flags ← extract_array ms (text "activeFlags") >>= parse_all parse_active_flag
  open_items ← extract_array ms (text "openItems") >>= parse_all parse_open_item
  consist_context ← field ms (text "consistContext") >>= parse_consist_context
  is_from_log_replay ← extract_boolean ms (text "isFromLogReplay")
  some (record {
    session_id = session_id;
    user_id = user_id;
    edition_id = edition_id;
    opened_at = opened_at;
    last_interaction_at = last_interaction_at;
    conversation_history = history;
    active_flags = flags;
    open_items = open_items;
    consist_context = consist_context;
    is_from_log_replay = is_from_log_replay;
  })

abbrev parsed_state : Parsed → Option SessionState
parsed_state (syntax_error message) = none
parsed_state (value v) = to_record v >>= state_of

unfoldable pub parse_cached_state : JsonCodec → Text → Option SessionState
unfolding to_record state_of
parse_cached_state codec state_json = parsed_state (codec.parse state_json)

-- The members of an object, where a key may be left out.
abbrev pub members : List (Text × Json) → Members
members [] = end
members ((key, v) ∷ rest) = member key v (members rest)

abbrev optional_member : Text → Option Text → List (Text × Json)
optional_member key none = []
optional_member key (some s) = (key, str s) ∷ []

unfoldable message_json : Message → Json
message_json m = obj (
    members (
      (text "role", str (role_text m.role))
      ∷ (text "content", str m.content)
      ∷ optional_member (text "timestamp") m.timestamp))

unfoldable flag_json : ActiveFlag → Json
flag_json f = obj (
    members (
      (text "flagId", str f.flag_id)
      ∷ (text "type", str (flag_type_text f.flag_type))
      ∷ (text "content", str f.content)
      ∷ (text "raisedAt", str f.raised_at)
      ∷ (text "acknowledged", bool f.acknowledged)
      ∷ []))

unfoldable item_json : OpenItem → Json
item_json i = obj (
    members (
      (text "itemId", str i.item_id)
      ∷ (text "category", str (category_text i.category))
      ∷ (text "content", str i.content)
      ∷ (text "priority", num i.priority)
      ∷ (text "isPush", bool i.is_push)
      ∷ []))

unfoldable machine_json : MachineRef → Json
machine_json m = obj (
    members (
      (text "position", num m.position)
      ∷ (text "name", str m.name)
      ∷ optional_member (text "serialNumber") m.serial_number))

unfoldable consist_json : Option ConsistContext → Json
unfolding machine_json
consist_json none = null
consist_json (some c) = obj (
    members (
      (text "consistId", str c.consist_id)
      ∷ (text "relevantMachines", arr (items (map machine_json c.relevant_machines)))
      ∷ []))

-- The value that `JSON.stringify(state)` writes.
unfoldable pub state_value : SessionState → Json
unfolding message_json flag_json item_json consist_json
state_value st = obj (
    members (
      (text "sessionId", str st.session_id)
      ∷ (text "userId", str st.user_id)
      ∷ (text "editionId", str st.edition_id)
      ∷ (text "openedAt", str st.opened_at)
      ∷ (text "lastInteractionAt", str st.last_interaction_at)
      ∷ (text "conversationHistory", arr (items (map message_json st.conversation_history)))
      ∷ (text "activeFlags", arr (items (map flag_json st.active_flags)))
      ∷ (text "openItems", arr (items (map item_json st.open_items)))
      ∷ (text "consistContext", consist_json st.consist_context)
      ∷ (text "isFromLogReplay", bool st.is_from_log_replay)
      ∷ []))
