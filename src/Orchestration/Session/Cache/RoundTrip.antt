-- ===== src/Orchestration/Session/Cache/RoundTrip.antt =====
-- What is written to the cache is read back.
use onetrackmind.Common.{
  Bool, List, [], ◌∷◌, Option, none, some, Text, text, text_eq, contains, map, ◌≡◌, refl,
}
use onetrackmind.Common.Options.{◌>>=◌}
use onetrackmind.Db.Serializers.{Json, JsonCodec, RoundTrips, elems-items}
use onetrackmind.Orchestration.Narrowing.{
  field, extract_string, extract_number, extract_array, extract_boolean, extract_one_of, to_record,
}
use onetrackmind.Orchestration.Session.State.{
  MessageRole, user, assistant, FlagType, push, pull, audit, ItemCategory, machine, parts,
  compliance, contact, Message, ActiveFlag, OpenItem, MachineRef, ConsistContext, SessionState,
  literal_of,
}
use onetrackmind.Orchestration.Session.Cache.{
  extract_literal, parse_all, parse_message, parse_active_flag, parse_open_item, parse_machine_ref,
  parse_consist_context, state_of, parse_cached_state, message_json, flag_json, item_json,
  machine_json, consist_json, state_value,
}

parse_all-map :
    {A : Type 0} (parse : Json → Option A) (as_json : A → Json)
    → ((a : A) → parse (as_json a) ≡ some a)
    → (xs : List A) → parse_all parse (map as_json xs) ≡ some xs
unfolding parse_all
parse_all-map parse as_json back [] = refl
parse_all-map parse as_json back (x ∷ xs) = rw (back x, parse_all-map parse as_json back xs)

-- A literal of a union is read back, beside any other members.
role-back :
    (r : MessageRole) (content : Text) (timestamp : Option Text)
    → let m : Message = record { role = r; content = content; timestamp = timestamp } in
      parse_message (message_json m) ≡ some m
unfolding text text_eq literal_of extract_literal extract_string extract_one_of field contains
    to_record parse_message message_json
role-back user content none = refl
role-back user content (some t) = refl
role-back assistant content none = refl
role-back assistant content (some t) = refl

flag-back :
    (t : FlagType) (flag_id content raised_at : Text) (acknowledged : Bool)
    → let f : ActiveFlag = record {
      flag_id = flag_id;
      flag_type = t;
      content = content;
      raised_at = raised_at;
      acknowledged = acknowledged;
    } in
      parse_active_flag (flag_json f) ≡ some f
unfolding text text_eq literal_of extract_literal extract_string extract_one_of field contains
    to_record extract_boolean parse_active_flag flag_json
flag-back FlagType.safety a b c d = refl
flag-back push a b c d = refl
flag-back pull a b c d = refl
flag-back audit a b c d = refl

item-back :
    (k : ItemCategory) (item_id content priority : Text) (is_push : Bool)
    → let i : OpenItem = record {
      item_id = item_id;
      category = k;
      content = content;
      priority = priority;
      is_push = is_push;
    } in
      parse_open_item (item_json i) ≡ some i
unfolding text text_eq literal_of extract_literal extract_string extract_one_of field contains
    to_record extract_boolean extract_number parse_open_item item_json
item-back ItemCategory.safety a b c d = refl
item-back machine a b c d = refl
item-back parts a b c d = refl
item-back compliance a b c d = refl
item-back contact a b c d = refl

machine-back :
    (position name : Text) (serial_number : Option Text)
    → let m : MachineRef = record {
      position = position;
      name = name;
      serial_number = serial_number;
    } in
      parse_machine_ref (machine_json m) ≡ some m
unfolding text text_eq literal_of extract_literal extract_string extract_one_of field contains
    to_record extract_number parse_machine_ref machine_json
machine-back position name none = refl
machine-back position name (some s) = refl

consist-back : (c : Option ConsistContext) → parse_consist_context (consist_json c) ≡ some c
unfolding text text_eq literal_of extract_literal extract_string extract_one_of field contains
    to_record extract_array parse_consist_context consist_json
consist-back none = refl
consist-back (some c) = rw (
  elems-items (map machine_json c.relevant_machines),
  parse_all-map parse_machine_ref machine_json (λ m. machine-back m.position m.name m.serial_number)
      c.relevant_machines,
)

state-back : (st : SessionState) → (to_record (state_value st) >>= state_of) ≡ some st
unfolding text text_eq literal_of extract_literal extract_string extract_one_of field contains
    to_record extract_array extract_boolean state_of state_value
state-back st = rw (
  elems-items (map message_json st.conversation_history),
  parse_all-map parse_message message_json (λ m. role-back m.role m.content m.timestamp)
      st.conversation_history,
  elems-items (map flag_json st.active_flags),
  parse_all-map parse_active_flag flag_json
      (λ f. flag-back f.flag_type f.flag_id f.content f.raised_at f.acknowledged) st.active_flags,
  elems-items (map item_json st.open_items),
  parse_all-map parse_open_item item_json
      (λ i. item-back i.category i.item_id i.content i.priority i.is_push) st.open_items,
  consist-back st.consist_context,
)

-- Every state that `updateStateObject` writes to the cache is read back by `parseCachedState` as it
-- was, if `JSON.parse` reads back what `JSON.stringify` wrote for it.
pub parse_cached_state-state_value :
    (codec : JsonCodec) (st : SessionState)
    → RoundTrips codec (state_value st)
    → parse_cached_state codec (codec.stringify (state_value st)) ≡ some st
unfolding parse_cached_state
parse_cached_state-state_value codec st h = rw h (state-back st)
