-- ===== src/Orchestration/Session/State.antt =====
-- backend/src/orchestration/types.ts: the state of a session.
use onetrackmind.Common.{
  Bool, List, [], ◌∷◌, Option, none, some, Text, text, Text-Eq, ◌==◌, if◌then◌else◌,
}

pub data MessageRole : Type 0 where
  user assistant : MessageRole

pub data FlagType : Type 0 where
  safety push pull audit : FlagType

pub data ItemCategory : Type 0 where
  safety machine parts compliance contact : ItemCategory

pub record Message : Type 0 where
  pub role : MessageRole
  pub content : Text
  pub timestamp : Option Text

pub record ActiveFlag : Type 0 where
  pub flag_id : Text
  pub flag_type : FlagType
  pub content : Text
  pub raised_at : Text
  pub acknowledged : Bool

-- A number is kept as its literal.
pub record OpenItem : Type 0 where
  pub item_id : Text
  pub category : ItemCategory
  pub content : Text
  pub priority : Text
  pub is_push : Bool

pub record MachineRef : Type 0 where
  pub position : Text
  pub name : Text
  pub serial_number : Option Text

pub record ConsistContext : Type 0 where
  pub consist_id : Text
  pub relevant_machines : List MachineRef

pub record SessionState : Type 0 where
  pub session_id : Text
  pub user_id : Text
  pub edition_id : Text
  pub opened_at : Text
  pub last_interaction_at : Text
  pub conversation_history : List Message
  pub active_flags : List ActiveFlag
  pub open_items : List OpenItem
  pub consist_context : Option ConsistContext
  pub is_from_log_replay : Bool

abbrev pub role_text : MessageRole → Text
role_text user = text "user"
role_text assistant = text "assistant"

abbrev pub flag_type_text : FlagType → Text
flag_type_text safety = text "safety"
flag_type_text push = text "push"
flag_type_text pull = text "pull"
flag_type_text audit = text "audit"

abbrev pub category_text : ItemCategory → Text
category_text safety = text "safety"
category_text machine = text "machine"
category_text parts = text "parts"
category_text compliance = text "compliance"
category_text contact = text "contact"

-- MESSAGE_ROLES, FLAG_TYPES and ITEM_CATEGORIES
abbrev pub message_roles : List MessageRole
message_roles = user ∷ assistant ∷ []

abbrev pub flag_types : List FlagType
flag_types = FlagType.safety ∷ push ∷ pull ∷ audit ∷ []

abbrev pub item_categories : List ItemCategory
item_categories = ItemCategory.safety ∷ machine ∷ parts ∷ compliance ∷ contact ∷ []

-- The literal of a union that a text is.
unfoldable pub literal_of : {A : Type 0} → (A → Text) → List A → Text → Option A
literal_of as_text [] s = none
literal_of as_text (a ∷ rest) s = if as_text a == s then some a else literal_of as_text rest s
