-- ===== src/Orchestration/EventClassifier/Input.antt =====
-- What the classifier is given and what it makes.
use onetrackmind.Common.{Option, Text, text}
use onetrackmind.Db.Serializers.{Members}

pub data ClassificationSource : Type 0 where
  app email sms internal lifecycle : ClassificationSource

pub data EventType : Type 0 where
  user_message inbound_sms inbound_email system_trigger session_lifecycle : EventType

abbrev pub source_text : ClassificationSource → Text
source_text app = text "app"
source_text email = text "email"
source_text sms = text "sms"
source_text internal = text "internal"
source_text lifecycle = text "lifecycle"

abbrev pub event_type_text : EventType → Text
event_type_text user_message = text "user_message"
event_type_text inbound_sms = text "inbound_sms"
event_type_text inbound_email = text "inbound_email"
event_type_text system_trigger = text "system_trigger"
event_type_text session_lifecycle = text "session_lifecycle"

pub record NormalizedEmailNotification : Type 0 where
  pub message_id : Text
  pub thread_id : Option Text
  pub email_address : Text
  pub provider : Text

pub record InternalPayload : Type 0 where
  pub trigger_type : Text
  pub data_fields : Members

-- `headers` is carried through by the caller and read by nothing here.
pub record RawInput : Type 0 where
  pub source : ClassificationSource
  pub request_id : Text
  pub session_id : Text
  pub user_id : Text
  pub body : Members
  pub normalized_email : Option NormalizedEmailNotification
  pub internal_payload : Option InternalPayload

pub record ClassificationError : Type 0 where
  pub message : Text
  pub request_id : Text
  pub source : Text

pub record EventMetadata : Type 0 where
  pub session_id : Text
  pub user_id : Text
  pub channel : Option Text
  pub sender : Option Text
  pub thread_id : Option Text
  pub email_provider : Option Text

pub record ProcessedEvent : Type 0 where
  pub event_type : EventType
  pub raw_content : Text
  pub metadata : EventMetadata
  pub timestamp : Text
