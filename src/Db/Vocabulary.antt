-- ===== src/Db/Vocabulary.antt =====
-- The vocabulary of the communications schema: backend/src/db/schemaConstants.ts. A union of
-- literals is a data type; a value outside the union is not representable.
use onetrackmind.Common.{Bool, true, false, List, [], ◌∷◌, Text, text, arith, Eq, ◌≡◌, ◌↔◌}

pub data BackendTable : Type 0 where
  comms_log contacts idempotency_keys thread_mappings polling_state : BackendTable

pub data DeviceTable : Type 0 where
  device_comms_log device_contacts : DeviceTable

pub data TableName : Type 0 where
  backend : BackendTable → TableName
  device : DeviceTable → TableName

pub data CommsProvider : Type 0 where
  outlook yahoo twilio : CommsProvider

pub data CommsChannel : Type 0 where
  email sms : CommsChannel

pub data CommsDirection : Type 0 where
  inbound outbound : CommsDirection

pub data IdempotencyProvenance : Type 0 where
  provider_id content_hash_fallback : IdempotencyProvenance

pub data TriageLabel : Type 0 where
  action_required data_to_log awareness_only unknown_sender unclear_review : TriageLabel

pub data TimeSensitivity : Type 0 where
  hard soft none : TimeSensitivity

pub data DeliveryState : Type 0 where
  queued sent delivered failed fallback_used : DeliveryState

pub data FallbackLeg : Type 0 where
  sms fcm email : FallbackLeg

pub data UserAction : Type 0 where
  requested_draft_reply marked_informational dismissed none : UserAction

pub data ContactStatus : Type 0 where
  active dismissed archived : ContactStatus

pub data IdempotencyKeyType : Type 0 where
  provider_id content_hash : IdempotencyKeyType

pub data ThreadIdentifierType : Type 0 where
  rfc5322_message_id provider_conversation_id phone_pair : ThreadIdentifierType

pub data PollingProvider : Type 0 where
  yahoo : PollingProvider

-- `0 | 1`
pub data Bool01 : Type 0 where
  zero one : Bool01

unfoldable pub device_mirrors : DeviceTable → BackendTable
device_mirrors device_comms_log = comms_log
device_mirrors device_contacts = contacts

unfoldable pub device_writable_columns : DeviceTable → List Text
device_writable_columns device_comms_log =
    text "user_acknowledged_at" ∷ text "user_action_taken" ∷ []
device_writable_columns device_contacts = []

unfoldable pub is_device_table : TableName → Bool
is_device_table (backend t) = false
is_device_table (device t) = true

unfoldable pub mirror_base : TableName → BackendTable
mirror_base (backend t) = t
mirror_base (device t) = device_mirrors t

abbrev pub provider_beq : CommsProvider → CommsProvider → Bool
provider_beq outlook outlook = true
provider_beq CommsProvider.yahoo CommsProvider.yahoo = true
provider_beq twilio twilio = true
provider_beq _ _ = false

pub provider_beq_iff : (a b : CommsProvider) → (provider_beq a b ≡ true) ↔ (a ≡ b)
provider_beq_iff a b = ground arith

instance abbrev pub CommsProvider-Eq : Eq CommsProvider
CommsProvider-Eq = record { beq = provider_beq; reflects = provider_beq_iff }

abbrev pub key_type_beq : IdempotencyKeyType → IdempotencyKeyType → Bool
key_type_beq IdempotencyKeyType.provider_id IdempotencyKeyType.provider_id = true
key_type_beq content_hash content_hash = true
key_type_beq _ _ = false

-- The literals as they stand in log fields.
unfoldable pub provider_text : CommsProvider → Text
provider_text outlook = text "outlook"
provider_text CommsProvider.yahoo = text "yahoo"
provider_text twilio = text "twilio"

unfoldable pub provenance_text : IdempotencyProvenance → Text
provenance_text IdempotencyProvenance.provider_id = text "provider_id"
provenance_text content_hash_fallback = text "content_hash_fallback"

unfoldable pub key_type_text : IdempotencyKeyType → Text
key_type_text IdempotencyKeyType.provider_id = text "provider_id"
key_type_text content_hash = text "content_hash"

unfoldable pub channel_text : CommsChannel → Text
channel_text CommsChannel.email = text "email"
channel_text CommsChannel.sms = text "sms"

unfoldable pub direction_text : CommsDirection → Text
direction_text inbound = text "inbound"
direction_text outbound = text "outbound"
