-- ===== src/Db/Mapping/CommsLog.antt =====
-- The row and domain shapes of `comms_log`, and their mapper: backend/src/db/mapping/commsLog.ts. Fields keep the
-- column names in both shapes.
use mathlib.Core.Option
use onetrackmind.Common.{Text, Option, Bool, List, text}
use onetrackmind.Db.Vocabulary.{
  Bool01, CommsChannel, CommsDirection, CommsProvider, DeliveryState, FallbackLeg,
  IdempotencyProvenance, TimeSensitivity, TriageLabel, UserAction,
}
use onetrackmind.Db.Serializers.{
  MapResult, ok, bool_from_db, bool_to_db, timestamp_from_db, timestamp_to_db, JsonCodec, ◌>>=◌,
  string_array, json_to_db, string_array_from_db,
}

pub record CommsLogRow : Type 0 where
  pub id : Text
  pub created_at : Text
  pub provider : CommsProvider
  pub channel : CommsChannel
  pub direction : CommsDirection
  pub provider_message_id : Option Text
  pub idempotency_provenance : IdempotencyProvenance
  pub content_hash : Text
  pub thread_key : Text
  pub from_identifier : Text
  pub to_identifiers : Text
  pub subject : Option Text
  pub body : Text
  pub provider_timestamp : Text
  pub contact_id : Option Text
  pub topic_tag : Option Text
  pub triage_label : TriageLabel
  pub time_sensitivity_flag : TimeSensitivity
  pub delivery_state : Option DeliveryState
  pub delivery_detail : Option Text
  pub fallback_leg_used : Option FallbackLeg
  pub is_synced : Bool01
  pub user_acknowledged_at : Option Text
  pub user_action_taken : Option UserAction

pub record CommsLogDomain : Type 0 where
  pub id : Text
  pub created_at : Text
  pub provider : CommsProvider
  pub channel : CommsChannel
  pub direction : CommsDirection
  pub provider_message_id : Option Text
  pub idempotency_provenance : IdempotencyProvenance
  pub content_hash : Text
  pub thread_key : Text
  pub from_identifier : Text
  pub to_identifiers : List Text
  pub subject : Option Text
  pub body : Text
  pub provider_timestamp : Text
  pub contact_id : Option Text
  pub topic_tag : Option Text
  pub triage_label : TriageLabel
  pub time_sensitivity_flag : TimeSensitivity
  pub delivery_state : Option DeliveryState
  pub delivery_detail : Option Text
  pub fallback_leg_used : Option FallbackLeg
  pub is_synced : Bool
  pub user_acknowledged_at : Option Text
  pub user_action_taken : Option UserAction

unfoldable pub comms_log_from_db : JsonCodec → CommsLogRow → MapResult CommsLogDomain
unfolding bool_from_db timestamp_from_db string_array_from_db
comms_log_from_db codec row = do
  to_identifiers ← string_array_from_db codec row.to_identifiers (text "comms_log.to_identifiers")
  ok (record {
    id = row.id;
    created_at = timestamp_from_db row.created_at;
    provider = row.provider;
    channel = row.channel;
    direction = row.direction;
    provider_message_id = row.provider_message_id;
    idempotency_provenance = row.idempotency_provenance;
    content_hash = row.content_hash;
    thread_key = row.thread_key;
    from_identifier = row.from_identifier;
    to_identifiers = to_identifiers;
    subject = row.subject;
    body = row.body;
    provider_timestamp = timestamp_from_db row.provider_timestamp;
    contact_id = row.contact_id;
    topic_tag = row.topic_tag;
    triage_label = row.triage_label;
    time_sensitivity_flag = row.time_sensitivity_flag;
    delivery_state = row.delivery_state;
    delivery_detail = row.delivery_detail;
    fallback_leg_used = row.fallback_leg_used;
    is_synced = bool_from_db row.is_synced;
    user_acknowledged_at = Option.map timestamp_from_db row.user_acknowledged_at;
    user_action_taken = row.user_action_taken;
  })

unfoldable pub comms_log_to_db : JsonCodec → CommsLogDomain → CommsLogRow
unfolding bool_to_db timestamp_to_db json_to_db
comms_log_to_db codec domain = record {
  id = domain.id;
  created_at = timestamp_to_db domain.created_at;
  provider = domain.provider;
  channel = domain.channel;
  direction = domain.direction;
  provider_message_id = domain.provider_message_id;
  idempotency_provenance = domain.idempotency_provenance;
  content_hash = domain.content_hash;
  thread_key = domain.thread_key;
  from_identifier = domain.from_identifier;
  to_identifiers = json_to_db codec (string_array domain.to_identifiers);
  subject = domain.subject;
  body = domain.body;
  provider_timestamp = timestamp_to_db domain.provider_timestamp;
  contact_id = domain.contact_id;
  topic_tag = domain.topic_tag;
  triage_label = domain.triage_label;
  time_sensitivity_flag = domain.time_sensitivity_flag;
  delivery_state = domain.delivery_state;
  delivery_detail = domain.delivery_detail;
  fallback_leg_used = domain.fallback_leg_used;
  is_synced = bool_to_db domain.is_synced;
  user_acknowledged_at = Option.map timestamp_to_db domain.user_acknowledged_at;
  user_action_taken = domain.user_action_taken;
}
