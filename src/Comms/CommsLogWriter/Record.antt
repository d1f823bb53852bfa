-- ===== src/Comms/CommsLogWriter/Record.antt =====
-- The input and the assembler: backend/src/comms/commsLogWriter/pure.ts. `now` is in milliseconds
-- since 1970. The `default` branch of the switch, which throws, is outside the input's type.
use onetrackmind.Common.{ℕ, false, List, Option, none, some, Text}
use onetrackmind.Runtime.Date.{to_iso_string}
use onetrackmind.Db.Vocabulary.{
  CommsChannel, CommsDirection, CommsProvider, DeliveryState, FallbackLeg, IdempotencyProvenance,
  TimeSensitivity, TriageLabel,
}
use onetrackmind.Db.Mapping.CommsLog.{CommsLogDomain}

pub record CommsLogWriteBase : Type 0 where
  pub provider : CommsProvider
  pub provider_message_id : Option Text
  pub channel : CommsChannel
  pub idempotency_provenance : IdempotencyProvenance
  pub content_hash : Text
  pub thread_key : Text
  pub from_identifier : Text
  pub to_identifiers : List Text
  pub subject : Option Text
  pub body : Text
  pub provider_timestamp : Option Text
  pub contact_id : Option Text
  pub topic_tag : Option Text
  pub triage_label : TriageLabel

pub data CommsLogWriteInput : Type 0 where
  inbound : CommsLogWriteBase → TimeSensitivity → CommsLogWriteInput
  outbound :
      CommsLogWriteBase
      → DeliveryState
      → (delivery_detail : Option Text) → Option FallbackLeg
      → CommsLogWriteInput

abbrev pub write_base : CommsLogWriteInput → CommsLogWriteBase
write_base (inbound base _) = base
write_base (outbound base _ _ _) = base

-- `??`
abbrev pub or_else : Option Text → Text → Text
or_else none fallback = fallback
or_else (some value) fallback = value

abbrev assembled :
    CommsLogWriteBase
    → (id : Text) → (created_at : Text) → CommsDirection
    → TimeSensitivity
    → Option DeliveryState
    → (delivery_detail : Option Text) → Option FallbackLeg
    → CommsLogDomain
assembled input id created_at direction flag state detail leg = record {
  id = id;
  created_at = created_at;
  provider = input.provider;
  channel = input.channel;
  direction = direction;
  provider_message_id = input.provider_message_id;
  idempotency_provenance = input.idempotency_provenance;
  content_hash = input.content_hash;
  thread_key = input.thread_key;
  from_identifier = input.from_identifier;
  to_identifiers = input.to_identifiers;
  subject = input.subject;
  body = input.body;
  provider_timestamp = or_else input.provider_timestamp created_at;
  contact_id = input.contact_id;
  topic_tag = input.topic_tag;
  triage_label = input.triage_label;
  time_sensitivity_flag = flag;
  delivery_state = state;
  delivery_detail = detail;
  fallback_leg_used = leg;
  is_synced = false;
  user_acknowledged_at = none;
  user_action_taken = none;
}

unfoldable pub assemble_comms_log_record :
    CommsLogWriteInput → (id : Text) → (now : ℕ) → CommsLogDomain
assemble_comms_log_record (inbound base flag) id now =
    assembled base id (to_iso_string now) CommsDirection.inbound flag none none none
assemble_comms_log_record (outbound base state detail leg) id now =
    assembled base id (to_iso_string now) CommsDirection.outbound TimeSensitivity.none (some state)
      detail leg
