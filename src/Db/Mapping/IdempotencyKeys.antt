-- ===== src/Db/Mapping/IdempotencyKeys.antt =====
-- The row and domain shapes of `idempotency_keys`, and their mapper: backend/src/db/mapping/idempotencyKeys.ts. Fields keep the
-- column names in both shapes.
use onetrackmind.Common.{Text, Option, Bool}
use onetrackmind.Db.Vocabulary.{Bool01, CommsProvider, IdempotencyKeyType}
use onetrackmind.Db.Serializers.{
  MapResult, ok, bool_from_db, bool_to_db, timestamp_from_db, timestamp_to_db,
}

pub record IdempotencyKeyRow : Type 0 where
  pub id : Text
  pub key_type : IdempotencyKeyType
  pub provider : CommsProvider
  pub key_value : Text
  pub first_seen_at : Text
  pub expires_at : Text
  pub linked_message_id : Option Text
  pub is_synced : Bool01

pub record IdempotencyKeyDomain : Type 0 where
  pub id : Text
  pub key_type : IdempotencyKeyType
  pub provider : CommsProvider
  pub key_value : Text
  pub first_seen_at : Text
  pub expires_at : Text
  pub linked_message_id : Option Text
  pub is_synced : Bool

unfoldable pub idempotency_keys_from_db : IdempotencyKeyRow → MapResult IdempotencyKeyDomain
unfolding bool_from_db timestamp_from_db
idempotency_keys_from_db row = ok (record {
  id = row.id;
  key_type = row.key_type;
  provider = row.provider;
  key_value = row.key_value;
  first_seen_at = timestamp_from_db row.first_seen_at;
  expires_at = timestamp_from_db row.expires_at;
  linked_message_id = row.linked_message_id;
  is_synced = bool_from_db row.is_synced;
})

unfoldable pub idempotency_keys_to_db : IdempotencyKeyDomain → IdempotencyKeyRow
unfolding bool_to_db timestamp_to_db
idempotency_keys_to_db domain = record {
  id = domain.id;
  key_type = domain.key_type;
  provider = domain.provider;
  key_value = domain.key_value;
  first_seen_at = timestamp_to_db domain.first_seen_at;
  expires_at = timestamp_to_db domain.expires_at;
  linked_message_id = domain.linked_message_id;
  is_synced = bool_to_db domain.is_synced;
}
