-- ===== src/Db/Mapping/ThreadMappings.antt =====
-- The row and domain shapes of `thread_mappings`, and their mapper: backend/src/db/mapping/threadMappings.ts. Fields keep the
-- column names in both shapes.
use onetrackmind.Common.{Text, Bool}
use onetrackmind.Db.Vocabulary.{Bool01, CommsProvider, ThreadIdentifierType}
use onetrackmind.Db.Serializers.{
  MapResult, ok, bool_from_db, bool_to_db, timestamp_from_db, timestamp_to_db,
}

pub record ThreadMappingRow : Type 0 where
  pub id : Text
  pub identifier_type : ThreadIdentifierType
  pub identifier_value : Text
  pub provider : CommsProvider
  pub thread_key : Text
  pub created_at : Text
  pub is_synced : Bool01

pub record ThreadMappingDomain : Type 0 where
  pub id : Text
  pub identifier_type : ThreadIdentifierType
  pub identifier_value : Text
  pub provider : CommsProvider
  pub thread_key : Text
  pub created_at : Text
  pub is_synced : Bool

unfoldable pub thread_mappings_from_db : ThreadMappingRow → MapResult ThreadMappingDomain
unfolding bool_from_db timestamp_from_db
thread_mappings_from_db row = ok (record {
  id = row.id;
  identifier_type = row.identifier_type;
  identifier_value = row.identifier_value;
  provider = row.provider;
  thread_key = row.thread_key;
  created_at = timestamp_from_db row.created_at;
  is_synced = bool_from_db row.is_synced;
})

unfoldable pub thread_mappings_to_db : ThreadMappingDomain → ThreadMappingRow
unfolding bool_to_db timestamp_to_db
thread_mappings_to_db domain = record {
  id = domain.id;
  identifier_type = domain.identifier_type;
  identifier_value = domain.identifier_value;
  provider = domain.provider;
  thread_key = domain.thread_key;
  created_at = timestamp_to_db domain.created_at;
  is_synced = bool_to_db domain.is_synced;
}
