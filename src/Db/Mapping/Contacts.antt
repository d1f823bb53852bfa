-- ===== src/Db/Mapping/Contacts.antt =====
-- The row and domain shapes of `contacts`, and their mapper: backend/src/db/mapping/contacts.ts.
-- Fields keep the column names in both shapes. An identifier is the parsed JSON value itself, with
-- whatever other keys it has; the tone level is a natural number.
use onetrackmind.Common.{ℕ, Bool, List, Text, text}
use onetrackmind.Db.Vocabulary.{Bool01, ContactStatus}
use onetrackmind.Db.Serializers.{
  Json, arr, obj, items, Members, JsonCodec, MapResult, ok, ◌>>=◌, string_array, bool_from_db,
  bool_to_db, timestamp_from_db, timestamp_to_db, json_to_db, string_array_from_db,
  json_object_from_db,
}
use onetrackmind.Db.Constraints.Identifiers.{parse_contact_identifiers}

pub record ContactRow : Type 0 where
  pub id : Text
  pub created_at : Text
  pub display_name : Text
  pub channels : Text
  pub identifiers : Text
  pub tone_level : ℕ
  pub status : ContactStatus
  pub is_internal_channel : Bool01
  pub recognition_metadata : Text
  pub is_synced : Bool01

pub record ContactDomain : Type 0 where
  pub id : Text
  pub created_at : Text
  pub display_name : Text
  pub channels : List Text
  pub identifiers : List Json
  pub tone_level : ℕ
  pub status : ContactStatus
  pub is_internal_channel : Bool
  pub recognition_metadata : Members
  pub is_synced : Bool

module _ (codec : JsonCodec) where
  unfoldable pub contacts_from_db : ContactRow → MapResult ContactDomain
  unfolding timestamp_from_db
  contacts_from_db row = do
    channels ← string_array_from_db codec row.channels (text "contacts.channels")
    identifiers ← parse_contact_identifiers codec row.identifiers
    recognition_metadata ←
        json_object_from_db codec row.recognition_metadata (text "contacts.recognition_metadata")
    ok (record {
      id = row.id;
      created_at = timestamp_from_db row.created_at;
      display_name = row.display_name;
      channels = channels;
      identifiers = identifiers;
      tone_level = row.tone_level;
      status = row.status;
      is_internal_channel = bool_from_db row.is_internal_channel;
      recognition_metadata = recognition_metadata;
      is_synced = bool_from_db row.is_synced;
    })

  unfoldable pub contacts_to_db : ContactDomain → ContactRow
  unfolding timestamp_to_db
  contacts_to_db domain = record {
    id = domain.id;
    created_at = timestamp_to_db domain.created_at;
    display_name = domain.display_name;
    channels = json_to_db codec (string_array domain.channels);
    identifiers = json_to_db codec (arr (items domain.identifiers));
    tone_level = domain.tone_level;
    status = domain.status;
    is_internal_channel = bool_to_db domain.is_internal_channel;
    recognition_metadata = json_to_db codec (obj domain.recognition_metadata);
    is_synced = bool_to_db domain.is_synced;
  }
