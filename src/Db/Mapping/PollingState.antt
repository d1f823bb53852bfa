-- ===== src/Db/Mapping/PollingState.antt =====
-- The row and domain shapes of `polling_state`, and their mapper: backend/src/db/mapping/pollingState.ts. Fields keep the
-- column names in both shapes.
use mathlib.Core.Option
use onetrackmind.Common.{Text, Option, Bool, none, some, text}
use onetrackmind.Db.Vocabulary.{Bool01, PollingProvider}
use onetrackmind.Db.Serializers.{
  MapResult, ok, bool_from_db, bool_to_db, timestamp_from_db, timestamp_to_db, JsonCodec, ◌>>=◌,
  Members, obj, json_to_db, json_object_from_db,
}

pub record PollingStateRow : Type 0 where
  pub id : Text
  pub provider : PollingProvider
  pub account_identifier : Text
  pub folder : Text
  pub cursor : Option Text
  pub last_polled_at : Option Text
  pub is_synced : Bool01

pub record PollingStateDomain : Type 0 where
  pub id : Text
  pub provider : PollingProvider
  pub account_identifier : Text
  pub folder : Text
  pub cursor : Option Members
  pub last_polled_at : Option Text
  pub is_synced : Bool

unfoldable pub cursor_from_db : JsonCodec → Option Text → MapResult (Option Members)
unfolding json_object_from_db
cursor_from_db codec none = ok none
cursor_from_db codec (some source) = do
  parsed ← json_object_from_db codec source (text "polling_state.cursor")
  ok (some parsed)

unfoldable pub cursor_to_db : JsonCodec → Option Members → Option Text
unfolding json_to_db
cursor_to_db codec none = none
cursor_to_db codec (some cursor) = some (json_to_db codec (obj cursor))

unfoldable pub polling_state_from_db : JsonCodec → PollingStateRow → MapResult PollingStateDomain
unfolding bool_from_db timestamp_from_db
polling_state_from_db codec row = do
  cursor ← cursor_from_db codec row.cursor
  ok (record {
    id = row.id;
    provider = row.provider;
    account_identifier = row.account_identifier;
    folder = row.folder;
    cursor = cursor;
    last_polled_at = Option.map timestamp_from_db row.last_polled_at;
    is_synced = bool_from_db row.is_synced;
  })

unfoldable pub polling_state_to_db : JsonCodec → PollingStateDomain → PollingStateRow
unfolding bool_to_db timestamp_to_db
polling_state_to_db codec domain = record {
  id = domain.id;
  provider = domain.provider;
  account_identifier = domain.account_identifier;
  folder = domain.folder;
  cursor = cursor_to_db codec domain.cursor;
  last_polled_at = Option.map timestamp_to_db domain.last_polled_at;
  is_synced = bool_to_db domain.is_synced;
}
