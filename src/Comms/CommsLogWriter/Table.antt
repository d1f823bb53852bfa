-- ===== src/Comms/CommsLogWriter/Table.antt =====
-- SQL_INSERT_COMMS_LOG of backend/src/comms/commsLogWriter/index.ts, with the constraints on
-- `comms_log` of backend/migrations/001_phase4_comms.sql that a typed row can still violate. The CHECKs
-- come first, then the primary key, then the partial UNIQUE, and the foreign key last.
pub mod Invariant
use onetrackmind.Common.{
  Bool, true, false, ◌&&◌, ◌||◌, not, List, [], ◌∷◌, ◌++◌, Option, none, some, Text, text, Text-Eq,
  ◌==◌, some_of, if◌then◌else◌,
}
use onetrackmind.Common.Results.{Thrown, Throws, returns, throws, sqlite_error}
use onetrackmind.Db.Vocabulary.{
  CommsProvider, CommsProvider-Eq, CommsDirection, DeliveryState, IdempotencyProvenance,
  content_hash_fallback,
}
use onetrackmind.Db.Mapping.CommsLog.{CommsLogRow}
use onetrackmind.Db.Mapping.Contacts.{ContactRow}
use onetrackmind.Comms.Effects.{has_message, has_contact}

-- CONSTRAINT "comms_log direction/delivery_state pairing"
abbrev pub is_paired : CommsDirection → Option DeliveryState → Bool
is_paired CommsDirection.inbound none = true
is_paired CommsDirection.outbound (some _) = true
is_paired _ _ = false

-- CONSTRAINT "comms_log provenance requires provider_message_id"
abbrev pub is_keyed : IdempotencyProvenance → Option Text → Bool
is_keyed content_hash_fallback id = true
is_keyed IdempotencyProvenance.provider_id (some _) = true
is_keyed IdempotencyProvenance.provider_id none = false

unfoldable pub pairing_failure : Thrown
pairing_failure =
    sqlite_error (text "CHECK constraint failed: comms_log direction/delivery_state pairing")

unfoldable pub provenance_failure : Thrown
provenance_failure =
    sqlite_error (text "CHECK constraint failed: comms_log provenance requires provider_message_id")

unfoldable pub message_id_conflict : Thrown
message_id_conflict = sqlite_error (text "UNIQUE constraint failed: comms_log.id")

unfoldable pub contact_conflict : Thrown
contact_conflict = sqlite_error (text "FOREIGN KEY constraint failed")

-- Is the row in the partial index, under this message id of the provider?
abbrev pub is_message : CommsProvider → Text → CommsLogRow → Bool
is_message provider id row = row.provider == provider && names row.provider_message_id
  where
    names : Option Text → Bool
    names none = false
    names (some other) = other == id

-- Does the table hold a message of the provider with this id? A NULL is outside the index.
abbrev pub is_known : CommsProvider → Option Text → List CommsLogRow → Bool
is_known provider none rows = false
is_known provider (some id) rows = some_of (is_message provider id) rows

-- The id returned, and the table after.
unfoldable pub sql_insert_comms_log :
    CommsLogRow
    → List ContactRow
    → List CommsLogRow
    → Throws Thrown (Option Text × List CommsLogRow)
sql_insert_comms_log row contacts rows =
    if not (is_paired row.direction row.delivery_state)
    then throws pairing_failure
    else if not (is_keyed row.idempotency_provenance row.provider_message_id)
    then throws provenance_failure
    else if has_message row.id rows
    then throws message_id_conflict
    else if is_known row.provider row.provider_message_id rows
    then returns (none, rows)
    else if not (has_contact row.contact_id contacts)
    then throws contact_conflict
    else returns (some row.id, rows ++ row ∷ [])
