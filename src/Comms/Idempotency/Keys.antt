-- ===== src/Comms/Idempotency/Keys.antt =====
-- The statements of backend/src/comms/idempotencyChecker/index.ts on the `idempotency_keys` table,
-- over the list of its rows in the order of insertion. Of two violated constraints the primary key
-- is reported first.
pub mod Laws
use onetrackmind.Common.{
  Bool, ◌&&◌, ◌||◌, not, List, [], ◌∷◌, ◌++◌, Option, none, some, Text, text, text_le, Text-Eq,
  ◌==◌, some_of, if◌then◌else◌,
}
use onetrackmind.Common.Results.{Thrown, Throws, returns, throws, sqlite_error}
use onetrackmind.Db.Vocabulary.{
  CommsProvider, CommsProvider-Eq, IdempotencyKeyType, content_hash, key_type_beq,
}
use onetrackmind.Db.Mapping.CommsLog.{CommsLogRow}
use onetrackmind.Db.Mapping.IdempotencyKeys.{IdempotencyKeyRow}
use onetrackmind.Comms.Effects.{has_message}

-- `id, linked_message_id`
pub record DuplicateRow : Type 0 where
  pub id : Text
  pub linked_message_id : Option Text

abbrev pub duplicate_row : IdempotencyKeyRow → DuplicateRow
duplicate_row row = record { id = row.id; linked_message_id = row.linked_message_id }

-- Is the row in the partial index, under this key?
abbrev pub is_provider_key : CommsProvider → Text → IdempotencyKeyRow → Bool
is_provider_key provider value row =
    key_type_beq row.key_type IdempotencyKeyType.provider_id
    && (row.provider == provider && row.key_value == value)

abbrev pub id_taken : Text → List IdempotencyKeyRow → Bool
id_taken id rows = some_of (λ row. row.id == id) rows

unfoldable pub id_conflict : Thrown
id_conflict = sqlite_error (text "UNIQUE constraint failed: idempotency_keys.id")

unfoldable pub key_conflict : Thrown
key_conflict =
    sqlite_error
      (text "UNIQUE constraint failed: idempotency_keys.provider, idempotency_keys.key_value")

unfoldable pub link_conflict : Thrown
link_conflict = sqlite_error (text "FOREIGN KEY constraint failed")

-- Does the row violate the partial UNIQUE?
abbrev conflicts : IdempotencyKeyRow → List IdempotencyKeyRow → Bool
conflicts row rows =
    key_type_beq row.key_type IdempotencyKeyType.provider_id
    && some_of (is_provider_key row.provider row.key_value) rows

-- SQL_PROVIDER_ID_GATE: the id returned, and the table after.
unfoldable pub sql_provider_id_gate :
    IdempotencyKeyRow
    → List IdempotencyKeyRow
    → Throws Thrown (Option Text × List IdempotencyKeyRow)
sql_provider_id_gate row rows =
    if id_taken row.id rows
    then throws id_conflict
    else if conflicts row rows
    then returns (none, rows)
    else returns (some row.id, rows ++ row ∷ [])

-- SQL_PROVIDER_ID_DUPLICATE
unfoldable pub sql_provider_id_duplicate :
    CommsProvider → Text → List IdempotencyKeyRow → Option DuplicateRow
sql_provider_id_duplicate provider value [] = none
sql_provider_id_duplicate provider value (row ∷ rows) =
    if is_provider_key provider value row
    then some (duplicate_row row)
    else sql_provider_id_duplicate provider value rows

-- The WHERE of SQL_CONTENT_HASH_WINDOW.
abbrev pub is_in_window : Text → Text → Text → IdempotencyKeyRow → Bool
is_in_window value low high row =
    key_type_beq row.key_type content_hash
    && (row.key_value == value && (text_le low row.first_seen_at && text_le row.first_seen_at high))

-- ORDER BY first_seen_at DESC, id: does the first row come before the second?
abbrev pub comes_first : IdempotencyKeyRow → IdempotencyKeyRow → Bool
comes_first a b =
    not (text_le a.first_seen_at b.first_seen_at)
    || (a.first_seen_at == b.first_seen_at && text_le a.id b.id)

abbrev pub first_of_two : IdempotencyKeyRow → Option IdempotencyKeyRow → IdempotencyKeyRow
first_of_two row none = row
first_of_two row (some best) = if comes_first row best then row else best

unfoldable pub best_in_window :
    Text → Text → Text → List IdempotencyKeyRow → Option IdempotencyKeyRow
best_in_window value low high [] = none
best_in_window value low high (row ∷ rows) =
    let best = best_in_window value low high rows in
    if is_in_window value low high row then some (first_of_two row best) else best

abbrev pub as_duplicate : Option IdempotencyKeyRow → Option DuplicateRow
as_duplicate none = none
as_duplicate (some row) = some (duplicate_row row)

-- SQL_CONTENT_HASH_WINDOW, with its LIMIT 1.
unfoldable pub sql_content_hash_window :
    Text → Text → Text → List IdempotencyKeyRow → Option DuplicateRow
unfolding best_in_window
sql_content_hash_window value low high rows = as_duplicate (best_in_window value low high rows)

-- SQL_CONTENT_HASH_INSERT
unfoldable pub sql_content_hash_insert :
    IdempotencyKeyRow → List IdempotencyKeyRow → Throws Thrown (List IdempotencyKeyRow)
sql_content_hash_insert row rows =
    if id_taken row.id rows
    then throws id_conflict
    else if conflicts row rows
    then throws key_conflict
    else returns (rows ++ row ∷ [])

unfoldable pub set_link : Text → Text → List IdempotencyKeyRow → List IdempotencyKeyRow
set_link message_id id [] = []
set_link message_id id (row ∷ rows) =
    (if row.id == id then record row { linked_message_id = some message_id } else row)
    ∷ set_link message_id id rows

-- SQL_LINK: the foreign key is checked when a row is updated.
unfoldable pub sql_link :
    Text
    → Text
    → List CommsLogRow
    → List IdempotencyKeyRow
    → Throws Thrown (Option Text × List IdempotencyKeyRow)
unfolding set_link
sql_link message_id id messages rows =
    if not (id_taken id rows)
    then returns (none, rows)
    else if not (has_message message_id messages)
    then throws link_conflict
    else returns (some id, set_link message_id id rows)
