-- ===== src/Orchestration/Session/Open.antt =====
-- backend/src/orchestration/sessionPersistence.ts: `openSession`. `retentionDays` is a whole number from
-- 0, as in the purge: for NaN and -Infinity, which are outside the model, the call throws a RangeError
-- after its entry is written.
pub mod Loaded
pub mod Safe
use onetrackmind.Common.{
  ℕ, Bool, true, false, List, [], ◌∷◌, ◌++◌, Option, none, some, Text, Text-Eq, text, ◌==◌,
  if◌then◌else◌,
}
use onetrackmind.Common.Results.{Thrown, Throws, returns, throws, error_message_of}
use onetrackmind.Runtime.Date.{to_iso_string}
use onetrackmind.Runtime.Decimal.{decimal}
use onetrackmind.Db.Serializers.{str, obj, JsonCodec}
use onetrackmind.Comms.Effects.{LogLine, log_line, Level}
use onetrackmind.Orchestration.Session.State.{SessionState}
use onetrackmind.Orchestration.Session.Cache.{members, parse_cached_state}
use onetrackmind.Orchestration.Session.Store.{
  StateRow, SessionDb, SessionWorld, write_line, select_state, Faults, SessionPersistenceError,
  PersistenceCause, write_error, read_error, replay_error, invalid_payload,
}
use onetrackmind.Orchestration.Session.Log.{NewEntry, session_open, write_log_entry}
use onetrackmind.Orchestration.Session.Replay.{replay_session_log}
use onetrackmind.Orchestration.Session.Purge.{PurgeResult, purge_expired_logs}

-- The clock at the fresh state, at the entry and at the purge, and the id of the entry.
pub record OpenInputs : Type 0 where
  pub entry_id : Text
  pub fresh_at : ℕ
  pub written_at : ℕ
  pub purged_at : ℕ

-- `SELECT state_json FROM session_states WHERE session_id = ?`
unfoldable pub state_row_of : Text → List StateRow → Option StateRow
state_row_of session_id [] = none
state_row_of session_id (row ∷ rows) =
    let rest = state_row_of session_id rows in
    if row.session_id == session_id then some row else rest

abbrev invalid_cache : Text → LogLine
invalid_cache session_id =
    log_line Level.warn (text "state cache row failed validation, falling back to replay")
      ((text "sessionId", session_id) ∷ [])

abbrev unread_cache : Text → Thrown → LogLine
unread_cache session_id e =
    log_line Level.warn (text "state cache read failed, falling back to replay")
      ((text "sessionId", session_id) ∷ (text "detail", error_message_of e) ∷ [])

abbrev pub from_cache : SessionState → SessionState
from_cache st = record st { is_from_log_replay = false }

-- The fast path.
unfoldable pub cached_state :
    JsonCodec → Faults → Text → SessionWorld → Option SessionState × SessionWorld
unfolding state_row_of
cached_state codec fault session_id w = elim (fault select_state) [
  | some e ↦ (none, write_line (unread_cache session_id e) w)
  | none ↦ elim (state_row_of session_id w.db.session_states) [
    | none ↦ (none, w)
    | some row ↦ elim (parse_cached_state codec row.state_json) [
      | some st ↦ (some (from_cache st), w)
      | none ↦ (none, write_line (invalid_cache session_id) w)
    ]
  ]
]

abbrev pub fresh_state : (session_id user_id edition_id now : Text) → SessionState
fresh_state session_id user_id edition_id now = record {
  session_id = session_id;
  user_id = user_id;
  edition_id = edition_id;
  opened_at = now;
  last_interaction_at = now;
  conversation_history = [];
  active_flags = [];
  open_items = [];
  consist_context = none;
  is_from_log_replay = false;
}

abbrev pub is_replay_error : PersistenceCause → Bool
is_replay_error write_error = false
is_replay_error read_error = false
is_replay_error replay_error = true
is_replay_error invalid_payload = false

-- A log without entries gives a fresh state, and any other failure is thrown on.
abbrev pub replayed_or_fresh :
    (session_id user_id edition_id : Text)
    → (now : ℕ) → Throws SessionPersistenceError SessionState × SessionWorld
    → Throws SessionPersistenceError SessionState × SessionWorld
replayed_or_fresh session_id user_id edition_id now (returns st, w) = (returns st, w)
replayed_or_fresh session_id user_id edition_id now (throws e, w) =
    if is_replay_error e.cause
    then (returns (fresh_state session_id user_id edition_id (to_iso_string now)), w)
    else (throws e, w)

abbrev pub cached_or_replayed :
    JsonCodec
    → Faults
    → (session_id user_id edition_id : Text) → (now : ℕ) → Option SessionState × SessionWorld
    → Throws SessionPersistenceError SessionState × SessionWorld
cached_or_replayed codec fault session_id user_id edition_id now (some st, w) = (returns st, w)
cached_or_replayed codec fault session_id user_id edition_id now (none, w) =
    replayed_or_fresh session_id user_id edition_id now
      (replay_session_log codec session_id fault user_id w)

-- The state from the cache, from the log, or a fresh one.
unfoldable pub load_state :
    JsonCodec
    → Faults
    → (session_id user_id edition_id : Text) → (now : ℕ) → SessionWorld
    → Throws SessionPersistenceError SessionState × SessionWorld
unfolding cached_state
load_state codec fault session_id user_id edition_id now w =
    cached_or_replayed codec fault session_id user_id edition_id now
      (cached_state codec fault session_id w)

abbrev pub open_entry : JsonCodec → (session_id user_id edition_id opened_at : Text) → NewEntry
open_entry codec session_id user_id edition_id opened_at = record {
  session_id = session_id;
  user_id = user_id;
  entry_type = session_open;
  payload = codec.stringify (
      obj (
        members (
          (text "sessionId", str session_id)
          ∷ (text "userId", str user_id)
          ∷ (text "editionId", str edition_id)
          ∷ (text "openedAt", str opened_at)
          ∷ [])));
}

abbrev opened_line : Text → SessionState → PurgeResult → LogLine
opened_line session_id st purge = log_line Level.info (text "openSession") (
    (text "sessionId", session_id)
    ∷ (text "isFromLogReplay", if st.is_from_log_replay then text "true" else text "false")
    ∷ (text "purgedEntries", decimal purge.entries_deleted)
    ∷ [])

abbrev pub purged :
    SessionState
    → Text
    → PurgeResult × SessionWorld
    → Throws SessionPersistenceError (SessionState × PurgeResult) × SessionWorld
purged st session_id (purge, w) =
    (returns (st, purge), write_line (opened_line session_id st purge) w)

-- After the entry is written, the purge.
abbrev pub entry_written :
    Faults
    → (user_id session_id : Text) → (retention_days : ℕ) → OpenInputs
    → SessionState
    → SessionWorld
    → Option SessionPersistenceError × SessionDb
    → Throws SessionPersistenceError (SessionState × PurgeResult) × SessionWorld
entry_written fault user_id session_id retention_days inputs st w (some e, db) =
    (throws e, record w { db = db })
entry_written fault user_id session_id retention_days inputs st w (none, db) =
    purged st session_id
      (purge_expired_logs fault user_id retention_days inputs.purged_at (record w { db = db }))

abbrev pub state_loaded :
    JsonCodec
    → Faults
    → (session_id user_id edition_id : Text) → (retention_days : ℕ) → OpenInputs
    → Throws SessionPersistenceError SessionState × SessionWorld
    → Throws SessionPersistenceError (SessionState × PurgeResult) × SessionWorld
state_loaded codec fault session_id user_id edition_id retention_days inputs (throws e, w) =
    (throws e, w)
state_loaded codec fault session_id user_id edition_id retention_days inputs (returns st, w) =
    entry_written fault user_id session_id retention_days inputs st w (
      write_log_entry codec fault (open_entry codec session_id user_id edition_id st.opened_at)
        inputs.entry_id inputs.written_at w.db)

unfoldable pub open_session :
    JsonCodec
    → Faults
    → (session_id user_id edition_id : Text) → (retention_days : ℕ) → OpenInputs
    → SessionWorld
    → Throws SessionPersistenceError (SessionState × PurgeResult) × SessionWorld
unfolding load_state
open_session codec fault session_id user_id edition_id retention_days inputs w =
    state_loaded codec fault session_id user_id edition_id retention_days inputs
      (load_state codec fault session_id user_id edition_id inputs.fresh_at w)
