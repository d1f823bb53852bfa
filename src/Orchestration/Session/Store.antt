-- ===== src/Orchestration/Session/Store.antt =====
-- The tables session_log and session_states, in the order of insertion, and what a call takes and
-- gives. A statement that throws changes nothing.
use onetrackmind.Common.{ℕ, List, [], ◌∷◌, ◌++◌, Option, Text}
use onetrackmind.Common.Results.{Thrown}
use onetrackmind.Comms.Effects.{LogLine}

-- backend/src/orchestration/types.ts. In a row, any text may stand for the type of the entry.
pub record SessionLogEntry : Type 0 where
  pub entry_id : Text
  pub session_id : Text
  pub user_id : Text
  pub entry_type : Text
  pub payload : Text
  pub schema_version : ℕ
  pub timestamp : Text

pub record StateRow : Type 0 where
  pub session_id : Text
  pub user_id : Text
  pub edition_id : Text
  pub state_json : Text
  pub last_interaction_at : Text

pub record SessionDb : Type 0 where
  pub session_log : List SessionLogEntry
  pub session_states : List StateRow

pub data SessionOp : Type 0 where
  insert_entry upsert_state select_entries select_state : SessionOp
  count_entries delete_entries count_states delete_states : SessionOp

abbrev pub Faults : Type 0
Faults = SessionOp → Option Thrown

pub data PersistenceCause : Type 0 where
  write_error read_error replay_error invalid_payload : PersistenceCause

pub record SessionPersistenceError : Type 0 where
  pub message : Text
  pub session_id : Text
  pub operation : Text
  pub cause : PersistenceCause

abbrev pub persistence_error : Text → Text → Text → PersistenceCause → SessionPersistenceError
persistence_error message session_id operation cause = record {
  message = message;
  session_id = session_id;
  operation = operation;
  cause = cause;
}

pub record SessionWorld : Type 0 where
  pub db : SessionDb
  pub lines : List LogLine

abbrev pub write_line : LogLine → SessionWorld → SessionWorld
write_line line w = record w { lines = w.lines ++ line ∷ [] }
