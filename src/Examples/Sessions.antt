-- ===== src/Examples/Sessions.antt =====
-- The theorems on the session log: a session with a message, a flag and its acknowledgement.
use onetrackmind.Common.{
  ℕ, ◌+◌, List, inl, inr, [], ◌∷◌, none, Text, text, Text-Eq, ◌==◌, if◌then◌else◌, ◌≡◌, ◌↔◌, refl,
  arith, In, ◌≤◌, ◌*◌,
}
use onetrackmind.Common.Results.{returns}
use onetrackmind.Runtime.Date.{to_iso_string}
use onetrackmind.Db.Serializers.{str, obj, Members, JsonCodec, value}
use onetrackmind.Orchestration.Session.State.{SessionState}
use onetrackmind.Orchestration.Session.Cache.{members, state_value}
use onetrackmind.Orchestration.Session.Store.{SessionLogEntry, SessionWorld, Faults}
use onetrackmind.Orchestration.Session.Log.{
  NewEntry, user_message, write_log_entry, update_state_object,
}
use onetrackmind.Orchestration.Session.Log.Written.{IsWritten, write_log_entry-IsWritten}
use onetrackmind.Orchestration.Session.Replay.Rows.{IsLogOf}
use onetrackmind.Orchestration.Session.Replay.{replay_session_log}
use onetrackmind.Orchestration.Session.Replay.Events.{events_of}
use onetrackmind.Orchestration.Session.Replay.Replayed.{
  Matches, replayed, replay_session_log-replayed,
}
use onetrackmind.Orchestration.Session.Purge.{purge_expired_logs, cutoff_of}
use onetrackmind.Orchestration.Session.Purge.Kept.{IsKept, purge_expired_logs-IsKept}
use onetrackmind.Orchestration.Session.Purge.Exact.{
  IsPurged, purge_expired_logs-IsPurged, purge_expired_logs-age,
}
use onetrackmind.Orchestration.Session.Open.{OpenInputs, from_cache, load_state, open_session}
use onetrackmind.Orchestration.Session.Open.Loaded.{load_state-update_state_object}
use onetrackmind.Orchestration.Session.Open.Safe.{IsOpened, open_session-IsOpened}

abbrev message_payload : Members
message_payload =
    members ((text "content", str (text "hi")) ∷ (text "channel", str (text "app")) ∷ [])

abbrev flag_payload : Members
flag_payload = members (
    (text "flagId", str (text "f1"))
    ∷ (text "type", str (text "safety"))
    ∷ (text "content", str (text "scaffold"))
    ∷ [])

-- A codec that knows two payloads, and reads any other text as an acknowledgement.
abbrev codec : JsonCodec
codec = record {
  parse = λ s.
      if s == text "m"
      then value (obj message_payload)
      else if s == text "f"
      then value (obj flag_payload)
      else value (obj (members ((text "flagId", str (text "f1")) ∷ [])));
  stringify = λ _. text "m";
}

abbrev entry : (entry_id entry_type payload timestamp : Text) → SessionLogEntry
entry entry_id entry_type payload timestamp = record {
  entry_id = entry_id;
  session_id = text "s1";
  user_id = text "u1";
  entry_type = entry_type;
  payload = payload;
  schema_version = 1;
  timestamp = timestamp;
}

abbrev day : ℕ
day = 86400000

abbrev world : SessionWorld
world = record {
  db = record {
    session_log =
        entry (text "e2") (text "flag_raised") (text "f") (to_iso_string (2 * day))
        ∷ entry (text "e1") (text "user_message") (text "m") (to_iso_string day)
        ∷ entry (text "e3") (text "flag_acknowledged") (text "a") (to_iso_string (300 * day))
        ∷ [];
    session_states = [];
  };
  lines = [];
}

abbrev sound : Faults
sound = λ _. none

abbrev new_message : NewEntry
new_message = record {
  session_id = text "s1";
  user_id = text "u1";
  entry_type = user_message;
  payload = text "m";
}

write_log_entry-IsWritten_example :
    IsWritten codec sound new_message
      (text "e4")
      5
      world.db
      (write_log_entry codec sound new_message (text "e4") 5 world.db)
write_log_entry-IsWritten_example =
    write_log_entry-IsWritten codec sound new_message (text "e4") 5 world.db

-- A log out of order.
abbrev logged : SessionWorld
logged = record {
  db = record {
    session_log =
        entry (text "e2") (text "flag_raised") (text "f") (text "2026-01-02")
        ∷ entry (text "e1") (text "user_message") (text "m") (text "2026-01-01")
        ∷ entry (text "e3") (text "flag_acknowledged") (text "a") (text "2026-01-03")
        ∷ [];
    session_states = [];
  };
  lines = [];
}

replay_session_log-replayed_example :
    (rows : List SessionLogEntry) × IsLogOf (text "s1") logged.db.session_log rows
    × Matches
        (replayed (text "s1") (text "u1"))
        (events_of codec rows)
        ((replay_session_log codec (text "s1") sound (text "u1") logged).0)
replay_session_log-replayed_example =
    replay_session_log-replayed codec sound (text "s1") (text "u1") logged
      (entry (text "e1") (text "user_message") (text "m") (text "2026-01-01")) refl (inr (inl refl))
      refl

abbrev cached : SessionState
cached = replayed (text "s1") (text "u1") []

-- A codec that reads back one state.
abbrev state_codec : JsonCodec
state_codec = record { parse = λ _. value (state_value cached); stringify = λ _. text "state" }

load_state-update_state_object_example :
    let after = record world { db = (update_state_object state_codec sound cached world.db).1 } in
    load_state state_codec sound (text "s1") (text "u1") (text "ed") 5 after
    ≡ (returns (from_cache cached), after)
load_state-update_state_object_example =
    load_state-update_state_object state_codec sound sound cached (text "u1") (text "ed") 5 world
      refl refl refl

purge_expired_logs-IsKept_example :
    IsKept
      (text "u1")
      (cutoff_of 30 (301 * day))
      world.db
      ((purge_expired_logs sound (text "u1") 30 (301 * day) world).1.db)
purge_expired_logs-IsKept_example = purge_expired_logs-IsKept sound (text "u1") 30 (301 * day) world

purge_expired_logs-IsPurged_example :
    IsPurged
      (text "u1")
      (cutoff_of 30 (301 * day))
      world.db
      ((purge_expired_logs sound (text "u1") 30 (301 * day) world).0)
      ((purge_expired_logs sound (text "u1") 30 (301 * day) world).1.db)
purge_expired_logs-IsPurged_example =
    purge_expired_logs-IsPurged sound (λ _. refl) (text "u1") 30 (301 * day) world

purge_expired_logs-age_example :
    In
      (entry (text "e3") (text "flag_acknowledged") (text "a") (to_iso_string (300 * day)))
      (purge_expired_logs sound (text "u1") 365 (301 * day) world).1.db.session_log
    ↔ (In
          (entry (text "e3") (text "flag_acknowledged") (text "a") (to_iso_string (300 * day)))
          world.db.session_log
        × (301 * day ≤ 300 * day + 180 * 24 * 60 * 60 * 1000))
purge_expired_logs-age_example =
    purge_expired_logs-age sound (λ _. refl) (text "u1") 365 180 (301 * day) (300 * day) world
      (entry (text "e3") (text "flag_acknowledged") (text "a") (to_iso_string (300 * day)))
      (inr (omega arith, refl)) (omega arith) (omega arith) refl refl

abbrev inputs : OpenInputs
inputs = record {
  entry_id = text "e5";
  fresh_at = 301 * day;
  written_at = 301 * day;
  purged_at = 301 * day;
}

open_session-IsOpened_example :
    IsOpened codec sound
      (text "s1")
      (text "u1")
      (text "ed")
      30
      inputs
      world.db
      (open_session codec sound (text "s1") (text "u1") (text "ed") 30 inputs world)
open_session-IsOpened_example =
    open_session-IsOpened codec sound (text "s1") (text "u1") (text "ed") 30 inputs world
