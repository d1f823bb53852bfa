-- ===== src/Orchestration/Session/Purge.antt =====
-- backend/src/orchestration/sessionPersistence.ts: `purgeExpiredLogs`. The clock is later than 180
-- days after 1970, and `retentionDays` is a whole number from 0: a negative number, which puts the
-- cutoff after now, a fraction, and NaN or -Infinity, for which `toISOString` throws a RangeError, are
-- outside the model.
pub mod Meaning
pub mod Kept
pub mod Exact
use onetrackmind.Common.{
  ℕ, ◌-◌, ◌*◌, Bool, not, ◌&&◌, ◌||◌, List, [], ◌∷◌, ◌++◌, Option, none, some, Text, Text-Eq, text,
  text_le, ◌==◌, leb, nat_beq, length, filter, contains, map, if◌then◌else◌,
}
use onetrackmind.Common.Results.{Thrown, error_message_of}
use onetrackmind.Runtime.Date.{to_iso_string}
use onetrackmind.Runtime.Decimal.{decimal}
use onetrackmind.Comms.Effects.{LogLine, log_line, Level}
use onetrackmind.Orchestration.Session.Store.{
  SessionLogEntry, StateRow, SessionDb, SessionWorld, write_line, Faults, count_entries,
  delete_entries, count_states, delete_states,
}

abbrev pub max_retention_days : ℕ
max_retention_days = 180

pub record PurgeResult : Type 0 where
  pub entries_deleted : ℕ
  pub sessions_deleted : ℕ
  pub purged_before : Text

-- `Math.min(retentionDays, MAX_RETENTION_DAYS)`
abbrev pub clamped : ℕ → ℕ
clamped retention_days =
    if leb retention_days max_retention_days then retention_days else max_retention_days

unfoldable pub cutoff_of : (retention_days now : ℕ) → Text
cutoff_of retention_days now = to_iso_string (now - clamped retention_days * 24 * 60 * 60 * 1000)

-- `user_id = ? AND timestamp < ?`
abbrev pub is_expired : (user_id cutoff : Text) → SessionLogEntry → Bool
is_expired user_id cutoff row = row.user_id == user_id && not (text_le cutoff row.timestamp)

-- `session_id NOT IN (SELECT DISTINCT session_id FROM session_log WHERE user_id = ?)`
abbrev pub sessions_of : Text → List SessionLogEntry → List Text
sessions_of user_id log = map (λ row. row.session_id) (filter (λ row. row.user_id == user_id) log)

abbrev pub is_orphan : Text → List SessionLogEntry → StateRow → Bool
is_orphan user_id log row =
    row.user_id == user_id && not (contains (sessions_of user_id log) row.session_id)

abbrev pub without_expired : (user_id cutoff : Text) → SessionDb → SessionDb
without_expired user_id cutoff db = record db {
  session_log = filter (λ row. not (is_expired user_id cutoff row)) db.session_log;
}

abbrev pub without_orphans : Text → SessionDb → SessionDb
without_orphans user_id db = record db {
  session_states = filter (λ row. not (is_orphan user_id db.session_log row)) db.session_states;
}

-- The `try` block: the two counts, the database after it, and what it throws.
unfoldable pub purge_body :
    Faults → (user_id cutoff : Text) → SessionDb → ℕ × ℕ × SessionDb × Option Thrown
purge_body fault user_id cutoff db = elim (fault count_entries) [
  | some e ↦ (0, 0, db, some e)
  | none ↦
      let entries = length (filter (is_expired user_id cutoff) db.session_log) in
      elim (fault delete_entries) [
        | some e ↦ (entries, 0, db, some e)
        | none ↦
            let purged = without_expired user_id cutoff db in
            elim (fault count_states) [
              | some e ↦ (entries, 0, purged, some e)
              | none ↦
                  let sessions =
                    length (filter (is_orphan user_id purged.session_log) purged.session_states) in
                  elim (fault delete_states) [
                    | some e ↦ (entries, sessions, purged, some e)
                    | none ↦ (entries, sessions, without_orphans user_id purged, none)
                  ]
            ]
      ]
]

abbrev clamp_lines : ℕ → List LogLine
clamp_lines retention_days =
    if nat_beq (clamped retention_days) retention_days
    then []
    else log_line Level.warn (text "retentionDays exceeds MAX_RETENTION_DAYS — clamped") (
        (text "retentionDays", decimal retention_days)
        ∷ (text "max", decimal max_retention_days)
        ∷ (text "clampedDays", decimal (clamped retention_days))
        ∷ [])
      ∷ []

abbrev failure_lines : Text → Option Thrown → List LogLine
failure_lines user_id none = []
failure_lines user_id (some e) =
    log_line Level.error (text "purge failed")
      ((text "userId", user_id) ∷ (text "detail", error_message_of e) ∷ [])
    ∷ []

unfoldable pub purge_expired_logs :
    Faults → (user_id : Text) → (retention_days now : ℕ) → SessionWorld → PurgeResult × SessionWorld
unfolding cutoff_of purge_body
purge_expired_logs fault user_id retention_days now w =
    let cutoff = cutoff_of retention_days now in
    let (entries, sessions, db, thrown) = purge_body fault user_id cutoff w.db in
    (
      record { entries_deleted = entries; sessions_deleted = sessions; purged_before = cutoff },
      record {
        db = db;
        lines = w.lines ++ (clamp_lines retention_days ++ failure_lines user_id thrown);
      },
    )
