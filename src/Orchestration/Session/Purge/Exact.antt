-- ===== src/Orchestration/Session/Purge/Exact.antt =====
-- A purge that no statement fails.
use onetrackmind.Common.{
  ℕ, ◌+◌, ◌-◌, ◌*◌, ◌≤◌, ◌<◌, Bool, true, false, none, leb→le, ◌⊎◌, Text, Text-Eq, text_le, leb,
  length, filter, length-filter, In, ◌≡◌, ◌↔◌, refl, sym, ap, subst, ◌∙◌, arith,
}
use onetrackmind.Runtime.Date.{to_iso_string, max_ms}
use onetrackmind.Runtime.Date.Order.{to_iso_string_le}
use onetrackmind.Orchestration.Session.Store.{
  SessionLogEntry, StateRow, SessionDb, SessionOp, SessionWorld, Faults, count_entries,
  delete_entries, count_states, delete_states,
}
use onetrackmind.Orchestration.Session.Purge.{
  PurgeResult, clamped, cutoff_of, is_expired, is_orphan, without_expired, without_orphans,
  purge_body, purge_expired_logs,
}
use onetrackmind.Orchestration.Session.Purge.Kept.{left-In}
use onetrackmind.Orchestration.Session.Purge.Meaning.{
  IsExpired, IsOrphan, is_expired_iff, is_orphan_iff,
}

-- What a purge that reports these counts has done.
abbrev pub IsPurged : (user_id cutoff : Text) → SessionDb → PurgeResult → SessionDb → Type 0
IsPurged user_id cutoff db result after =
    ((row : SessionLogEntry)
      → In row after.session_log ↔ (In row db.session_log × (¬ IsExpired user_id cutoff row)))
    × ((row : StateRow)
        → In row after.session_states
          ↔ (In row db.session_states × (¬ IsOrphan user_id after.session_log row)))
    × (result.entries_deleted + length after.session_log ≡ length db.session_log)
    × (result.sessions_deleted + length after.session_states ≡ length db.session_states)
    × (result.purged_before ≡ cutoff)

-- The retention in days: the given number, or 180 where that is less.
abbrev pub IsRetention : (retention_days days : ℕ) → Type 0
IsRetention retention_days days =
    ((retention_days ≤ 180) × (days ≡ retention_days)) ⊎ ((180 < retention_days) × (days ≡ 180))

clamped-IsRetention :
    (retention_days days : ℕ) → IsRetention retention_days days → clamped retention_days ≡ days
clamped-IsRetention retention_days days h = ground arith

not_false : (b : Bool) → (¬ (b ≡ false)) → b ≡ true
not_false true h = refl
not_false false h = absurd (h refl)

le→leb : (k t : ℕ) → k ≤ t → leb k t ≡ true
le→leb k t h = ground arith

old_enough :
    (retention_days days now t : ℕ)
    → clamped retention_days ≡ days
    → leb (now - clamped retention_days * 24 * 60 * 60 * 1000) t ≡ true
    → now ≤ t + days * 24 * 60 * 60 * 1000
old_enough retention_days days now t same h = let below = leb→le _ t (rw same at h) in omega arith

recent :
    (retention_days days now t : ℕ)
    → clamped retention_days ≡ days
    → now ≤ t + days * 24 * 60 * 60 * 1000
    → leb (now - clamped retention_days * 24 * 60 * 60 * 1000) t ≡ true
recent retention_days days now t same h = rw same (le→leb _ t (omega arith))

module _ (fault : Faults) (fine : (op : SessionOp) → fault op ≡ none) where
  purge_body-fine :
      (user_id cutoff : Text) (db : SessionDb)
      → let purged = without_expired user_id cutoff db in
        purge_body fault user_id cutoff db ≡ (
          length (filter (is_expired user_id cutoff) db.session_log),
          length (filter (is_orphan user_id purged.session_log) purged.session_states),
          without_orphans user_id purged,
          none,
        )
  unfolding purge_body
  purge_body-fine user_id cutoff db =
      rw
        (purge_body, fine count_entries, fine delete_entries, fine count_states, fine delete_states)

  -- When no statement fails, a purge removes exactly the entries of the user that are older than the
  -- cutoff and then exactly the cached states of the user that have no entry left, and the counts of
  -- its result are those of the removed rows.
  pub purge_expired_logs-IsPurged :
      (user_id : Text) (retention_days now : ℕ) (w : SessionWorld)
      → IsPurged user_id
          (cutoff_of retention_days now)
          w.db
          ((purge_expired_logs fault user_id retention_days now w).0)
          ((purge_expired_logs fault user_id retention_days now w).1.db)
  unfolding purge_expired_logs
  purge_expired_logs-IsPurged user_id retention_days now w =
      let cutoff = cutoff_of retention_days now in
      let log = (without_expired user_id cutoff w.db).session_log in
      subst
        (λ body.
          IsPurged user_id cutoff w.db
            (record { entries_deleted = body.0; sessions_deleted = body.1; purged_before = cutoff })
            body.2)
        (sym (purge_body-fine user_id cutoff w.db))
        (
          λ row.
              left-In (is_expired user_id cutoff) row w.db.session_log
                (is_expired_iff user_id cutoff row),
          λ row.
              left-In (is_orphan user_id log) row w.db.session_states
                (is_orphan_iff user_id log row),
          length-filter (is_expired user_id cutoff) w.db.session_log,
          length-filter (is_orphan user_id log) w.db.session_states,
          refl,
        )

  -- When no statement fails, an entry of the user that was written at an instant before
  -- `max_ms` stays exactly when it is no older than the retention, which is the given number of days
  -- up to 180, and 180 days above.
  pub purge_expired_logs-age :
      (user_id : Text) (retention_days days now t : ℕ) (w : SessionWorld) (row : SessionLogEntry)
      → IsRetention retention_days days
      → now < max_ms
      → t < max_ms
      → row.user_id ≡ user_id
      → row.timestamp ≡ to_iso_string t
      → In row (purge_expired_logs fault user_id retention_days now w).1.db.session_log
        ↔ (In row w.db.session_log × (now ≤ t + days * 24 * 60 * 60 * 1000))
  unfolding cutoff_of
  purge_expired_logs-age user_id retention_days days now t w row kept now_ok t_ok mine written =
      let purged = (purge_expired_logs-IsPurged user_id retention_days now w).0 row in
      let k = now - clamped retention_days * 24 * 60 * 60 * 1000 in
      let same_days = clamped-IsRetention retention_days days kept in
      let order : text_le (to_iso_string k) row.timestamp ≡ leb k t =
        ap (text_le (to_iso_string k)) written ∙ to_iso_string_le k t (omega arith) t_ok in
      (
        λ i.
            let (there, stays) = purged.0 i in
            let late : leb k t ≡ true = not_false _ (λ e. stays (mine, order ∙ e)) in
            (there, old_enough retention_days days now t same_days late),
        λ (there, old). purged.1 (
          there,
          λ (_, before). cc (sym order ∙ before, recent retention_days days now t same_days old),
        ),
      )
