-- ===== src/Orchestration/Session/Open/Safe.antt =====
-- What a session leaves behind when it is opened.
use onetrackmind.Common.{
  ℕ, [], ◌∷◌, ◌++◌, Option, none, some, Text, text, ◌≡◌, refl, ap, subst, ◌∙◌, inl, inr,
  Option-cases, Bool-cases, List-cases,
}
use onetrackmind.Common.Results.{Throws, returns, throws}
use onetrackmind.Db.Serializers.{JsonCodec, Members, member, end, str, obj, value}
use onetrackmind.Runtime.Date.{to_iso_string}
use onetrackmind.Orchestration.Session.State.{SessionState}
use onetrackmind.Orchestration.Session.Cache.{parse_cached_state}
use onetrackmind.Orchestration.Session.Store.{
  SessionLogEntry, SessionDb, SessionWorld, Faults, select_state, select_entries,
  SessionPersistenceError,
}
use onetrackmind.Orchestration.Session.Log.Written.{IsWritten, write_log_entry-IsWritten}
use onetrackmind.Orchestration.Session.Replay.{entries_of, replay_session_log}
use onetrackmind.Orchestration.Session.Purge.{PurgeResult, cutoff_of, purge_expired_logs}
use onetrackmind.Orchestration.Session.Purge.Kept.{IsKept, purge_expired_logs-IsKept}
use onetrackmind.Orchestration.Session.Open.{
  OpenInputs, state_row_of, cached_state, load_state, is_replay_error, replayed_or_fresh,
  cached_or_replayed, entry_written, state_loaded, open_entry, open_session,
}

cached_state-db :
    (codec : JsonCodec) (fault : Faults) (session_id : Text) (w : SessionWorld)
    → (cached_state codec fault session_id w).1.db ≡ w.db
unfolding cached_state
cached_state-db codec fault session_id w = elim (Option-cases (fault select_state)) [
  | inr (e, bad) ↦ rw (cached_state, bad)
  | inl fine ↦ elim (Option-cases (state_row_of session_id w.db.session_states)) [
    | inl missing ↦ rw (cached_state, fine, missing)
    | inr (row, found) ↦ elim (Option-cases (parse_cached_state codec row.state_json)) [
      | inl invalid ↦ rw (cached_state, fine, found, invalid)
      | inr (st, parsed) ↦ rw (cached_state, fine, found, parsed)
    ]
  ]
]

replay-db :
    (codec : JsonCodec) (fault : Faults) (session_id user_id : Text) (w : SessionWorld)
    → (replay_session_log codec session_id fault user_id w).1.db ≡ w.db
unfolding replay_session_log
replay-db codec fault session_id user_id w = elim (Option-cases (fault select_entries)) [
  | inr (e, bad) ↦ rw (replay_session_log, bad)
  | inl fine ↦ elim (List-cases (entries_of session_id w.db)) [
    | inl empty ↦ rw (replay_session_log, fine, empty)
    | inr (row, rows, filled) ↦ rw (replay_session_log, fine, filled)
  ]
]

replayed_or_fresh-db :
    (session_id user_id edition_id : Text) (now : ℕ)
    (p : Throws SessionPersistenceError SessionState × SessionWorld)
    → (replayed_or_fresh session_id user_id edition_id now p).1.db ≡ p.1.db
replayed_or_fresh-db session_id user_id edition_id now (returns st, w) = refl
replayed_or_fresh-db session_id user_id edition_id now (throws e, w) =
    elim (Bool-cases (is_replay_error e.cause)) [ inl empty ↦ rw empty | inr failed ↦ rw failed ]

module _ (codec : JsonCodec) (fault : Faults) (session_id user_id edition_id : Text) where
  cached_or_replayed-db :
      (now : ℕ) (p : Option SessionState × SessionWorld)
      → (cached_or_replayed codec fault session_id user_id edition_id now p).1.db ≡ p.1.db
  cached_or_replayed-db now (some st, w) = refl
  cached_or_replayed-db now (none, w) =
      replayed_or_fresh-db session_id user_id edition_id now
        (replay_session_log codec session_id fault user_id w)
      ∙ replay-db codec fault session_id user_id w

  load_state-db :
      (now : ℕ) (w : SessionWorld)
      → (load_state codec fault session_id user_id edition_id now w).1.db ≡ w.db
  unfolding load_state
  load_state-db now w =
      cached_or_replayed-db now (cached_state codec fault session_id w)
      ∙ cached_state-db codec fault session_id w

  -- The payload of the opening, by its names.
  abbrev pub opening_payload : Text → Members
  opening_payload opened_at = member (text "sessionId") (str session_id) (
      member (text "userId") (str user_id)
        (member (text "editionId") (str edition_id) (member (text "openedAt") (str opened_at) end)))

  abbrev pub opening_row : OpenInputs → Members → SessionLogEntry
  opening_row inputs ms = record {
    entry_id = inputs.entry_id;
    session_id = session_id;
    user_id = user_id;
    entry_type = text "session_open";
    payload = codec.stringify (obj ms);
    schema_version = 1;
    timestamp = to_iso_string inputs.written_at;
  }

  -- What a call of `openSession` leaves: after a failure the tables as they were, and else the
  -- tables with the entry of the opening, purged.
  abbrev pub IsOpened :
      (retention_days : ℕ)
      → OpenInputs
      → SessionDb
      → Throws SessionPersistenceError (SessionState × PurgeResult) × SessionWorld
      → Type 0
  IsOpened retention_days inputs db (throws e, after) = after.db ≡ db
  IsOpened retention_days inputs db (returns (st, purge), after) =
      (ms : Members) × (codec.parse (codec.stringify (obj (opening_payload st.opened_at)))
        ≡ value (obj ms))
      × IsKept user_id (cutoff_of retention_days inputs.purged_at)
          (record db { session_log = db.session_log ++ opening_row inputs ms ∷ [] }) after.db

  written_IsOpened :
      (retention_days : ℕ) (inputs : OpenInputs) (db : SessionDb) (st : SessionState)
      (w : SessionWorld) (result : Option SessionPersistenceError × SessionDb)
      → w.db ≡ db
      → IsWritten codec fault
          (open_entry codec session_id user_id edition_id st.opened_at)
          inputs.entry_id
          inputs.written_at
          w.db
          result
      → IsOpened retention_days inputs db
          (entry_written fault user_id session_id retention_days inputs st w result)
  written_IsOpened retention_days inputs db st w (some e, after) same (kept, _) = kept ∙ same
  written_IsOpened retention_days inputs db st w (none, after) same
        (ms, (parsed, _), fine, written) =
      (
        ms,
        parsed,
        subst
            (λ d.
              IsKept user_id (cutoff_of retention_days inputs.purged_at) d
                (purge_expired_logs fault user_id retention_days inputs.purged_at
                  (record w { db = after })).1.db)
            (written
              ∙ ap
                  (λ (d : SessionDb). record d {
                    session_log = d.session_log ++ opening_row inputs ms ∷ [];
                  })
                  same)
            (purge_expired_logs-IsKept fault user_id retention_days inputs.purged_at
              (record w { db = after })),
      )

  state_loaded-IsOpened :
      (retention_days : ℕ) (inputs : OpenInputs) (db : SessionDb)
      (loaded : Throws SessionPersistenceError SessionState × SessionWorld)
      → loaded.1.db ≡ db
      → IsOpened retention_days inputs db
          (state_loaded codec fault session_id user_id edition_id retention_days inputs loaded)
  state_loaded-IsOpened retention_days inputs db (throws e, w) same = same
  state_loaded-IsOpened retention_days inputs db (returns st, w) same =
      written_IsOpened retention_days inputs db st w _ same (
        write_log_entry-IsWritten codec fault
          (open_entry codec session_id user_id edition_id st.opened_at) inputs.entry_id
          inputs.written_at w.db)

  -- When `openSession` throws, both tables are as they were. When it returns, the entry of the
  -- opening has been added to the log, and then only expired entries of the user and cached states of
  -- the user without entries have been removed. The payload of the entry is what the codec reads back
  -- of the ids and, as `openedAt`, the opening time of the state that is returned.
  pub open_session-IsOpened :
      (retention_days : ℕ) (inputs : OpenInputs) (w : SessionWorld)
      → IsOpened retention_days inputs w.db
          (open_session codec fault session_id user_id edition_id retention_days inputs w)
  unfolding open_session
  open_session-IsOpened retention_days inputs w =
      state_loaded-IsOpened retention_days inputs w.db
        (load_state codec fault session_id user_id edition_id inputs.fresh_at w)
        (load_state-db inputs.fresh_at w)
