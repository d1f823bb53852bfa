-- ===== src/Orchestration/Session/Open/Loaded.antt =====
-- Which state a session is opened with.
use onetrackmind.Common.{
  ℕ, List, [], ◌∷◌, none, some, Text, Text-Eq, ◌==◌, ==_refl, ◌≡◌, refl, ap, ◌∙◌, inl, inr,
  Bool-cases,
}
use onetrackmind.Common.Results.{returns}
use onetrackmind.Db.Serializers.{JsonCodec, RoundTrips}
use onetrackmind.Orchestration.Session.State.{SessionState}
use onetrackmind.Orchestration.Session.Cache.{parse_cached_state, state_value}
use onetrackmind.Orchestration.Session.Cache.RoundTrip.{parse_cached_state-state_value}
use onetrackmind.Orchestration.Session.Store.{
  StateRow, SessionDb, SessionWorld, Faults, select_state, upsert_state,
}
use onetrackmind.Orchestration.Session.Log.{upserted, state_row, update_state_object}
use onetrackmind.Orchestration.Session.Open.{state_row_of, from_cache, cached_state, load_state}

-- The row of a session after an upsert holds the new state.
state_row_of-upserted :
    (new : StateRow) (rows : List StateRow)
    → (row : StateRow) × (state_row_of new.session_id (upserted new rows) ≡ some row)
      × (row.state_json ≡ new.state_json)
unfolding state_row_of upserted
state_row_of-upserted new [] = (new, rw (state_row_of, ==_refl new.session_id), refl)
state_row_of-upserted new (row ∷ rows) = elim (Bool-cases (row.session_id == new.session_id)) [
  | inl same ↦ (
    record row { state_json = new.state_json; last_interaction_at = new.last_interaction_at },
    rw (upserted, same, state_row_of, same),
    refl,
  )
  | inr apart ↦
      let (found, there, json) = state_row_of-upserted new rows in
      (found, rw (upserted, apart, state_row_of, apart, there), json)
]

cached_state-found :
    (codec : JsonCodec) (fault : Faults) (session_id : Text) (row : StateRow) (st : SessionState)
    (w : SessionWorld)
    → fault select_state ≡ none
    → state_row_of session_id w.db.session_states ≡ some row
    → parse_cached_state codec row.state_json ≡ some st
    → cached_state codec fault session_id w ≡ (some (from_cache st), w)
unfolding cached_state
cached_state-found codec fault session_id row st w fine found parsed =
    rw (cached_state, fine, found, parsed)

load_state-cached :
    (codec : JsonCodec) (fault : Faults) (session_id user_id edition_id : Text) (now : ℕ)
    (st : SessionState) (w : SessionWorld)
    → cached_state codec fault session_id w ≡ (some st, w)
    → load_state codec fault session_id user_id edition_id now w ≡ (returns st, w)
unfolding load_state
load_state-cached codec fault session_id user_id edition_id now st w cached =
    rw (load_state, cached)

written_states :
    (codec : JsonCodec) (fault : Faults) (st : SessionState) (db : SessionDb)
    → fault upsert_state ≡ none
    → (update_state_object codec fault st db).1.session_states
      ≡ upserted (state_row codec st) db.session_states
unfolding update_state_object
written_states codec fault st db fine = rw (update_state_object, fine)

-- A session whose state was written to the cache is opened with that state, not as a replay,
-- whatever its log holds, if the cache can be read and `JSON.parse` reads back what `JSON.stringify`
-- wrote.
pub load_state-update_state_object :
    (codec : JsonCodec) (writing reading : Faults) (st : SessionState) (user_id edition_id : Text)
    (now : ℕ) (w : SessionWorld)
    → writing upsert_state ≡ none
    → reading select_state ≡ none
    → RoundTrips codec (state_value st)
    → let after = record w { db = (update_state_object codec writing st w.db).1 } in
      load_state codec reading st.session_id user_id edition_id now after
      ≡ (returns (from_cache st), after)
load_state-update_state_object codec writing reading st user_id edition_id now w writes reads trip =
    let after = record w { db = (update_state_object codec writing st w.db).1 } in
    let (row, found, json) = state_row_of-upserted (state_row codec st) w.db.session_states in
    let parsed =
      ap (parse_cached_state codec) json ∙ parse_cached_state-state_value codec st trip in
    let there =
      ap (state_row_of st.session_id) (written_states codec writing st w.db writes) ∙ found in
    load_state-cached codec reading st.session_id user_id edition_id now (from_cache st) after
      (cached_state-found codec reading st.session_id row st after reads there parsed)
