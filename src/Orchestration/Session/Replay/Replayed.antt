-- ===== src/Orchestration/Session/Replay/Replayed.antt =====
-- The state that `replaySessionLog` rebuilds is the one that the log describes.
use onetrackmind.Common.{
  true, List, [], ◌∷◌, Option, none, some, Text, text, nat_beq, ◌≡◌, refl, sym, ap, subst, ◌∙◌, inl,
  inr, Bool-cases, Option-cases, List-cases, In, ◌⊎◌,
}
use onetrackmind.Common.Options
use onetrackmind.Common.Results.{Throws, returns, throws, ◌>>=◌}
use onetrackmind.Comms.Effects.{LogLine}
use onetrackmind.Db.Serializers.{Members, JsonCodec, Parsed, value, syntax_error}
use onetrackmind.Orchestration.Narrowing.{extract_string, to_record}
use onetrackmind.Orchestration.Session.State.{SessionState, flag_type_text, flag_types}
use onetrackmind.Orchestration.Session.Cache.{extract_literal}
use onetrackmind.Orchestration.Session.Store.{
  SessionLogEntry, SessionPersistenceError, invalid_payload, read_error, replay_error, SessionWorld,
  Faults, select_entries,
}
use onetrackmind.Orchestration.Session.Log.{
  EntryType, session_open, user_message, assistant_response, flag_raised, flag_acknowledged,
  approval_decision, route_result, session_close, current_schema_version,
}
use onetrackmind.Orchestration.Session.Replay.{
  require_string, require_flag_type, apply_type, apply_payload, replay_rows, type_of,
  replay_session_log, entries_of, empty_state,
}
use onetrackmind.Orchestration.Session.Replay.Rows.{IsLogOf, entries-IsLogOf, has_rows}
use onetrackmind.Orchestration.Session.Replay.Events.{
  Event, nothing, event_at, payload_of, event_of, events_of, messages, flags_from, last_touch,
  last_opening,
}
use onetrackmind.Orchestration.Session.Replay.Described.{
  or_else, edition_or, opened_or, advance, described, described-advance, described-nil,
}
use onetrackmind.Orchestration.Session.Replay.Flags.{flags_after}

-- A result, or an error of the cause `invalid_payload` where there is none.
abbrev pub Matches : {A B : Type 0} → (A → B) → Option A → Throws SessionPersistenceError B → Type 0
Matches f (some a) r = r ≡ returns (f a)
Matches f none r = (e : SessionPersistenceError) × (r ≡ throws e) × (e.cause ≡ invalid_payload)

Matches-bind :
    {A B C : Type 0} (f : B → C) (o : Option A) (r : Throws SessionPersistenceError A)
    (g : A → Option B) (h : A → Throws SessionPersistenceError C)
    → Matches (λ a. a) o r
    → ((a : A) → Matches f (g a) (h a))
    → Matches f (Options.◌>>=◌ o g) (r >>= h)
Matches-bind f (some a) r g h m k = rw m (k a)
Matches-bind f none r g h (e, failed, cause) k = (e, rw failed, cause)

module _ (session_id : Text) (row : SessionLogEntry) where
  require_string-Matches :
      (ms : Members) (key : Text)
      → Matches (λ s. s) (extract_string ms key) (require_string session_id row ms key)
  unfolding require_string
  require_string-Matches ms key = elim (Option-cases (extract_string ms key)) [
    | inl missing ↦ rw (require_string, missing) (_, refl, refl)
    | inr (s, found) ↦ rw (require_string, found)
  ]

  require_flag_type-Matches :
      (ms : Members)
      → Matches
          (λ t. t)
          (extract_literal flag_type_text flag_types ms (text "type"))
          (require_flag_type session_id row ms)
  unfolding require_flag_type
  require_flag_type-Matches ms =
      elim (Option-cases (extract_literal flag_type_text flag_types ms (text "type"))) [
        | inl missing ↦ rw (require_flag_type, missing) (_, refl, refl)
        | inr (t, found) ↦ rw (require_flag_type, found)
      ]

  apply_type-Matches :
      (t : Option EntryType) (ms : Members) (st : SessionState)
      → Matches
          (λ event. advance event st)
          (event_at t ms row.timestamp)
          (apply_type session_id row t ms st)
  unfolding event_at apply_type advance
  apply_type-Matches (some session_open) ms st =
      Matches-bind _ _ _ _ _ (require_string-Matches ms (text "openedAt")) (λ opened_at.
        Matches-bind _ _ _ _ _ (require_string-Matches ms (text "editionId")) (λ edition_id. refl))
  apply_type-Matches (some user_message) ms st =
      Matches-bind _ _ _ _ _ (require_string-Matches ms (text "content")) (λ content. refl)
  apply_type-Matches (some assistant_response) ms st =
      Matches-bind _ _ _ _ _ (require_string-Matches ms (text "content")) (λ content. refl)
  apply_type-Matches (some flag_raised) ms st =
      Matches-bind _ _ _ _ _ (require_string-Matches ms (text "flagId")) (λ flag_id.
        Matches-bind _ _ _ _ _ (require_flag_type-Matches ms) (λ flag_type.
          Matches-bind _ _ _ _ _ (require_string-Matches ms (text "content")) (λ content. refl)))
  apply_type-Matches (some flag_acknowledged) ms st =
      Matches-bind _ _ _ _ _ (require_string-Matches ms (text "flagId")) (λ flag_id. refl)
  apply_type-Matches (some approval_decision) ms st = refl
  apply_type-Matches (some route_result) ms st = refl
  apply_type-Matches (some session_close) ms st = refl
  apply_type-Matches none ms st = refl

module _ (codec : JsonCodec) (session_id : Text) where
  apply_payload-Matches :
      (row : SessionLogEntry) (st : SessionState)
      → Matches
          (λ event. advance event st)
          (Options.◌>>=◌
            (payload_of (codec.parse row.payload))
            (λ ms. event_at (type_of row) ms row.timestamp))
          (apply_payload codec session_id row st)
  unfolding apply_payload
  apply_payload-Matches row st = payload_cases (codec.parse row.payload) refl
    where
      payload_cases :
          (p : Parsed)
          → codec.parse row.payload ≡ p
          → Matches
              (λ event. advance event st)
              (Options.◌>>=◌ (payload_of p) (λ ms. event_at (type_of row) ms row.timestamp))
              (apply_payload codec session_id row st)
      payload_cases (syntax_error detail) h = rw (apply_payload, h) (_, refl, refl)
      payload_cases (value v) h = elim (Option-cases (to_record v)) [
        | inl shapeless ↦ rw (apply_payload, h, shapeless) (_, refl, refl)
        | inr (ms, shaped) ↦
            rw (apply_payload, h, shaped) (apply_type-Matches session_id row (type_of row) ms st)
      ]

  Matches-cons :
      (event : Event) (st : SessionState) (rest : Option (List Event))
      (r : Throws SessionPersistenceError SessionState)
      → Matches (λ events. described events (advance event st)) rest r
      → Matches
          (λ events. described events st)
          (Options.◌>>=◌ rest (λ events. some (event ∷ events)))
          r
  Matches-cons event st (some events) r h =
      h ∙ ap (λ x. returns x) (described-advance st events event)
  Matches-cons event st none r h = h

  replay_rows-Matches :
      (rows : List SessionLogEntry) (st : SessionState) (lines : List LogLine)
      → Matches
          (λ events. described events st)
          (events_of codec rows)
          ((replay_rows codec session_id rows st lines).0)
  unfolding replay_rows events_of event_of advance
  replay_rows-Matches [] st lines = sym (ap (λ x. returns x) (described-nil st))
  replay_rows-Matches (row ∷ rows) st lines =
      elim (Bool-cases (nat_beq row.schema_version current_schema_version)) [
        | inr skipped ↦
            rw (events_of, event_of, replay_rows, skipped)
              (Matches-cons nothing st (events_of codec rows) _ (replay_rows-Matches rows st _))
        | inl current ↦
            let event =
              Options.◌>>=◌ (payload_of (codec.parse row.payload))
                (λ ms. event_at (type_of row) ms row.timestamp) in
            let applied = apply_payload-Matches row st in
            elim (Option-cases event) [
              | inl unreadable ↦
                  let (e, failed, cause) =
                    subst
                      (λ o. Matches (λ x. advance x st) o (apply_payload codec session_id row st))
                      unreadable applied in
                  rw (events_of, event_of, replay_rows, current, unreadable, failed)
                    (e, refl, cause)
              | inr (found, readable) ↦
                  let done =
                    subst
                      (λ o. Matches (λ x. advance x st) o (apply_payload codec session_id row st))
                      readable applied in
                  rw (events_of, event_of, replay_rows, current, readable, done)
                    (Matches-cons found st (events_of codec rows) _
                      (replay_rows-Matches rows (advance found st) _))
            ]
      ]

-- The state of a session, described by the events of its log.
abbrev pub replayed : (session_id user_id : Text) → List Event → SessionState
replayed session_id user_id events = record {
  session_id = session_id;
  user_id = user_id;
  edition_id = edition_or (last_opening events) [];
  opened_at = opened_or (last_opening events) [];
  last_interaction_at = or_else (last_touch events) [];
  conversation_history = messages events;
  active_flags = flags_from [] events;
  open_items = [];
  consist_context = none;
  is_from_log_replay = true;
}

-- When the log is read and has an entry of the session, its entries of the session, each as often as
-- it stands there and by ascending timestamps, are replayed to the state that their events describe:
-- the messages in order, each flag as it is acknowledged later, the edition and the opening time that
-- the last opening entry gives, and as last interaction what the last entry that sets it gives: the
-- timestamp of a message, a decision, a route result or a close, or the opening time in an opening. If
-- an entry of the current version cannot be read, the result is an error of the cause `invalid_payload`.
pub replay_session_log-replayed :
    (codec : JsonCodec) (fault : Faults) (session_id user_id : Text) (w : SessionWorld)
    (entry : SessionLogEntry)
    → fault select_entries ≡ none
    → In entry w.db.session_log
    → entry.session_id ≡ session_id
    → (rows : List SessionLogEntry) × IsLogOf session_id w.db.session_log rows
      × Matches
          (replayed session_id user_id)
          (events_of codec rows)
          ((replay_session_log codec session_id fault user_id w).0)
unfolding replay_session_log described flags_after
replay_session_log-replayed codec fault session_id user_id w entry fine there same =
    elim (List-cases (entries_of session_id w.db)) [
      | inl empty ↦ absurd (has_rows session_id entry w.db.session_log there same empty)
      | inr (row, rows, shape) ↦ (
        row ∷ rows,
        subst (IsLogOf session_id w.db.session_log) shape
            (entries-IsLogOf session_id w.db.session_log),
        rw (replay_session_log, fine, shape)
            (replay_rows-Matches codec session_id (row ∷ rows) (empty_state session_id user_id)
              w.lines),
      )
    ]

-- Without entries, or when they cannot be read, there is no state.
pub replay_session_log-fails :
    (codec : JsonCodec) (fault : Faults) (session_id user_id : Text) (w : SessionWorld)
    → (entries_of session_id w.db ≡ [])
    → (e : SessionPersistenceError) × ((replay_session_log codec session_id fault user_id w)
        ≡ (throws e, w))
      × (((fault select_entries ≡ none) × (e.cause ≡ replay_error)) ⊎ (e.cause ≡ read_error))
unfolding replay_session_log
replay_session_log-fails codec fault session_id user_id w empty =
    elim (Option-cases (fault select_entries)) [
      | inl fine ↦ rw (replay_session_log, fine, empty) (_, refl, inl (refl, refl))
      | inr (e, bad) ↦ rw (replay_session_log, bad) (_, refl, inr refl)
    ]
