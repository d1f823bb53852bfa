-- ===== src/Orchestration/Session/Replay/Described.antt =====
-- The state that the events of a log describe.
use onetrackmind.Common.{
  List, [], ◌∷◌, ◌++◌, Option, none, some, Text, ◌≡◌, refl, sym, ap, ◌∙◌, append_assoc, append-nil,
}
use onetrackmind.Orchestration.Session.State.{SessionState}
use onetrackmind.Orchestration.Session.Replay.{acknowledge_first}
use onetrackmind.Orchestration.Session.Replay.Events.{
  Event, opened, message, flag, acknowledgement, activity, nothing, is_acknowledged, flags_from,
  messages, touch, last_touch, opening, last_opening, or_before,
}
use onetrackmind.Orchestration.Session.Replay.Flags.{
  flags_after, flags_after-flag, flags_after-acknowledgement, flags_after-other, flags_after-nil,
}

abbrev pub or_else : Option Text → Text → Text
or_else (some later) before = later
or_else none before = before

-- What an event does to a state.
unfoldable pub advance : Event → SessionState → SessionState
advance (opened opened_at edition_id) st = record st {
  edition_id = edition_id;
  opened_at = opened_at;
  last_interaction_at = opened_at;
}
advance (message m) st = record st {
  conversation_history = st.conversation_history ++ m ∷ [];
  last_interaction_at = or_else m.timestamp st.last_interaction_at;
}
advance (flag f) st = record st { active_flags = st.active_flags ++ f ∷ [] }
advance (acknowledgement flag_id) st = record st {
  active_flags = acknowledge_first flag_id st.active_flags;
}
advance (activity timestamp) st = record st { last_interaction_at = timestamp }
advance nothing st = st

abbrev pub edition_or : Option (Text × Text) → Text → Text
edition_or (some (opened_at, edition_id)) before = edition_id
edition_or none before = before

abbrev pub opened_or : Option (Text × Text) → Text → Text
opened_or (some (opened_at, edition_id)) before = opened_at
opened_or none before = before

-- The state that events describe, after an earlier one.
unfoldable pub described : List Event → SessionState → SessionState
unfolding messages last_touch last_opening flags_after
described events st = record st {
  edition_id = edition_or (last_opening events) st.edition_id;
  opened_at = opened_or (last_opening events) st.opened_at;
  last_interaction_at = or_else (last_touch events) st.last_interaction_at;
  conversation_history = st.conversation_history ++ messages events;
  active_flags = flags_after st.active_flags events;
}

or_else-before :
    (a b : Option Text) (d : Text) → or_else (or_before a b) d ≡ or_else a (or_else b d)
or_else-before none b d = refl
or_else-before (some x) b d = refl

edition_or-before :
    (a b : Option (Text × Text)) (d : Text)
    → edition_or (or_before a b) d ≡ edition_or a (edition_or b d)
edition_or-before none b d = refl
edition_or-before (some x) b d = refl

opened_or-before :
    (a b : Option (Text × Text)) (d : Text)
    → opened_or (or_before a b) d ≡ opened_or a (opened_or b d)
opened_or-before none b d = refl
opened_or-before (some x) b d = refl

module _ (st : SessionState) where
  advance-opening :
      (event : Event)
      → ((advance event st).edition_id ≡ edition_or (opening event) st.edition_id)
        × ((advance event st).opened_at ≡ opened_or (opening event) st.opened_at)
        × ((advance event st).last_interaction_at ≡ or_else (touch event) st.last_interaction_at)
  unfolding advance
  advance-opening (opened opened_at edition_id) = (refl, refl, refl)
  advance-opening (message m) = (refl, refl, refl)
  advance-opening (flag f) = (refl, refl, refl)
  advance-opening (acknowledgement flag_id) = (refl, refl, refl)
  advance-opening (activity timestamp) = (refl, refl, refl)
  advance-opening nothing = (refl, refl, refl)

  module _ (events : List Event) where
    advance-history :
        (event : Event)
        → (advance event st).conversation_history ++ messages events
          ≡ st.conversation_history ++ messages (event ∷ events)
    unfolding advance messages
    advance-history (opened opened_at edition_id) = refl
    advance-history (message m) = append_assoc st.conversation_history (m ∷ []) (messages events)
    advance-history (flag f) = refl
    advance-history (acknowledgement flag_id) = refl
    advance-history (activity timestamp) = refl
    advance-history nothing = refl

    advance-flags :
        (event : Event)
        → flags_after (advance event st).active_flags events
          ≡ flags_after st.active_flags (event ∷ events)
    unfolding advance is_acknowledged flags_from
    advance-flags (opened opened_at edition_id) = sym (
        flags_after-other (opened opened_at edition_id) events (λ id. refl) (λ ids. refl)
          st.active_flags)
    advance-flags (message m) =
        sym (flags_after-other (message m) events (λ id. refl) (λ ids. refl) st.active_flags)
    advance-flags (flag f) = sym (flags_after-flag st.active_flags f events)
    advance-flags (acknowledgement flag_id) =
        sym (flags_after-acknowledgement flag_id st.active_flags events)
    advance-flags (activity timestamp) =
        sym
          (flags_after-other (activity timestamp) events (λ id. refl) (λ ids. refl) st.active_flags)
    advance-flags nothing =
        sym (flags_after-other nothing events (λ id. refl) (λ ids. refl) st.active_flags)

    rebuilt :
        (event : Event)
        → record st {
          edition_id = edition_or (last_opening events) (advance event st).edition_id;
          opened_at = opened_or (last_opening events) (advance event st).opened_at;
          last_interaction_at = or_else (last_touch events) (advance event st).last_interaction_at;
          conversation_history = (advance event st).conversation_history ++ messages events;
          active_flags = flags_after (advance event st).active_flags events;
        }
          ≡ described (event ∷ events) st
    unfolding described last_touch last_opening
    rebuilt event =
        let (edition, opened_time, touched) = advance-opening event in
        λ i. record st {
          edition_id =
              (ap (edition_or (last_opening events)) edition
                  ∙ sym (edition_or-before (last_opening events) (opening event) st.edition_id))
                i;
          opened_at =
              (ap (opened_or (last_opening events)) opened_time
                  ∙ sym (opened_or-before (last_opening events) (opening event) st.opened_at))
                i;
          last_interaction_at =
              (ap (or_else (last_touch events)) touched
                  ∙ sym (or_else-before (last_touch events) (touch event) st.last_interaction_at))
                i;
          conversation_history = advance-history event i;
          active_flags = advance-flags event i;
        }

    pub described-advance :
        (event : Event) → described events (advance event st) ≡ described (event ∷ events) st
    unfolding described advance
    described-advance (opened opened_at edition_id) = rebuilt (opened opened_at edition_id)
    described-advance (message m) = rebuilt (message m)
    described-advance (flag f) = rebuilt (flag f)
    described-advance (acknowledgement flag_id) = rebuilt (acknowledgement flag_id)
    described-advance (activity timestamp) = rebuilt (activity timestamp)
    described-advance nothing = rebuilt nothing

  pub described-nil : described [] st ≡ st
  unfolding described messages last_touch last_opening
  described-nil = rw (append-nil st.conversation_history, flags_after-nil st.active_flags)
