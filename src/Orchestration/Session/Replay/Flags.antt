-- ===== src/Orchestration/Session/Replay/Flags.antt =====
-- The flags of a replayed log.
use onetrackmind.Common.{
  Bool, true, false, not, ◌&&◌, ◌||◌, List, [], ◌∷◌, ◌++◌, Text, Text-Eq, ◌==◌, ==_iff, contains,
  ◌≡◌, refl, sym, ap, ◌∙◌, Bool-cases, inl, inr, arith, append_assoc, append-nil,
}
use onetrackmind.Orchestration.Session.State.{ActiveFlag}
use onetrackmind.Orchestration.Session.Replay.{acknowledge_first}
use onetrackmind.Orchestration.Session.Replay.Events.{
  Event, flag, acknowledgement, is_acknowledged, acknowledged_by, flags_from,
}

-- The flags of a state, when the events follow.
unfoldable mark : List Text → List ActiveFlag → List Event → List ActiveFlag
mark earlier [] events = []
mark earlier (f ∷ flags) events =
    acknowledged_by earlier events f ∷ mark (f.flag_id ∷ earlier) flags events

unfoldable ids_after : List Text → List ActiveFlag → List Text
ids_after earlier [] = earlier
ids_after earlier (f ∷ flags) = ids_after (f.flag_id ∷ earlier) flags

unfoldable pub flags_after : List ActiveFlag → List Event → List ActiveFlag
unfolding mark ids_after
flags_after flags events = mark [] flags events ++ flags_from (ids_after [] flags) events

==_sym : (s t : Text) → (s == t) ≡ (t == s)
==_sym s t = ground (arith, ==_iff s t, ==_iff t s)

mark-append :
    (earlier : List Text) (flags : List ActiveFlag) (f : ActiveFlag) (events : List Event)
    → mark earlier (flags ++ f ∷ []) events
      ≡ mark earlier flags events ++ acknowledged_by (ids_after earlier flags) events f ∷ []
unfolding mark ids_after
mark-append earlier [] f events = refl
mark-append earlier (first ∷ flags) f events =
    rw (mark-append (first.flag_id ∷ earlier) flags f events)

ids_after-append :
    (earlier : List Text) (flags : List ActiveFlag) (f : ActiveFlag)
    → ids_after earlier (flags ++ f ∷ []) ≡ f.flag_id ∷ ids_after earlier flags
unfolding ids_after
ids_after-append earlier [] f = refl
ids_after-append earlier (first ∷ flags) f = ids_after-append (first.flag_id ∷ earlier) flags f

mark-other :
    (event : Event) (events : List Event)
    → ((id : Text) → is_acknowledged id (event ∷ events) ≡ is_acknowledged id events)
    → (earlier : List Text) (flags : List ActiveFlag)
    → mark earlier flags (event ∷ events) ≡ mark earlier flags events
unfolding mark
mark-other event events h earlier [] = refl
mark-other event events h earlier (f ∷ flags) =
    rw (h f.flag_id, mark-other event events h (f.flag_id ∷ earlier) flags)

-- An event that is neither a flag nor an acknowledgement.
pub flags_after-other :
    (event : Event) (events : List Event)
    → ((id : Text) → is_acknowledged id (event ∷ events) ≡ is_acknowledged id events)
    → ((earlier : List Text) → flags_from earlier (event ∷ events) ≡ flags_from earlier events)
    → (flags : List ActiveFlag) → flags_after flags (event ∷ events) ≡ flags_after flags events
unfolding flags_after
flags_after-other event events h k flags =
    rw (mark-other event events h [] flags, k (ids_after [] flags))

pub flags_after-flag :
    (flags : List ActiveFlag) (f : ActiveFlag) (events : List Event)
    → flags_after flags (flag f ∷ events) ≡ flags_after (flags ++ f ∷ []) events
unfolding flags_after flags_from is_acknowledged
flags_after-flag flags f events =
    rw
      (
        mark-other (flag f) events (λ id. refl) [] flags,
        mark-append [] flags f events,
        ids_after-append [] flags f,
      )
      (sym (
        append_assoc (mark [] flags events) (acknowledged_by (ids_after [] flags) events f ∷ [])
          (flags_from (f.flag_id ∷ ids_after [] flags) events)))

or_true : (b : Bool) → (b || true) ≡ true
or_true b = ground arith

-- A flag of an id that was raised before is not acknowledged again.
mark-seen :
    (id : Text) (earlier : List Text) (flags : List ActiveFlag) (events : List Event)
    → contains earlier id ≡ true
    → mark earlier flags (acknowledgement id ∷ events) ≡ mark earlier flags events
unfolding mark is_acknowledged contains
mark-seen id earlier [] events h = refl
mark-seen id earlier (f ∷ flags) events h = elim (Bool-cases (f.flag_id == id)) [
  | inl same ↦
      let seen = ap (contains earlier) ((==_iff f.flag_id id).0 same) ∙ h in
      rw (seen, mark-seen id (f.flag_id ∷ earlier) flags events (rw (==_sym id f.flag_id, same)))
  | inr apart ↦
      rw
        (apart, mark-seen id (f.flag_id ∷ earlier) flags events (rw (==_sym id f.flag_id, apart) h))
]

mark-acknowledge :
    (id : Text) (earlier : List Text) (flags : List ActiveFlag) (events : List Event)
    → contains earlier id ≡ false
    → mark earlier flags (acknowledgement id ∷ events)
      ≡ mark earlier (acknowledge_first id flags) events
unfolding mark is_acknowledged contains acknowledge_first
mark-acknowledge id earlier [] events h = refl
mark-acknowledge id earlier (f ∷ flags) events h = elim (Bool-cases (f.flag_id == id)) [
  | inl same ↦
      let fresh = ap (contains earlier) ((==_iff f.flag_id id).0 same) ∙ h in
      rw (
        same,
        fresh,
        or_true f.acknowledged,
        mark-seen id (f.flag_id ∷ earlier) flags events (rw (==_sym id f.flag_id, same)),
      )
  | inr apart ↦ rw (
    apart,
    mark-acknowledge id (f.flag_id ∷ earlier) flags events (rw (==_sym id f.flag_id, apart) h),
  )
]

ids_after-acknowledge :
    (id : Text) (earlier : List Text) (flags : List ActiveFlag)
    → ids_after earlier (acknowledge_first id flags) ≡ ids_after earlier flags
unfolding ids_after acknowledge_first
ids_after-acknowledge id earlier [] = refl
ids_after-acknowledge id earlier (f ∷ flags) = elim (Bool-cases (f.flag_id == id)) [
  | inl same ↦ rw same
  | inr apart ↦ rw (apart, ids_after-acknowledge id (f.flag_id ∷ earlier) flags)
]

pub flags_after-acknowledgement :
    (id : Text) (flags : List ActiveFlag) (events : List Event)
    → flags_after flags (acknowledgement id ∷ events)
      ≡ flags_after (acknowledge_first id flags) events
unfolding flags_after flags_from contains
flags_after-acknowledgement id flags events =
    rw (mark-acknowledge id [] flags events refl, ids_after-acknowledge id [] flags)

no_more : (a b : Bool) → (a || (b && false)) ≡ a
no_more a b = ground arith

mark-nil : (earlier : List Text) (flags : List ActiveFlag) → mark earlier flags [] ≡ flags
unfolding mark is_acknowledged
mark-nil earlier [] = refl
mark-nil earlier (f ∷ flags) = rw (
  no_more f.acknowledged (not (contains earlier f.flag_id)),
  mark-nil (f.flag_id ∷ earlier) flags,
)

pub flags_after-nil : (flags : List ActiveFlag) → flags_after flags [] ≡ flags
unfolding flags_after flags_from
flags_after-nil flags = rw (mark-nil [] flags, append-nil flags)
