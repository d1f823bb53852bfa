-- ===== src/Orchestration/Session/Purge/Meaning.antt =====
-- What the conditions of the purge's statements say.
use onetrackmind.Common.{
  Bool, true, false, not, ◌&&◌, List, [], ◌∷◌, Text, Text-Eq, text_le, ◌==◌, ==_iff, contains,
  filter, In, ◌≡◌, ◌↔◌, inl, inr, refl, sym, ap, ◌∙◌, Bool-cases, arith,
}
use onetrackmind.Orchestration.Session.Store.{SessionLogEntry, StateRow}
use onetrackmind.Orchestration.Session.Purge.{is_expired, sessions_of, is_orphan}

-- An entry of the user from before the cutoff.
abbrev pub IsExpired : (user_id cutoff : Text) → SessionLogEntry → Type 0
IsExpired user_id cutoff row = (row.user_id ≡ user_id) × (text_le cutoff row.timestamp ≡ false)

-- The user has an entry of this session.
abbrev pub HasEntry : (user_id session_id : Text) → List SessionLogEntry → Type 0
HasEntry user_id session_id log =
    (entry : SessionLogEntry) × In entry log
    × (entry.user_id ≡ user_id)
    × (entry.session_id ≡ session_id)

-- A cached state of the user for a session of which the user has no entry.
abbrev pub IsOrphan : Text → List SessionLogEntry → StateRow → Type 0
IsOrphan user_id log row = (row.user_id ≡ user_id) × (¬ HasEntry user_id row.session_id log)

both : (a b : Bool) → ((a && not b) ≡ true) ↔ ((a ≡ true) × (b ≡ false))
both a b = ground arith

pub false_iff : {P : Type 0} (b : Bool) → (b ≡ true) ↔ P → (b ≡ false) ↔ (¬ P)
false_iff true h = (λ e. absurd (cc e), λ no. absurd (no (h.0 refl)))
false_iff false h = (λ _ p. cc (h.1 p), λ _. refl)

pub is_expired_iff :
    (user_id cutoff : Text) (row : SessionLogEntry)
    → (is_expired user_id cutoff row ≡ true) ↔ IsExpired user_id cutoff row
is_expired_iff user_id cutoff row =
    let split = both (row.user_id == user_id) (text_le cutoff row.timestamp) in
    let user = ==_iff row.user_id user_id in
    (
      λ h. let (mine, before) = split.0 h in (user.0 mine, before),
      λ (mine, before). split.1 (user.1 mine, before),
    )

sessions_of_iff :
    (user_id session_id : Text) (log : List SessionLogEntry)
    → (contains (sessions_of user_id log) session_id ≡ true) ↔ HasEntry user_id session_id log
unfolding contains
sessions_of_iff user_id session_id [] = (λ h. absurd (cc h), λ (_, i, _, _). absurd i)
sessions_of_iff user_id session_id (entry ∷ log) =
    let rest = sessions_of_iff user_id session_id log in
    elim (Bool-cases (entry.user_id == user_id)) [
      | inr other ↦
          rw (sessions_of, filter, contains, other)
            (
              λ h. let (e, i, mine, same) = rest.0 h in (e, inr i, mine, same),
              λ (e, i, mine, same). elim i [
                | inl here ↦ absurd (
                    cc (
                      (==_iff entry.user_id user_id).1 (ap (λ x. x.user_id) (sym here) ∙ mine),
                      other,
                    ))
                | inr later ↦ rest.1 (e, later, mine, same)
              ],
            )
      | inl mine ↦ elim (Bool-cases (session_id == entry.session_id)) [
        | inl here ↦
            rw (sessions_of, filter, mine, contains, here)
              (
                λ _. (
                  entry,
                  inl refl,
                  (==_iff entry.user_id user_id).0 mine,
                  sym ((==_iff session_id entry.session_id).0 here),
                ),
                λ _. refl,
              )
        | inr apart ↦
            rw (sessions_of, filter, mine, contains, apart)
              (
                λ h. let (e, i, his, same) = rest.0 h in (e, inr i, his, same),
                λ (e, i, his, same). elim i [
                  | inl here ↦ absurd (
                      cc (
                        (==_iff session_id entry.session_id).1
                            (sym same ∙ ap (λ x. x.session_id) here),
                        apart,
                      ))
                  | inr later ↦ rest.1 (e, later, his, same)
                ],
              )
      ]
    ]

pub is_orphan_iff :
    (user_id : Text) (log : List SessionLogEntry) (row : StateRow)
    → (is_orphan user_id log row ≡ true) ↔ IsOrphan user_id log row
is_orphan_iff user_id log row =
    let split = both (row.user_id == user_id) (contains (sessions_of user_id log) row.session_id) in
    let user = ==_iff row.user_id user_id in
    let none_left =
      false_iff (contains (sessions_of user_id log) row.session_id)
        (sessions_of_iff user_id row.session_id log) in
    (
      λ h. let (mine, bare) = split.0 h in (user.0 mine, none_left.0 bare),
      λ (mine, bare). split.1 (user.1 mine, none_left.1 bare),
    )
