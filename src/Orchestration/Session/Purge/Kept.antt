-- ===== src/Orchestration/Session/Purge/Kept.antt =====
-- What a purge keeps and what it removes.
use onetrackmind.Common.{
  ℕ, Bool, true, false, not, List, Text, Text-Eq, filter, filter-In, In, ◌≡◌, ◌↔◌, ◌⊎◌, inl, inr,
  refl, sym, subst, Option-cases, Bool-cases, arith,
}
use onetrackmind.Orchestration.Session.Store.{
  SessionLogEntry, StateRow, SessionDb, SessionWorld, Faults, count_entries, delete_entries,
  count_states, delete_states,
}
use onetrackmind.Orchestration.Session.Purge.Meaning.{
  IsExpired, IsOrphan, false_iff, is_expired_iff, is_orphan_iff,
}
use onetrackmind.Orchestration.Session.Purge.{
  cutoff_of, is_expired, is_orphan, without_expired, without_orphans, purge_body,
  purge_expired_logs,
}

-- A purge goes a part of the way: not at all, over the log, or over the log and the cache.
abbrev Reached : (user_id cutoff : Text) → SessionDb → SessionDb → Type 0
Reached user_id cutoff db after =
    (after ≡ db)
    ⊎ ((after ≡ without_expired user_id cutoff db)
        ⊎ (after ≡ without_orphans user_id (without_expired user_id cutoff db)))

body-Reached :
    (fault : Faults) (user_id cutoff : Text) (db : SessionDb)
    → Reached user_id cutoff db ((purge_body fault user_id cutoff db).2)
unfolding purge_body
body-Reached fault user_id cutoff db = elim (Option-cases (fault count_entries)) [
  | inr (e, bad) ↦ rw (purge_body, bad) (inl refl)
  | inl fine1 ↦ elim (Option-cases (fault delete_entries)) [
    | inr (e, bad) ↦ rw (purge_body, fine1, bad) (inl refl)
    | inl fine2 ↦ elim (Option-cases (fault count_states)) [
      | inr (e, bad) ↦ rw (purge_body, fine1, fine2, bad) (inr (inl refl))
      | inl fine3 ↦ elim (Option-cases (fault delete_states)) [
        | inr (e, bad) ↦ rw (purge_body, fine1, fine2, fine3, bad) (inr (inl refl))
        | inl fine4 ↦ rw (purge_body, fine1, fine2, fine3, fine4) (inr (inr refl))
      ]
    ]
  ]
]

not-false : (b : Bool) → (not b ≡ true) ↔ (b ≡ false)
not-false b = ground arith

kept-In :
    {A : Type 0} (p : A → Bool) (a : A) (xs : List A)
    → In a (filter (λ x. not (p x)) xs) ↔ (In a xs × (p a ≡ false))
kept-In p a xs = (
  λ i.
      let (there, kept) = (filter-In (λ x. not (p x)) a xs).0 i in
      (there, (not-false (p a)).0 kept),
  λ (i, kept). (filter-In (λ x. not (p x)) a xs).1 (i, (not-false (p a)).1 kept),
)

-- The rows that a DELETE leaves, by what its condition means.
pub left-In :
    {A P : Type 0} (p : A → Bool) (a : A) (xs : List A)
    → (p a ≡ true) ↔ P
    → In a (filter (λ x. not (p x)) xs) ↔ (In a xs × (¬ P))
left-In p a xs means =
    let kept = kept-In p a xs in
    let unmeant = false_iff (p a) means in
    (
      λ i. let (there, stays) = kept.0 i in (there, unmeant.0 stays),
      λ (there, unfit). kept.1 (there, unmeant.1 unfit),
    )

-- Nothing is added, and what is lost is expired or orphaned.
abbrev pub IsKept : (user_id cutoff : Text) → SessionDb → SessionDb → Type 0
IsKept user_id cutoff db after =
    ((row : SessionLogEntry)
      → (In row after.session_log → In row db.session_log)
        × (In row db.session_log → IsExpired user_id cutoff row ⊎ In row after.session_log))
    × ((row : StateRow)
        → (In row after.session_states → In row db.session_states)
          × (In row db.session_states
              → IsOrphan user_id after.session_log row ⊎ In row after.session_states))

-- What a filter loses is what its predicate means.
filter-sides :
    {A P : Type 0} (p : A → Bool) (a : A) (xs : List A)
    → (p a ≡ true) ↔ P
    → (In a (filter (λ x. not (p x)) xs) → In a xs)
      × (In a xs → P ⊎ In a (filter (λ x. not (p x)) xs))
filter-sides p a xs means = (
  λ i. ((kept-In p a xs).0 i).0,
  λ i. elim (Bool-cases (p a)) [
    | inl lost ↦ inl (means.0 lost)
    | inr kept ↦ inr ((kept-In p a xs).1 (i, kept))
  ],
)

Reached-IsKept :
    (user_id cutoff : Text) (db after : SessionDb)
    → Reached user_id cutoff db after
    → IsKept user_id cutoff db after
Reached-IsKept user_id cutoff db after (inl none_yet) =
    subst (IsKept user_id cutoff db) (sym none_yet)
      (λ row. (λ i. i, λ i. inr i), λ row. (λ i. i, λ i. inr i))
Reached-IsKept user_id cutoff db after (inr (inl log_only)) =
    subst (IsKept user_id cutoff db) (sym log_only) (
      λ row.
          filter-sides (is_expired user_id cutoff) row db.session_log
            (is_expired_iff user_id cutoff row),
      λ row. (λ i. i, λ i. inr i),
    )
Reached-IsKept user_id cutoff db after (inr (inr both)) =
    let log = (without_expired user_id cutoff db).session_log in
    subst (IsKept user_id cutoff db) (sym both) (
      λ row.
          filter-sides (is_expired user_id cutoff) row db.session_log
            (is_expired_iff user_id cutoff row),
      λ row.
          filter-sides (is_orphan user_id log) row db.session_states
            (is_orphan_iff user_id log row),
    )

-- Whatever statements fail, a purge adds nothing, and every entry that it removes is an expired entry
-- of the user, and every cached state that it removes is one of the user without entries.
pub purge_expired_logs-IsKept :
    (fault : Faults) (user_id : Text) (retention_days now : ℕ) (w : SessionWorld)
    → IsKept user_id
        (cutoff_of retention_days now)
        w.db
        ((purge_expired_logs fault user_id retention_days now w).1.db)
unfolding purge_expired_logs
purge_expired_logs-IsKept fault user_id retention_days now w =
    let cutoff = cutoff_of retention_days now in
    Reached-IsKept user_id cutoff w.db _ (body-Reached fault user_id cutoff w.db)
