-- ===== src/Orchestration/Session/Replay/Rows.antt =====
-- The rows that the SELECT of `replaySessionLog` gives.
use mathlib.Core.List.{Perm}
use mathlib.Core.List.Perm
use onetrackmind.Common.{
  true, List, [], ◌∷◌, Text, Text-Eq, text_le, ◌==◌, ==_iff, filter, All, In, ◌≡◌, inl, inr, refl,
  sym, ap, ◌∙◌, Bool-cases,
}
use onetrackmind.Runtime.Sort.{text_le_total, text_le_trans}
use onetrackmind.Orchestration.Session.Store.{SessionLogEntry}
use onetrackmind.Orchestration.Session.Replay.{insert_row, by_timestamp, of_session}

abbrev IsBefore : SessionLogEntry → SessionLogEntry → Type 0
IsBefore a b = text_le a.timestamp b.timestamp ≡ true

abbrev IsAscending : List SessionLogEntry → Type 0
IsAscending [] = Unit
IsAscending (row ∷ rows) = All (IsBefore row) rows × IsAscending rows

-- The entries of the session, each as often as it stands in the log, by ascending timestamps.
abbrev pub IsLogOf : Text → (log rows : List SessionLogEntry) → Type 0
IsLogOf session_id log rows =
    Perm rows (filter (λ row. row.session_id == session_id) log) × IsAscending rows

insert_row-perm :
    (row : SessionLogEntry) (rows : List SessionLogEntry) → Perm (insert_row row rows) (row ∷ rows)
unfolding insert_row
insert_row-perm row [] = Perm.refl (row ∷ [])
insert_row-perm row (next ∷ rest) = elim (Bool-cases (text_le row.timestamp next.timestamp)) [
  | inl before ↦ rw before (Perm.refl _)
  | inr after ↦
      rw after (Perm.trans (Perm.cons next (insert_row-perm row rest)) (Perm.swap row next rest))
]

by_timestamp-perm : (rows : List SessionLogEntry) → Perm (by_timestamp rows) rows
unfolding by_timestamp
by_timestamp-perm [] = Perm.refl []
by_timestamp-perm (row ∷ rows) =
    Perm.trans (insert_row-perm row (by_timestamp rows)) (Perm.cons row (by_timestamp-perm rows))

All-insert_row :
    (P : SessionLogEntry → Type 0) (row : SessionLogEntry) (rows : List SessionLogEntry)
    → P row
    → All P rows
    → All P (insert_row row rows)
unfolding insert_row
All-insert_row P row [] mine rest = (mine, tt)
All-insert_row P row (next ∷ rows) mine (first, rest) =
    elim (Bool-cases (text_le row.timestamp next.timestamp)) [
      | inl before ↦ rw before (mine, (first, rest))
      | inr after ↦ rw after (first, All-insert_row P row rows mine rest)
    ]

All-IsBefore :
    (a b : SessionLogEntry) (rows : List SessionLogEntry)
    → IsBefore a b
    → All (IsBefore b) rows
    → All (IsBefore a) rows
All-IsBefore a b [] h rest = tt
All-IsBefore a b (row ∷ rows) h (first, rest) =
    (text_le_trans a.timestamp b.timestamp row.timestamp h first, All-IsBefore a b rows h rest)

insert_row-IsAscending :
    (row : SessionLogEntry) (rows : List SessionLogEntry)
    → IsAscending rows
    → IsAscending (insert_row row rows)
unfolding insert_row
insert_row-IsAscending row [] up = (tt, tt)
insert_row-IsAscending row (next ∷ rows) (first, up) =
    elim (Bool-cases (text_le row.timestamp next.timestamp)) [
      | inl before ↦ rw before ((before, All-IsBefore row next rows before first), (first, up))
      | inr after ↦ rw after (
        All-insert_row (IsBefore next) row rows (text_le_total row.timestamp next.timestamp after)
            first,
        insert_row-IsAscending row rows up,
      )
    ]

by_timestamp-IsAscending : (rows : List SessionLogEntry) → IsAscending (by_timestamp rows)
unfolding by_timestamp
by_timestamp-IsAscending [] = tt
by_timestamp-IsAscending (row ∷ rows) =
    insert_row-IsAscending row (by_timestamp rows) (by_timestamp-IsAscending rows)

of_session-filter :
    (session_id : Text) (rows : List SessionLogEntry)
    → of_session session_id rows ≡ filter (λ row. row.session_id == session_id) rows
unfolding of_session
of_session-filter session_id [] = refl
of_session-filter session_id (row ∷ rows) = elim (Bool-cases (row.session_id == session_id)) [
  | inl here ↦ rw (of_session, filter, here, of_session-filter session_id rows) refl
  | inr other ↦ rw (of_session, filter, other, of_session-filter session_id rows) refl
]

pub entries-IsLogOf :
    (session_id : Text) (log : List SessionLogEntry)
    → IsLogOf session_id log (by_timestamp (of_session session_id log))
entries-IsLogOf session_id log = (
  rw (← of_session-filter session_id log) (by_timestamp-perm (of_session session_id log)),
  by_timestamp-IsAscending (of_session session_id log),
)

not-insert_row :
    (row : SessionLogEntry) (rows : List SessionLogEntry) → ¬ (insert_row row rows ≡ [])
unfolding insert_row
not-insert_row row [] h = cc h
not-insert_row row (next ∷ rows) h = elim (Bool-cases (text_le row.timestamp next.timestamp)) [
  | inl before ↦ cc (rw (insert_row, before) at h)
  | inr after ↦ cc (rw (insert_row, after) at h)
]

-- A session with an entry has rows.
pub has_rows :
    (session_id : Text) (entry : SessionLogEntry) (log : List SessionLogEntry)
    → In entry log
    → entry.session_id ≡ session_id
    → ¬ (by_timestamp (of_session session_id log) ≡ [])
unfolding by_timestamp of_session
has_rows session_id entry [] i same h = absurd i
has_rows session_id entry (row ∷ log) i same h = elim (Bool-cases (row.session_id == session_id)) [
  | inl here ↦
      not-insert_row row (by_timestamp (of_session session_id log))
        (rw (of_session, here, by_timestamp) at h)
  | inr other ↦ elim i [
    | inl first ↦
        cc ((==_iff row.session_id session_id).1 (ap (λ x. x.session_id) (sym first) ∙ same), other)
    | inr later ↦ has_rows session_id entry log later same (rw (of_session, other) at h)
  ]
]
