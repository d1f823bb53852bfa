-- ===== src/Comms/Idempotency/Gate/Sightings.antt =====
-- The answer of the content-hash gate, by the sightings of the hash in the last ten minutes.
use onetrackmind.Common.{
  ℕ, ◌-◌, ◌<◌, true, false, List, [], ◌∷◌, Option, none, some, Text, text, text_le, ==_refl,
  Text-Eq, ◌≡◌, refl, arith, ◌⊎◌, inl, inr, All, In, Option-cases,
}
use onetrackmind.Common.Results.{returns}
use onetrackmind.Runtime.Date.{to_iso_string, max_ms}
use onetrackmind.Db.Vocabulary.{content_hash, content_hash_fallback}
use onetrackmind.Db.Constraints.Dedup.{dedup_window_ms}
use onetrackmind.Db.Mapping.IdempotencyKeys.{IdempotencyKeyRow, idempotency_keys_to_db}
use onetrackmind.Comms.ContentHash.{compute_content_hash}
use onetrackmind.Comms.Idempotency.Plan.{
  IdempotencyInput, FallbackDegradation, PlanBase, no_provider_message_id,
  empty_provider_message_id, plan_for, fallback_plan, plan_base, plan_idempotency_check, hashed,
}
use onetrackmind.Comms.Idempotency.Keys.{
  as_duplicate, id_taken, is_in_window, best_in_window, sql_content_hash_window,
}
use onetrackmind.Comms.Idempotency.Keys.Laws.{insert_fresh}
use onetrackmind.Comms.Idempotency.World.{
  World, IdempotencyCheckerDeps, IdempotencyResult, novel, duplicate, content_hash_select,
  content_hash_insert,
}
use onetrackmind.Comms.Idempotency.Gate.{
  new_key_row, content_hash_selected, content_hash_inserted, execute_content_hash_gate,
  execute_idempotency_plan, check_idempotency,
}
use onetrackmind.Comms.Idempotency.Gate.Window.{
  IsTimed, IsSighting, in_window-IsSighting, sighting-is_in_window,
}
use onetrackmind.Comms.Idempotency.Gate.Latest.{best-In, best-none, All-In, IsLatest, best-IsLatest}

abbrev pub window_answer : (hash uuid : Text) → Option IdempotencyKeyRow → IdempotencyResult
window_answer hash uuid none = novel content_hash_fallback hash uuid
window_answer hash uuid (some row) =
    duplicate content_hash_fallback hash row.id row.linked_message_id

-- The message has no id, or an empty one.
abbrev pub IsUnnamed : IdempotencyInput → Type 0
IsUnnamed input = (input.provider_message_id ≡ none) ⊎ (input.provider_message_id ≡ some (text ""))

-- The window's query and the insert, both without a fault.
selected-window_answer :
    (plan : PlanBase) (deps : IdempotencyCheckerDeps) (uuid : Text) (w : World)
    (best : Option IdempotencyKeyRow)
    → plan.key_type ≡ content_hash
    → deps.fault content_hash_insert ≡ none
    → id_taken uuid w.db.idempotency_keys ≡ false
    → (content_hash_selected deps plan uuid w (returns (as_duplicate best))).0
      ≡ window_answer plan.content_hash uuid best
unfolding content_hash_selected content_hash_inserted idempotency_keys_to_db
selected-window_answer plan deps uuid w none keyed f fresh =
    rw (f, insert_fresh (new_key_row plan uuid) w.db.idempotency_keys keyed fresh)
selected-window_answer plan deps uuid w (some row) keyed f fresh = refl

gate-window_answer :
    (plan : PlanBase) (low : Text) (degradation : FallbackDegradation)
    (deps : IdempotencyCheckerDeps) (uuid : Text) (w : World)
    → plan.key_type ≡ content_hash
    → deps.fault content_hash_select ≡ none
    → deps.fault content_hash_insert ≡ none
    → id_taken uuid w.db.idempotency_keys ≡ false
    → (execute_content_hash_gate plan low degradation deps uuid w).0
      ≡ window_answer plan.content_hash uuid
          (best_in_window plan.key_value low plan.first_seen_at w.db.idempotency_keys)
unfolding execute_content_hash_gate sql_content_hash_window
gate-window_answer plan low no_provider_message_id deps uuid w keyed f g fresh =
    rw f (selected-window_answer plan deps uuid w _ keyed g fresh)
gate-window_answer plan low empty_provider_message_id deps uuid w keyed f g fresh =
    rw f (selected-window_answer plan deps uuid _ _ keyed g fresh)

plan_unnamed :
    (sha256 : Text → Text) (input : IdempotencyInput) (now : ℕ)
    → IsUnnamed input
    → (degradation : FallbackDegradation) × (plan_idempotency_check sha256 input now
        ≡ fallback_plan input.provider (compute_content_hash sha256 (hashed input)) now degradation)
unfolding plan_idempotency_check plan_for
plan_unnamed sha256 input now (inl absent) = (no_provider_message_id, rw absent)
plan_unnamed sha256 input now (inr empty) =
    (empty_provider_message_id, rw (empty, ==_refl (text "")))

module _ (hash : Text) (now : ℕ) (small : now < max_ms) where
  abbrev low : Text
  low = to_iso_string (now - dedup_window_ms)

  abbrev high : Text
  high = to_iso_string now

  no-IsSighting :
      (rows : List IdempotencyKeyRow)
      → All (λ row. is_in_window hash low high row ≡ false) rows
      → All (λ row. ¬ IsSighting hash now row) rows
  no-IsSighting [] none_there = tt
  no-IsSighting (row ∷ rows) (outside, none_there) = (
    λ sighted. ground (arith, sighting-is_in_window hash now row small sighted),
    no-IsSighting rows none_there,
  )

  latest-IsSighting :
      (best : IdempotencyKeyRow) (rows : List IdempotencyKeyRow)
      → IsLatest hash low high best rows
      → All
          (λ row. IsSighting hash now row → text_le row.first_seen_at best.first_seen_at ≡ true)
          rows
  latest-IsSighting best [] latest = tt
  latest-IsSighting best (row ∷ rows) (here, latest) = (
    λ sighted. here (sighting-is_in_window hash now row small sighted),
    latest-IsSighting best rows latest,
  )

-- The answers that the sightings of a hash allow.
abbrev pub IsWindowAnswer :
    Text → ℕ → (uuid : Text) → List IdempotencyKeyRow → IdempotencyResult → Type 0
IsWindowAnswer hash now uuid rows answer =
    ((answer ≡ novel content_hash_fallback hash uuid) × All (λ row. ¬ IsSighting hash now row) rows)
    ⊎ ((best : IdempotencyKeyRow) × In best rows
        × IsSighting hash now best
        × (answer ≡ duplicate content_hash_fallback hash best.id best.linked_message_id)
        × All (λ row. IsSighting hash now row → text_le row.first_seen_at best.first_seen_at ≡ true)
            rows)

answered :
    (hash : Text) (now : ℕ)
    → now < max_ms
    → (uuid : Text) (rows : List IdempotencyKeyRow) → All IsTimed rows
    → IsWindowAnswer hash now uuid rows (
        window_answer hash uuid
          (best_in_window hash (to_iso_string (now - dedup_window_ms)) (to_iso_string now) rows))
answered hash now small uuid rows timed =
    elim (Option-cases
      (best_in_window hash (to_iso_string (now - dedup_window_ms)) (to_iso_string now) rows)) [
        | inl unseen ↦
            inl (rw unseen, no-IsSighting hash now small rows (best-none hash _ _ rows unseen))
        | inr (best, found) ↦
            let (there, inside) = best-In hash _ _ rows best found in
            inr (
              best,
              there,
              in_window-IsSighting hash now best small (All-In IsTimed best rows timed there)
                  inside,
              rw found,
              latest-IsSighting hash now small best rows
                  (best-IsLatest hash _ _ rows best timed found),
            )
      ]

-- The content-hash gate on a message without an id or with an empty one, before the year 10000, with
-- a driver that does not fail, a fresh row id and a table whose rows the clock wrote before that year:
-- the answer is `novel` and no row of this hash was first seen in the ten minutes up to now, or it is
-- the duplicate of such a row, than which none was seen later.
pub check-IsWindowAnswer :
    (sha256 : Text → Text) (input : IdempotencyInput) (deps : IdempotencyCheckerDeps) (now : ℕ)
    (uuid : Text) (w : World)
    → IsUnnamed input
    → now < max_ms
    → All IsTimed w.db.idempotency_keys
    → deps.fault content_hash_select ≡ none
    → deps.fault content_hash_insert ≡ none
    → id_taken uuid w.db.idempotency_keys ≡ false
    → IsWindowAnswer
        (compute_content_hash sha256 (hashed input))
        now
        uuid
        w.db.idempotency_keys
        (check_idempotency sha256 input deps now uuid w).0
unfolding check_idempotency execute_idempotency_plan
check-IsWindowAnswer sha256 input deps now uuid w unnamed small timed f g fresh =
    let (degradation, planned) = plan_unnamed sha256 input now unnamed in
    let hash = compute_content_hash sha256 (hashed input) in
    let gate =
      gate-window_answer (plan_base (fallback_plan input.provider hash now degradation))
        (to_iso_string (now - dedup_window_ms)) degradation deps uuid w refl f g fresh in
    rw (planned, gate) (answered hash now small uuid w.db.idempotency_keys timed)
