-- ===== src/Comms/Idempotency/Gate/Once.antt =====
-- What the gate does to a provider's key that is known, and to one that is not.
use onetrackmind.Common.{
  ℕ, false, List, Option, none, some, Text, Text-Eq, ◌≡◌, ◌≢◌, refl, sym, ap, arith, inl, inr,
  Bool-cases, Option-cases,
}
use onetrackmind.Common.Results.{Thrown, Throws, returns, throws, unless_fault}
use onetrackmind.Db.Vocabulary.{
  CommsProvider, CommsProvider-Eq, IdempotencyProvenance, IdempotencyKeyType,
}
use onetrackmind.Db.Mapping.IdempotencyKeys.{IdempotencyKeyRow, idempotency_keys_to_db}
use onetrackmind.Comms.Idempotency.Plan.{
  IdempotencyInput, PlanBase, plan_base, plan_idempotency_check,
}
use onetrackmind.Comms.Idempotency.Keys.{
  DuplicateRow, duplicate_row, id_taken, sql_provider_id_gate, sql_provider_id_duplicate,
}
use onetrackmind.Comms.Idempotency.Keys.Laws.{
  duplicate-append, gate_known, gate_unknown, gate_inserted, gate_taken,
}
use onetrackmind.Comms.Idempotency.World.{
  World, IdempotencyCheckerDeps, IdempotencyResult, novel, duplicate, error, set_keys,
  provider_id_insert, provider_id_conflict_fetch,
}
use onetrackmind.Comms.Idempotency.Gate.{
  new_key_row, gate_failure, provider_id_fetched, provider_id_inserted, execute_provider_id_gate,
  check_idempotency,
}
use onetrackmind.Comms.Idempotency.Gate.Reports.{Reported, check_idempotency-Reported}

-- The first key of the provider's message id has this row id.
abbrev pub Known : CommsProvider → Text → (key_id : Text) → World → Type 0
Known provider value key_id w =
    (found : DuplicateRow) × (sql_provider_id_duplicate provider value w.db.idempotency_keys
      ≡ some found)
    × (found.id ≡ key_id)

-- A plan for this key of the provider.
abbrev pub KeyPlan : CommsProvider → Text → PlanBase → Type 0
KeyPlan provider value plan =
    (plan.provider ≡ provider)
    × (plan.key_value ≡ value)
    × (plan.key_type ≡ IdempotencyKeyType.provider_id)

-- No answer but an error or a duplicate of that key.
abbrev pub IsRepeat : (key_id : Text) → IdempotencyResult → Type 0
IsRepeat key_id (novel _ _ _) = ⊥
IsRepeat key_id (duplicate _ _ matched _) = matched ≡ key_id
IsRepeat key_id (error _ _ _) = Unit

-- A key that is known stays a duplicate of its first row, or the check fails.
pub execute-IsRepeat :
    (plan : PlanBase) (deps : IdempotencyCheckerDeps) (key_id uuid : Text) (w : World)
    → plan.key_type ≡ IdempotencyKeyType.provider_id
    → Known plan.provider plan.key_value key_id w
    → IsRepeat key_id (execute_provider_id_gate plan deps uuid w).0
unfolding execute_provider_id_gate provider_id_inserted provider_id_fetched gate_failure
    idempotency_keys_to_db
execute-IsRepeat plan deps key_id uuid w keyed (found, there, same) =
    elim (Option-cases (deps.fault provider_id_insert)) [
      | inr (e, fault) ↦ ground arith
      | inl sound ↦ elim (Bool-cases (id_taken uuid w.db.idempotency_keys)) [
        | inl taken ↦ ground (arith, gate_taken (new_key_row plan uuid) w.db.idempotency_keys)
        | inr fresh ↦ ground (
          arith,
          gate_known (new_key_row plan uuid) w.db.idempotency_keys keyed found there fresh,
        )
      ]
    ]

abbrev Stores : PlanBase → Throws Thrown (Option Text × List IdempotencyKeyRow) → Type 0
Stores plan outcome =
    (id : Text) (rows : List IdempotencyKeyRow)
    → outcome ≡ returns (some id, rows)
    → (found : DuplicateRow) × (sql_provider_id_duplicate plan.provider plan.key_value rows
        ≡ some found)
      × (found.id ≡ id)

fetched-ne-novel :
    (plan : PlanBase) (deps : IdempotencyCheckerDeps) (w : World)
    (outcome : Throws Thrown (Option DuplicateRow)) (p : IdempotencyProvenance) (hash key_id : Text)
    → (provider_id_fetched deps plan w outcome).0 ≢ novel p hash key_id
unfolding provider_id_fetched gate_failure
fetched-ne-novel plan deps w (throws e) p hash key_id h = cc
fetched-ne-novel plan deps w (returns none) p hash key_id h = cc
fetched-ne-novel plan deps w (returns (some row)) p hash key_id h = cc

inserted-Known :
    (plan : PlanBase) (deps : IdempotencyCheckerDeps) (w : World)
    (outcome : Throws Thrown (Option Text × List IdempotencyKeyRow)) (p : IdempotencyProvenance)
    (hash key_id : Text)
    → Stores plan outcome
    → (provider_id_inserted deps plan w outcome).0 ≡ novel p hash key_id
    → Known plan.provider plan.key_value key_id (provider_id_inserted deps plan w outcome).1
unfolding provider_id_inserted gate_failure
inserted-Known plan deps w (throws e) p hash key_id stores h = absurd (cc)
inserted-Known plan deps w (returns (none, rows)) p hash key_id stores h =
    absurd (fetched-ne-novel plan deps (set_keys rows w) _ p hash key_id h)
inserted-Known plan deps w (returns (some id, rows)) p hash key_id stores h =
    let (found, there, same) = stores id rows refl in (found, there, cc)

gate-Stores :
    (plan : PlanBase) (uuid : Text) (rows : List IdempotencyKeyRow) (fault : Option Thrown)
    → plan.key_type ≡ IdempotencyKeyType.provider_id
    → Stores plan (unless_fault fault (sql_provider_id_gate (new_key_row plan uuid) rows))
unfolding idempotency_keys_to_db
gate-Stores plan uuid rows (some e) keyed id rows' h = absurd (cc)
gate-Stores plan uuid rows none keyed id rows' h =
    let (same, there) = gate_inserted (new_key_row plan uuid) rows keyed id rows' h in
    (duplicate_row (new_key_row plan uuid), there, sym same)

-- A novel answer makes the key known, by the id that it gives.
pub execute-Known :
    (plan : PlanBase) (deps : IdempotencyCheckerDeps) (uuid : Text) (w : World)
    (p : IdempotencyProvenance) (hash key_id : Text)
    → plan.key_type ≡ IdempotencyKeyType.provider_id
    → (execute_provider_id_gate plan deps uuid w).0 ≡ novel p hash key_id
    → Known plan.provider plan.key_value key_id (execute_provider_id_gate plan deps uuid w).1
unfolding execute_provider_id_gate
execute-Known plan deps uuid w p hash key_id keyed h =
    inserted-Known plan deps w _ p hash key_id
      (gate-Stores plan uuid w.db.idempotency_keys (deps.fault provider_id_insert) keyed) h

-- Nothing that the gate does makes a known key unknown.
pub check-Known :
    (sha256 : Text → Text) (input : IdempotencyInput) (deps : IdempotencyCheckerDeps) (now : ℕ)
    (uuid : Text) (w : World) (provider : CommsProvider) (value key_id : Text)
    → Known provider value key_id w
    → Known provider value key_id (check_idempotency sha256 input deps now uuid w).1
check-Known sha256 input deps now uuid w provider value key_id known =
    keep _ (check_idempotency-Reported sha256 input deps now uuid w)
  where
    keep :
        (answer : IdempotencyResult × World)
        → Reported w (plan_base (plan_idempotency_check sha256 input now)) uuid answer
        → Known provider value key_id answer.1
    keep (novel _ _ _, w') (added, _, _) =
        let (found, there, same) = known in
        (
          found,
          rw (ap (λ db. db.idempotency_keys) added)
              (duplicate-append provider value w.db.idempotency_keys _ found there),
          same,
        )
    keep (duplicate _ _ _ _, w') (kept, _) = rw kept known
    keep (error _ _ _, w') (kept, _) = rw kept known

-- The answer that the first row under the key calls for.
abbrev pub answer_for : (hash uuid : Text) → Option DuplicateRow → IdempotencyResult
answer_for hash uuid none = novel IdempotencyProvenance.provider_id hash uuid
answer_for hash uuid (some found) =
    duplicate IdempotencyProvenance.provider_id hash found.id found.linked_message_id

pub execute-answer_for :
    (plan : PlanBase) (deps : IdempotencyCheckerDeps) (uuid : Text) (w : World)
    → plan.key_type ≡ IdempotencyKeyType.provider_id
    → deps.fault provider_id_insert ≡ none
    → deps.fault provider_id_conflict_fetch ≡ none
    → id_taken uuid w.db.idempotency_keys ≡ false
    → (execute_provider_id_gate plan deps uuid w).0
      ≡ answer_for plan.content_hash uuid
          (sql_provider_id_duplicate plan.provider plan.key_value w.db.idempotency_keys)
unfolding execute_provider_id_gate provider_id_inserted provider_id_fetched idempotency_keys_to_db
execute-answer_for plan deps uuid w keyed f g fresh =
    elim (Option-cases
      (sql_provider_id_duplicate plan.provider plan.key_value w.db.idempotency_keys)) [
        | inl unknown ↦
            ground (
              arith,
              gate_unknown (new_key_row plan uuid) w.db.idempotency_keys keyed unknown fresh,
            )
        | inr (found, there) ↦ ground (
          arith,
          gate_known (new_key_row plan uuid) w.db.idempotency_keys keyed found there fresh,
        )
      ]
