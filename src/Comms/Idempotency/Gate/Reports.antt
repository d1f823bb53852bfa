-- ===== src/Comms/Idempotency/Gate/Reports.antt =====
-- What every answer of the gate says of the database and of the diagnostic events.
use onetrackmind.Common.{
  ℕ, [], ◌∷◌, ◌++◌, Option, none, some, Text, text, ◌≡◌, refl, arith, inl, inr,
}
use onetrackmind.Common.Results.{Thrown, Throws, returns, throws, unless_fault}
use onetrackmind.Db.Vocabulary.{IdempotencyProvenance}
use onetrackmind.Db.Mapping.IdempotencyKeys.{IdempotencyKeyRow, idempotency_keys_to_db}
use onetrackmind.Comms.Effects.{DiagnosticSeverity}
use onetrackmind.Comms.Idempotency.Plan.{
  IdempotencyInput, FallbackDegradation, no_provider_message_id, empty_provider_message_id,
  PlanBase, IdempotencyPlan, provider_id_plan, content_hash_plan, plan_idempotency_check, plan_base,
}
use onetrackmind.Comms.Idempotency.Keys.Laws.{
  sql_provider_id_gate_cases, sql_content_hash_insert_cases,
}
use onetrackmind.Comms.Idempotency.Keys.{
  DuplicateRow, sql_provider_id_gate, sql_content_hash_insert,
}
use onetrackmind.Comms.Idempotency.World.{
  IdempotencyOp, op_text, IdempotencyDiagnosticEvent, World, IdempotencyCheckerDeps,
  IdempotencyResult, novel, duplicate, error, set_keys, provider_id_insert, content_hash_insert,
}
use onetrackmind.Comms.Idempotency.Gate.{
  new_key_row, gate_failure, provider_id_fetched, provider_id_inserted, content_hash_inserted,
  content_hash_selected, execute_provider_id_gate, execute_content_hash_gate,
  execute_idempotency_plan, check_idempotency, warn_degraded,
}

-- The table after one more insertion.
abbrev pub Added : World → IdempotencyKeyRow → World → Type 0
Added w row w' = w'.db ≡ (set_keys (w.db.idempotency_keys ++ row ∷ []) w).db

-- One critical event, whose operation and detail make up the reason.
abbrev pub Emitted : World → (reason : Text) → World → Type 0
Emitted w reason w' =
    (event : IdempotencyDiagnosticEvent) × (w'.events ≡ w.events ++ event ∷ [])
    × (event.severity ≡ DiagnosticSeverity.critical)
    × (reason ≡ op_text event.op ++ (text ": " ++ event.detail))

abbrev pub Reported : World → PlanBase → (uuid : Text) → IdempotencyResult × World → Type 0
Reported w plan uuid (novel _ hash id, w') =
    Added w (new_key_row plan uuid) w' × (id ≡ uuid) × (w'.events ≡ w.events)
Reported w plan uuid (duplicate _ hash matched link, w') = (w'.db ≡ w.db) × (w'.events ≡ w.events)
Reported w plan uuid (error _ hash reason, w') = (w'.db ≡ w.db) × Emitted w reason w'

gate_failure-Reported :
    (deps : IdempotencyCheckerDeps) (provenance : IdempotencyProvenance) (plan : PlanBase)
    (uuid : Text) (op : IdempotencyOp) (error_class detail : Text) (w : World)
    → Reported w plan uuid (gate_failure deps provenance plan op error_class detail w)
unfolding gate_failure
gate_failure-Reported deps provenance plan uuid op error_class detail w = (
  ground arith,
  (
    record {
      op = op;
      severity = DiagnosticSeverity.critical;
      provider = some plan.provider;
      error_class = error_class;
      detail = detail;
    },
    ground arith,
    refl,
    refl,
  ),
)

provider_id_fetched-Reported :
    (deps : IdempotencyCheckerDeps) (plan : PlanBase) (uuid : Text) (w : World)
    (found : Throws Thrown (Option DuplicateRow))
    → Reported w plan uuid (provider_id_fetched deps plan w found)
unfolding provider_id_fetched
provider_id_fetched-Reported deps plan uuid w (throws e) =
    gate_failure-Reported deps _ plan uuid _ _ _ w
provider_id_fetched-Reported deps plan uuid w (returns none) =
    gate_failure-Reported deps _ plan uuid _ _ _ w
provider_id_fetched-Reported deps plan uuid w (returns (some row)) = (refl, refl)

provider_id_inserted-Reported :
    (deps : IdempotencyCheckerDeps) (plan : PlanBase) (uuid : Text) (w : World)
    (fault : Option Thrown)
    → Reported w plan uuid (
        provider_id_inserted deps plan w
          (unless_fault fault (sql_provider_id_gate (new_key_row plan uuid) w.db.idempotency_keys)))
unfolding provider_id_inserted idempotency_keys_to_db
provider_id_inserted-Reported deps plan uuid w (some e) =
    gate_failure-Reported deps _ plan uuid _ _ _ w
provider_id_inserted-Reported deps plan uuid w none =
    elim (sql_provider_id_gate_cases (new_key_row plan uuid) w.db.idempotency_keys) [
      | inl (e, thrown) ↦ rw thrown (gate_failure-Reported deps _ plan uuid _ _ _ w)
      | inr (inl absorbed) ↦ rw absorbed (provider_id_fetched-Reported deps plan uuid w _)
      | inr (inr stored) ↦ rw stored (refl, refl, refl)
    ]

content_hash_inserted-Reported :
    (deps : IdempotencyCheckerDeps) (plan : PlanBase) (uuid : Text) (w : World)
    (fault : Option Thrown)
    → Reported w plan uuid (
        content_hash_inserted deps plan uuid w (
          unless_fault fault
            (sql_content_hash_insert (new_key_row plan uuid) w.db.idempotency_keys)))
unfolding content_hash_inserted
content_hash_inserted-Reported deps plan uuid w (some e) =
    gate_failure-Reported deps _ plan uuid _ _ _ w
content_hash_inserted-Reported deps plan uuid w none =
    elim (sql_content_hash_insert_cases (new_key_row plan uuid) w.db.idempotency_keys) [
      | inl (e, thrown) ↦ rw thrown (gate_failure-Reported deps _ plan uuid _ _ _ w)
      | inr stored ↦ rw stored (refl, refl, refl)
    ]

content_hash_selected-Reported :
    (deps : IdempotencyCheckerDeps) (plan : PlanBase) (uuid : Text) (w : World)
    (found : Throws Thrown (Option DuplicateRow))
    → Reported w plan uuid (content_hash_selected deps plan uuid w found)
unfolding content_hash_selected
content_hash_selected-Reported deps plan uuid w (throws e) =
    gate_failure-Reported deps _ plan uuid _ _ _ w
content_hash_selected-Reported deps plan uuid w (returns (some row)) = (refl, refl)
content_hash_selected-Reported deps plan uuid w (returns none) =
    content_hash_inserted-Reported deps plan uuid w (deps.fault content_hash_insert)

-- The line about an empty provider id goes to the Logger alone.
warn_degraded-Reported :
    (degradation : FallbackDegradation) (plan : PlanBase) (uuid : Text) (w : World)
    (answer : IdempotencyResult × World)
    → Reported (warn_degraded degradation plan w) plan uuid answer
    → Reported w plan uuid answer
warn_degraded-Reported no_provider_message_id plan uuid w answer r = r
warn_degraded-Reported empty_provider_message_id plan uuid w (novel _ _ _, w') r = r
warn_degraded-Reported empty_provider_message_id plan uuid w (duplicate _ _ _ _, w') r = r
warn_degraded-Reported empty_provider_message_id plan uuid w (error _ _ _, w') r = r

pub execute-Reported :
    (plan : IdempotencyPlan) (deps : IdempotencyCheckerDeps) (uuid : Text) (w : World)
    → Reported w (plan_base plan) uuid (execute_idempotency_plan plan deps uuid w)
unfolding execute_idempotency_plan execute_provider_id_gate execute_content_hash_gate
execute-Reported (provider_id_plan plan) deps uuid w =
    provider_id_inserted-Reported deps plan uuid w (deps.fault provider_id_insert)
execute-Reported (content_hash_plan plan low degradation) deps uuid w =
    warn_degraded-Reported degradation plan uuid w _
      (content_hash_selected-Reported deps plan uuid (warn_degraded degradation plan w) _)

-- Whatever fails, and whatever the emitter does: a novel answer adds the one new row, whose id it
-- gives, and emits nothing; a duplicate changes nothing and emits nothing; an error leaves the
-- database as it was and emits one critical event, whose operation and detail are the reason.
pub check_idempotency-Reported :
    (sha256 : Text → Text) (input : IdempotencyInput) (deps : IdempotencyCheckerDeps) (now : ℕ)
    (uuid : Text) (w : World)
    → Reported w
        (plan_base (plan_idempotency_check sha256 input now))
        uuid
        (check_idempotency sha256 input deps now uuid w)
unfolding check_idempotency
check_idempotency-Reported sha256 input deps now uuid w =
    execute-Reported (plan_idempotency_check sha256 input now) deps uuid w
