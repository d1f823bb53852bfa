-- ===== src/Comms/Idempotency/Trace.antt =====
-- Any sequence of calls of the module: checks and links, each with its own clock, row id and
-- faults.
pub mod Keeps
pub mod Count
pub mod Answers
use onetrackmind.Common.{
  ℕ, zero, suc, ◌+◌, ◌≤◌, Bool, true, false, ◌&&◌, List, [], ◌∷◌, Option, none, some, Text, text,
  Option-cases, ◌==◌, Text-Eq, ==_iff, ◌≡◌, ◌≢◌, refl, arith, ◌⊎◌, inl, inr, if◌then◌else◌,
  Bool-cases, sym,
}
use onetrackmind.Db.Vocabulary.{CommsProvider, CommsProvider-Eq, IdempotencyProvenance}
use onetrackmind.Comms.ContentHash.{compute_content_hash}
use onetrackmind.Comms.Idempotency.Plan.{
  IdempotencyInput, IdempotencyPlan, provider_id_plan, PlanBase, provider_plan, plan_base, plan_for,
  plan_idempotency_check, hashed,
}
use onetrackmind.Comms.Idempotency.Keys.{id_taken, sql_provider_id_duplicate}
use onetrackmind.Comms.Idempotency.World.{
  provider_id_insert, provider_id_conflict_fetch, World, IdempotencyCheckerDeps, IdempotencyResult,
  novel, duplicate, error,
}
use onetrackmind.Comms.Idempotency.Gate.{
  execute_idempotency_plan, execute_provider_id_gate, check_idempotency,
}
use onetrackmind.Comms.Idempotency.Link.{link_idempotency_key}

pub data Call : Type 0 where
  check : IdempotencyInput → IdempotencyCheckerDeps → (now : ℕ) → (uuid : Text) → Call
  link : (key_id message_id : Text) → IdempotencyCheckerDeps → Call

abbrev pub is_novel : IdempotencyResult → Bool
is_novel (novel _ _ _) = true
is_novel _ = false

abbrev pub names_id : Text → Option Text → Bool
names_id value none = false
names_id value (some id) = id == value

-- A check of this message of the provider.
abbrev pub names_message : CommsProvider → Text → IdempotencyInput → Bool
names_message provider value input =
    input.provider == provider && names_id value input.provider_message_id

module _ (sha256 : Text → Text) where
  unfoldable pub after : Call → World → World
  after (check input deps now uuid) w = (check_idempotency sha256 input deps now uuid w).1
  after (link key_id message_id deps) w = (link_idempotency_key key_id message_id deps w).1

  unfoldable pub run : List Call → World → World
  unfolding after
  run [] w = w
  run (c ∷ cs) w = run cs (after c w)

  -- How many of the calls answer `novel` to a check of this message.
  novel_step : CommsProvider → Text → Call → World → ℕ
  novel_step provider value (check input deps now uuid) w =
      if names_message provider value input
        && is_novel (check_idempotency sha256 input deps now uuid w).0
      then 1
      else 0
  novel_step provider value (link key_id message_id deps) w = 0

  unfoldable pub novel_count : CommsProvider → Text → List Call → World → ℕ
  unfolding novel_step after
  novel_count provider value [] w = 0
  novel_count provider value (c ∷ cs) w =
      novel_step provider value c w + novel_count provider value cs (after c w)
