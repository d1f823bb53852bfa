-- ===== src/Comms/Idempotency/Trace/Answers.antt =====
-- What a check of a named message answers.
use onetrackmind.Common.{ℕ, true, false, List, none, Text, text, Text-Eq, ◌≡◌, ◌≢◌, refl}
use onetrackmind.Db.Vocabulary.{CommsProvider, CommsProvider-Eq, IdempotencyProvenance}
use onetrackmind.Comms.ContentHash.{compute_content_hash}
use onetrackmind.Comms.Idempotency.Plan.{IdempotencyInput, hashed}
use onetrackmind.Comms.Idempotency.Keys.{id_taken, sql_provider_id_duplicate}
use onetrackmind.Comms.Idempotency.World.{
  provider_id_insert, provider_id_conflict_fetch, World, IdempotencyCheckerDeps, novel,
}
use onetrackmind.Comms.Idempotency.Gate.{execute_idempotency_plan, check_idempotency}
use onetrackmind.Comms.Idempotency.Gate.Once.{answer_for, execute-answer_for, IsRepeat}
use onetrackmind.Comms.Idempotency.Trace.{Call, check, names_message, after, run}
use onetrackmind.Comms.Idempotency.Trace.Keeps.{
  plan_named, check-IsRepeat, check_novel-Known, run-Known,
}

module _ (sha256 : Text → Text) (provider : CommsProvider) (value : Text)
    (given : value ≢ text "") where
  -- After a novel answer with the id `key_id` to a message with a non-empty id, and any calls of the
  -- module, a check of the same message of the provider is a duplicate of the row `key_id`, or an error.
  pub redelivery-IsRepeat :
      (input again : IdempotencyInput) (deps deps' : IdempotencyCheckerDeps) (now later : ℕ)
      (uuid uuid' : Text) (w : World) (p : IdempotencyProvenance) (hash key_id : Text)
      (between : List Call)
      → names_message provider value input ≡ true
      → names_message provider value again ≡ true
      → (check_idempotency sha256 input deps now uuid w).0 ≡ novel p hash key_id
      → IsRepeat key_id
          (check_idempotency sha256 again deps' later uuid'
            (run sha256 between (after sha256 (check input deps now uuid) w))).0
  unfolding after
  redelivery-IsRepeat input again deps deps' now later uuid uuid' w p hash key_id between named
        named' h =
      check-IsRepeat sha256 provider value given again deps' later key_id uuid' _ named' (
        run-Known sha256 provider value given between _ key_id (
          check_novel-Known sha256 provider value given input deps now uuid w p hash key_id named
            h))

  -- With a driver that does not fail and a fresh row id, the answer to a message with a non-empty id is
  -- decided by the first key of this message in the table: `novel` if there is none, and else its
  -- duplicate, with the message that the key is linked to.
  pub check-answer_for :
      (input : IdempotencyInput) (deps : IdempotencyCheckerDeps) (now : ℕ) (uuid : Text) (w : World)
      → names_message provider value input ≡ true
      → deps.fault provider_id_insert ≡ none
      → deps.fault provider_id_conflict_fetch ≡ none
      → id_taken uuid w.db.idempotency_keys ≡ false
      → (check_idempotency sha256 input deps now uuid w).0
        ≡ answer_for
            (compute_content_hash sha256 (hashed input))
            uuid
            (sql_provider_id_duplicate provider value w.db.idempotency_keys)
  unfolding check_idempotency execute_idempotency_plan
  check-answer_for input deps now uuid w named f g fresh =
      rw (plan_named sha256 provider value given input now named)
        (execute-answer_for _ deps uuid w refl f g fresh)
