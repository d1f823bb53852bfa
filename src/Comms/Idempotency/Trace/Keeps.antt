-- ===== src/Comms/Idempotency/Trace/Keeps.antt =====
-- A known key stays known, and what a check of its message answers then.
use onetrackmind.Common.{
  ℕ, true, List, [], ◌∷◌, Text, text, Option-cases, Text-Eq, ==_iff, ◌≡◌, ◌≢◌, refl, arith, inl,
  inr,
}
use onetrackmind.Db.Vocabulary.{CommsProvider, CommsProvider-Eq, IdempotencyProvenance}
use onetrackmind.Comms.ContentHash.{compute_content_hash}
use onetrackmind.Comms.Idempotency.Plan.{
  IdempotencyInput, provider_plan, plan_for, plan_idempotency_check, hashed,
}
use onetrackmind.Comms.Idempotency.World.{
  World, IdempotencyCheckerDeps, IdempotencyResult, novel, duplicate, error,
}
use onetrackmind.Comms.Idempotency.Gate.{execute_idempotency_plan, check_idempotency}
use onetrackmind.Comms.Idempotency.Gate.Once.{
  Known, IsRepeat, execute-IsRepeat, execute-Known, check-Known,
}
use onetrackmind.Comms.Idempotency.Link.Laws.{link-Known}
use onetrackmind.Comms.Idempotency.Trace.{Call, check, link, is_novel, names_message, after, run}

module _ (sha256 : Text → Text) (provider : CommsProvider) (value : Text)
    (given : value ≢ text "") where
  pub plan_named :
      (input : IdempotencyInput) (now : ℕ)
      → names_message provider value input ≡ true
      → plan_idempotency_check sha256 input now
        ≡ provider_plan provider (compute_content_hash sha256 (hashed input)) value now
  unfolding plan_idempotency_check plan_for
  plan_named input now named = elim (Option-cases input.provider_message_id) [
    | inl absent ↦ absurd (ground arith)
    | inr (id, present) ↦
        rw present
          (ground (arith, ==_iff input.provider provider, ==_iff id value, ==_iff id (text "")))
  ]

  pub check-IsRepeat :
      (input : IdempotencyInput) (deps : IdempotencyCheckerDeps) (now : ℕ) (key_id uuid : Text)
      (w : World)
      → names_message provider value input ≡ true
      → Known provider value key_id w
      → IsRepeat key_id (check_idempotency sha256 input deps now uuid w).0
  unfolding check_idempotency execute_idempotency_plan
  check-IsRepeat input deps now key_id uuid w named known =
      rw (plan_named input now named) (execute-IsRepeat _ deps key_id uuid w refl known)

  pub check_novel-Known :
      (input : IdempotencyInput) (deps : IdempotencyCheckerDeps) (now : ℕ) (uuid : Text) (w : World)
      (p : IdempotencyProvenance) (hash key_id : Text)
      → names_message provider value input ≡ true
      → (check_idempotency sha256 input deps now uuid w).0 ≡ novel p hash key_id
      → Known provider value key_id (check_idempotency sha256 input deps now uuid w).1
  unfolding check_idempotency execute_idempotency_plan
  check_novel-Known input deps now uuid w p hash key_id named h =
      rw (plan_named input now named)
        (execute-Known _ deps uuid w p hash key_id refl (rw (plan_named input now named) at h))

  pub check_is_novel-Known :
      (input : IdempotencyInput) (deps : IdempotencyCheckerDeps) (now : ℕ) (uuid : Text) (w : World)
      (answer : IdempotencyResult)
      → names_message provider value input ≡ true
      → (check_idempotency sha256 input deps now uuid w).0 ≡ answer
      → is_novel answer ≡ true
      → (key_id : Text) × Known provider value key_id
          (check_idempotency sha256 input deps now uuid w).1
  check_is_novel-Known input deps now uuid w (novel p hash key_id) named h n =
      (key_id, check_novel-Known input deps now uuid w p hash key_id named h)
  check_is_novel-Known input deps now uuid w (duplicate _ _ _ _) named h n = absurd (cc)
  check_is_novel-Known input deps now uuid w (error _ _ _) named h n = absurd (cc)

  pub after-Known :
      (c : Call) (w : World) (key_id : Text)
      → Known provider value key_id w
      → Known provider value key_id (after sha256 c w)
  unfolding after
  after-Known (check input deps now uuid) w key_id known =
      check-Known sha256 input deps now uuid w provider value key_id known
  after-Known (link key message_id deps) w key_id known =
      link-Known deps key message_id w provider value key_id known

  -- Once a key is known it stays known, by the same row.
  pub run-Known :
      (cs : List Call) (w : World) (key_id : Text)
      → Known provider value key_id w
      → Known provider value key_id (run sha256 cs w)
  unfolding run
  run-Known [] w key_id known = known
  run-Known (c ∷ cs) w key_id known =
      run-Known cs (after sha256 c w) key_id (after-Known c w key_id known)
