-- ===== src/Comms/Idempotency/Trace/Count.antt =====
-- How often a message can be novel.
use onetrackmind.Common.{
  ℕ, ◌≤◌, List, [], ◌∷◌, Text, text, Text-Eq, ◌≡◌, ◌≢◌, refl, arith, ◌⊎◌, inl, inr, if◌then◌else◌,
  Bool-cases,
}
use onetrackmind.Db.Vocabulary.{CommsProvider, CommsProvider-Eq}
use onetrackmind.Comms.Idempotency.World.{World, IdempotencyResult, novel, duplicate, error}
use onetrackmind.Comms.Idempotency.Gate.{check_idempotency}
use onetrackmind.Comms.Idempotency.Gate.Once.{Known, IsRepeat}
use onetrackmind.Comms.Idempotency.Trace.{
  Call, check, link, is_novel, names_message, after, novel_step, novel_count,
}
use onetrackmind.Comms.Idempotency.Trace.Keeps.{check-IsRepeat, check_is_novel-Known, after-Known}

module _ (sha256 : Text → Text) (provider : CommsProvider) (value : Text)
    (given : value ≢ text "") where
  novel_step_of_Known :
      (c : Call) (w : World) (key_id : Text)
      → Known provider value key_id w
      → novel_step sha256 provider value c w ≡ 0
  unfolding novel_step
  novel_step_of_Known (link key message_id deps) w key_id known = refl
  novel_step_of_Known (check input deps now uuid) w key_id known =
      elim (Bool-cases (names_message provider value input)) [
        | inl named ↦ rw named (
            answered _
              (check-IsRepeat sha256 provider value given input deps now key_id uuid w named known))
        | inr another ↦ rw another
      ]
    where
      answered :
          (answer : IdempotencyResult)
          → IsRepeat key_id answer
          → ◌≡◌ {A = ℕ} (if is_novel answer then 1 else 0) 0
      answered (novel _ _ _) r = absurd r
      answered (duplicate _ _ _ _) r = refl
      answered (error _ _ _) r = refl

  novel_count_of_Known :
      (cs : List Call) (w : World) (key_id : Text)
      → Known provider value key_id w
      → novel_count sha256 provider value cs w ≡ 0
  unfolding novel_count
  novel_count_of_Known [] w key_id known = refl
  novel_count_of_Known (c ∷ cs) w key_id known = omega (
    arith,
    novel_step_of_Known c w key_id known,
    novel_count_of_Known cs (after sha256 c w) key_id
        (after-Known sha256 provider value given c w key_id known),
  )

  novel_step_cases :
      (c : Call) (w : World)
      → (novel_step sha256 provider value c w ≡ 0)
        ⊎ ((novel_step sha256 provider value c w ≡ 1)
            × ((key_id : Text) × Known provider value key_id (after sha256 c w)))
  unfolding novel_step after
  novel_step_cases (link key message_id deps) w = inl refl
  novel_step_cases (check input deps now uuid) w =
      elim (Bool-cases (names_message provider value input)) [
        | inr another ↦ inl (rw another)
        | inl named ↦
            elim (Bool-cases (is_novel (check_idempotency sha256 input deps now uuid w).0)) [
              | inr old ↦ inl (rw (named, old))
              | inl new ↦ inr (
                rw (named, new),
                check_is_novel-Known sha256 provider value given input deps now uuid w _ named refl
                    new,
              )
            ]
      ]

  -- Whatever the database holds, and whatever calls of the module follow one another, with any
  -- faults of the driver and the emitter: at most one check of a provider's message, named by a
  -- non-empty id, answers `novel`.
  pub novel_count_le_one : (cs : List Call) (w : World) → novel_count sha256 provider value cs w ≤ 1
  unfolding novel_count
  novel_count_le_one [] w = omega arith
  novel_count_le_one (c ∷ cs) w = elim (novel_step_cases c w) [
    | inl none_now ↦ omega (arith, novel_count_le_one cs (after sha256 c w))
    | inr (now_one, (key_id, known)) ↦
        omega (arith, novel_count_of_Known cs (after sha256 c w) key_id known)
  ]
