-- ===== src/Orchestration/ApprovalGate/Decided.antt =====
-- What decides the gate: the first signal that is the timer's or of its own request.
use onetrackmind.Common.{
  ℕ, false, List, [], ◌∷◌, Option, some, Text, Text-Eq, if◌then◌else◌, ◌≡◌, refl, Bool-cases, inl,
  inr,
}
use onetrackmind.Common.Results.{Throws, returns, throws}
use onetrackmind.Orchestration.ApprovalGate.Waiter.{
  ApprovalDecision, ApprovalGateError, Signal, decided, timed_out, Waiter, waiting, is_mine,
  timeout_error, step, wait_for_decision,
}

-- The waiter that these signals leave, described without its steps.
abbrev pub waiter_after : (request_id : Text) → (timeout_ms : ℕ) → List Signal → Waiter
waiter_after request_id timeout_ms [] = waiting
waiter_after request_id timeout_ms (timed_out ∷ signals) = record {
  listening = false;
  timing = false;
  settled = some (throws (timeout_error request_id timeout_ms));
}
waiter_after request_id timeout_ms (decided event ∷ signals) =
    if is_mine request_id event
    then record { listening = false; timing = false; settled = some (returns event.decision) }
    else waiter_after request_id timeout_ms signals

-- A waiter that is off stays as it is.
off_stays :
    (request_id : Text) (timeout_ms : ℕ) (signals : List Signal)
    (outcome : Option (Throws ApprovalGateError ApprovalDecision))
    → wait_for_decision request_id timeout_ms signals
        (record { listening = false; timing = false; settled = outcome })
      ≡ record { listening = false; timing = false; settled = outcome }
unfolding wait_for_decision step
off_stays request_id timeout_ms [] outcome = refl
off_stays request_id timeout_ms (decided event ∷ signals) outcome =
    off_stays request_id timeout_ms signals outcome
off_stays request_id timeout_ms (timed_out ∷ signals) outcome =
    off_stays request_id timeout_ms signals outcome

-- Whatever the emitter and the timer do, the waiter is decided by the first signal that is the timer's or
-- a decision of its own request: that decision, or the timeout error. Decisions of other requests do
-- nothing, and neither does anything that follows. The listener and the timer are on until then and off
-- from then on.
pub wait_for_decision-waiter_after :
    (request_id : Text) (timeout_ms : ℕ) (signals : List Signal)
    → wait_for_decision request_id timeout_ms signals waiting
      ≡ waiter_after request_id timeout_ms signals
unfolding wait_for_decision step
wait_for_decision-waiter_after request_id timeout_ms [] = refl
wait_for_decision-waiter_after request_id timeout_ms (timed_out ∷ signals) =
    off_stays request_id timeout_ms signals _
wait_for_decision-waiter_after request_id timeout_ms (decided event ∷ signals) =
    elim (Bool-cases (is_mine request_id event)) [
      | inl mine ↦ rw mine (off_stays request_id timeout_ms signals _)
      | inr other ↦ rw other (wait_for_decision-waiter_after request_id timeout_ms signals)
    ]
