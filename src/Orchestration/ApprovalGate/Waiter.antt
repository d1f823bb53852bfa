-- ===== src/Orchestration/ApprovalGate/Waiter.antt =====
-- The waiter as a state machine on what its emitter and its timer do, and the gate that sends first.
use onetrackmind.Common.{
  ℕ, Bool, true, false, ◌&&◌, List, [], ◌∷◌, ◌++◌, Option, none, some, Text, text, Text-Eq, ◌==◌,
  if◌then◌else◌,
}
use onetrackmind.Runtime.Decimal.{decimal}
use onetrackmind.Common.Results.{Thrown, Throws, returns, throws, error_message_of}

pub data ApprovalDecision : Type 0 where
  approve reject edit try_again use_as_is drop send_feedback : ApprovalDecision

pub record InboundDecisionEvent : Type 0 where
  pub request_id : Text
  pub decision : ApprovalDecision

pub data ApprovalGateCause : Type 0 where
  timeout send_error feedback_error : ApprovalGateCause

pub record ApprovalGateError : Type 0 where
  pub message : Text
  pub request_id : Text
  pub cause : ApprovalGateCause

pub record ApprovalMessage : Type 0 where
  pub kind : Text
  pub request_id : Text
  pub content : Text
  pub options : List Text

unfoldable pub build_approval_message : (request_id content : Text) → ApprovalMessage
build_approval_message request_id content = record {
  kind = text "approval_required";
  request_id = request_id;
  content = content;
  options = text "approve" ∷ text "reject" ∷ text "edit" ∷ [];
}

abbrev pub approval_timeout_ms : ℕ
approval_timeout_ms = 300000

-- What the outside does: an event on the emitter, or the timer running out.
pub data Signal : Type 0 where
  decided : InboundDecisionEvent → Signal
  timed_out : Signal

-- Whether the listener is on, whether the timer is set, and how the promise is settled.
pub record Waiter : Type 0 where
  pub listening : Bool
  pub timing : Bool
  pub settled : Option (Throws ApprovalGateError ApprovalDecision)

abbrev pub waiting : Waiter
waiting = record { listening = true; timing = true; settled = none }

abbrev pub cleanup : Waiter → Waiter
cleanup w = record w { listening = false; timing = false }

-- A promise is settled once.
abbrev pub settle : Throws ApprovalGateError ApprovalDecision → Waiter → Waiter
settle outcome w = elim w.settled [ none ↦ record w { settled = some outcome } | some _ ↦ w ]

unfoldable pub timeout_error : (request_id : Text) → (timeout_ms : ℕ) → ApprovalGateError
timeout_error request_id timeout_ms = record {
  message =
      text "Approval gate timed out after "
      ++ (decimal timeout_ms ++ text "ms — item queued for next session open");
  request_id = request_id;
  cause = timeout;
}

abbrev pub is_mine : Text → InboundDecisionEvent → Bool
is_mine request_id event = event.request_id == request_id

-- The listener and the timer, which do nothing once they are off.
unfoldable pub step : (request_id : Text) → (timeout_ms : ℕ) → Waiter → Signal → Waiter
step request_id timeout_ms w (decided event) =
    if w.listening && is_mine request_id event
    then settle (returns event.decision) (cleanup w)
    else w
step request_id timeout_ms w timed_out =
    if w.timing then settle (throws (timeout_error request_id timeout_ms)) (cleanup w) else w

unfoldable pub wait_for_decision :
    (request_id : Text) → (timeout_ms : ℕ) → List Signal → Waiter → Waiter
unfolding step
wait_for_decision request_id timeout_ms [] w = w
wait_for_decision request_id timeout_ms (signal ∷ signals) w =
    wait_for_decision request_id timeout_ms signals (step request_id timeout_ms w signal)

-- `wsSend` throws or returns.
unfoldable pub send_approval_request :
    (request_id content : Text)
    → (ws_send : ApprovalMessage → Option Thrown) → Throws ApprovalGateError (Unit {0})
unfolding build_approval_message
send_approval_request request_id content ws_send =
    sent (ws_send (build_approval_message request_id content))
  where
    sent : Option Thrown → Throws ApprovalGateError (Unit {0})
    sent none = returns tt
    sent (some e) = throws (record {
      message = text "Failed to send approval request: " ++ error_message_of e;
      request_id = request_id;
      cause = send_error;
    })

-- How the gate's promise is settled after the signals: `none` while it waits.
unfoldable pub run_approval_gate :
    (request_id content : Text)
    → (ws_send : ApprovalMessage → Option Thrown) → (timeout_ms : ℕ) → List Signal
    → Option (Throws ApprovalGateError ApprovalDecision)
unfolding send_approval_request wait_for_decision
run_approval_gate request_id content ws_send timeout_ms signals =
    elim (send_approval_request request_id content ws_send) [
      | throws e ↦ some (throws e)
      | returns _ ↦ (wait_for_decision request_id timeout_ms signals waiting).settled
    ]
