-- ===== src/Examples/Orchestration.antt =====
-- The theorems on the orchestration layer at concrete events, texts and recipients.
use onetrackmind.Common.{
  ℕ, ◌≤◌, true, filter, Text-Eq, ◌==◌, zero, suc, List, [], ◌∷◌, Option, none, some, Text, text,
  length, ◌≡◌, ◌≢◌, refl,
}
use onetrackmind.Common.Results.{Thrown}
use onetrackmind.Db.Serializers.{JsonCodec, value, null, end, member, str}
use onetrackmind.Orchestration.EventClassifier.Input.{ClassificationSource, RawInput}
use onetrackmind.Orchestration.EventClassifier.Classify.{classify_event}
use onetrackmind.Orchestration.EventClassifier.Accepts.{Classified, classify_event-Classified}
use onetrackmind.Orchestration.OutputRouter.Segments.{cut_at, split_loop, format_for_sms}
use onetrackmind.Orchestration.OutputRouter.Segments.Bounds.{IsSplit, format_for_sms-IsSplit}
use onetrackmind.Orchestration.OutputRouter.Route.{RouteInstruction, sms, Send, to_sms, Out}
use onetrackmind.Orchestration.ApprovalGate.Waiter.{
  Signal, decided, timed_out, approve, edit, waiting, wait_for_decision, approval_timeout_ms,
}
use onetrackmind.Orchestration.ApprovalGate.Decided.{waiter_after, wait_for_decision-waiter_after}
use onetrackmind.Orchestration.PoSequence.{
  PoSequenceStore, create_in_memory_po_sequence_store, counter_of, allocations,
}
use onetrackmind.Orchestration.PoSequence.Numbers.{numbers_of, numbered, allocations-numbered}
use onetrackmind.Examples.Fixtures.{now}

abbrev codec : JsonCodec
codec = record { parse = λ _. value null; stringify = λ _. text "{}" }

abbrev message : RawInput
message = record {
  source = ClassificationSource.app;
  request_id = text "r1";
  session_id = text "s1";
  user_id = text "u1";
  body = member (text "content") (str (text "  hello ")) end;
  normalized_email = none;
  internal_payload = none;
}

classify_event-Classified_example :
    Classified codec message now [] (classify_event codec message now [])
classify_event-Classified_example = classify_event-Classified codec message now []

abbrev strip_markdown : Text → Text
strip_markdown s = s

abbrev report : Text
report = text "Done. The slab is poured! Who signs?"

format_for_sms-IsSplit_example :
    (split_loop (length report) report ≢ none)
    × IsSplit report (format_for_sms strip_markdown report)
format_for_sms-IsSplit_example = format_for_sms-IsSplit strip_markdown report

letters : ℕ → Text
letters zero = []
letters (suc n) = b'x' ∷ letters n

-- A hard cut of a text Without a boundary has one character more than the limit.
hard_cut_length : length (cut_at (letters 1700) none).0 ≡ 1601
unfolding cut_at letters
hard_cut_length = refl

-- The client throws on the second of two recipients.
abbrev send : Send
send _ (to_sms recipient segment) = refuse recipient
  where
    refuse : Text → Option Thrown
    refuse [] = some (Thrown.error (text "Error") (text "no number"))
    refuse (_ ∷ _) = none
send _ _ = none

abbrev instruction : RouteInstruction
instruction = record {
  channel = sms;
  recipients = some (text "+15550001" ∷ text "" ∷ []);
  session_id = text "s1";
  request_id = text "r1";
}

abbrev quiet : Out
quiet = record { calls = []; log = [] }

-- A decision of another request, one of this request, the timer, and another decision of this request.
abbrev signals : List Signal
signals =
    decided (record { request_id = text "r2"; decision = edit })
    ∷ decided (record { request_id = text "r1"; decision = approve })
    ∷ timed_out
    ∷ decided (record { request_id = text "r1"; decision = edit })
    ∷ []

wait_for_decision-waiter_after_example :
    wait_for_decision (text "r1") approval_timeout_ms signals waiting
    ≡ waiter_after (text "r1") approval_timeout_ms signals
wait_for_decision-waiter_after_example =
    wait_for_decision-waiter_after (text "r1") approval_timeout_ms signals

abbrev seeded : PoSequenceStore
seeded = create_in_memory_po_sequence_store (some ((text "ann", 41) ∷ []))

abbrev requesters : List Text
requesters = text "ann" ∷ text "bob" ∷ text "ann" ∷ []

allocations-numbered_example :
    (numbers_of (text "ann") (allocations true requesters seeded).0
      ≡ numbered
          (counter_of seeded.counters (text "ann"))
          (filter (λ v. v == text "ann") requesters))
    × (length (allocations true requesters seeded).1 ≤ 1)
allocations-numbered_example = allocations-numbered true requesters (text "ann") seeded
