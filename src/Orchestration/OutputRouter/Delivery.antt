-- ===== src/Orchestration/OutputRouter/Delivery.antt =====
-- Who gets what: the loops over the recipients.
use onetrackmind.Common.{List, [], ◌∷◌, ◌++◌, Option, none, some, Text, length, ◌≡◌, ◌⊎◌}
use onetrackmind.Common.Results.{Thrown, returns, throws, error_message_of}
use onetrackmind.Orchestration.OutputRouter.Route.{
  sms, RouteInstruction, FailedRecipient, Sent, to_sms, Out, Send, Routed, Tally, send_all,
  is_empty, no_recipients_error,
}

-- The calls that sending these segments to a recipient makes.
abbrev pub calls_for : Text → List Text → List Sent
calls_for recipient [] = []
calls_for recipient (segment ∷ segments) = to_sms recipient segment ∷ calls_for recipient segments

-- The client takes these segments, after the calls made before.
abbrev pub Takes : Send → Text → List Sent → List Text → Type 0
Takes send recipient calls [] = Unit
Takes send recipient calls (segment ∷ segments) =
    (send calls (to_sms recipient segment) ≡ none)
    × Takes send recipient (calls ++ to_sms recipient segment ∷ []) segments

-- Served: the client took every segment, in order. Else it took the ones before a segment and threw on
-- that one, which is the last that it was handed.
abbrev pub Served : Send → Text → List Text → Out → Option Thrown × Out → Type 0
Served send recipient segments out (none, out') =
    (out'.calls ≡ out.calls ++ calls_for recipient segments)
    × Takes send recipient out.calls segments
Served send recipient segments out (some e, out') =
    (before after : List Text) × (segment : Text) × (segments ≡ before ++ segment ∷ after)
    × Takes send recipient out.calls before
    × (send (out.calls ++ calls_for recipient before) (to_sms recipient segment) ≡ some e)
    × (out'.calls ≡ (out.calls ++ calls_for recipient before) ++ to_sms recipient segment ∷ [])

abbrev pub failure_of : Text → Thrown → FailedRecipient
failure_of recipient e = record { recipient = recipient; reason = error_message_of e }

-- Each recipient in turn is served and delivered to, or refused and failed, and the next one follows.
abbrev pub Delivers :
    Send → List Text → List Text → Out → List Text → List FailedRecipient → Out → Type 0
Delivers send segments [] out delivered failed out' =
    (delivered ≡ []) × (failed ≡ []) × (out' ≡ out)
Delivers send segments (r ∷ recipients) out delivered failed out' =
    (mid : Out) × (((rest : List Text) × Served send r segments out (none, mid)
        × (delivered ≡ r ∷ rest)
        × Delivers send segments recipients mid rest failed out')
      ⊎ ((e : Thrown) × (rest : List FailedRecipient) × Served send r segments out (some e, mid)
          × (failed ≡ failure_of r e ∷ rest)
          × Delivers send segments recipients mid delivered rest out'))

module _ (send : Send) (segments : List Text) where
  abbrev AllTallied : List Text → Tally → Out → Tally × Out → Type 0
  AllTallied recipients tally out result =
      (delivered : List Text) × (failed : List FailedRecipient) × (result.0
        ≡ (tally.0 ++ delivered, tally.1 ++ failed))
      × Delivers send segments recipients out delivered failed result.1

  abbrev Later : List Text → Type 0
  Later recipients =
      (tally : Tally) (out : Out)
      → AllTallied recipients tally out (send_all send segments recipients tally out)

-- What the route says.
abbrev pub SmsRouted : Send → List Text → List Text → RouteInstruction → Out → Routed → Type 0
SmsRouted send recipients segments instruction out (throws e, out') =
    (recipients ≡ [])
    × (e ≡ no_recipients_error instruction.request_id sms e.message)
    × (out' ≡ out)
SmsRouted send recipients segments instruction out (returns result, out') =
    Delivers send segments recipients out result.delivered result.failed out'
    × (result.success ≡ is_empty result.failed)
    × (result.segment_count ≡ length segments)
    × (result.request_id ≡ instruction.request_id)
