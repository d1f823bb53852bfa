-- ===== src/Orchestration/OutputRouter/Route.antt =====
-- The channel routes of backend/src/orchestration/outputRouter.ts. A client is a function of what has been
-- sent before: it returns, or it throws. The encryption, with its random IV, is an argument.
use onetrackmind.Common.{
  ℕ, Bool, true, false, List, [], ◌∷◌, ◌++◌, Option, none, some, Text, text, length,
}
use onetrackmind.Common.Results.{Thrown, Throws, returns, throws, error_message_of}
use onetrackmind.Comms.Effects.{LogLine}
use onetrackmind.Orchestration.OutputRouter.Segments.{format_for_sms}

abbrev pub push_body_max_chars : ℕ
push_body_max_chars = 200

pub data Channel : Type 0 where
  app sms push log : Channel

pub record RouteInstruction : Type 0 where
  pub channel : Channel
  pub recipients : Option (List Text)
  pub session_id : Text
  pub request_id : Text

pub record FailedRecipient : Type 0 where
  pub recipient : Text
  pub reason : Text

pub record RouteResult : Type 0 where
  pub channel : Channel
  pub success : Bool
  pub delivered : List Text
  pub failed : List FailedRecipient
  pub segment_count : ℕ
  pub request_id : Text

pub data OutputRouterCause : Type 0 where
  format_error delivery_error no_recipients : OutputRouterCause

pub record OutputRouterError : Type 0 where
  pub message : Text
  pub request_id : Text
  pub channel : Channel
  pub cause : OutputRouterCause

pub record EncryptedContent : Type 0 where
  pub iv : Text
  pub auth_tag : Text
  pub ciphertext : Text

pub record PushPayload : Type 0 where
  pub title : Text
  pub body : Text
  pub session_id : Text
  pub encrypted_content : Option EncryptedContent

-- What a call of a client is given.
pub data Sent : Type 0 where
  to_app : (content : Text) → Sent
  to_sms : (recipient segment : Text) → Sent
  to_push : (token : Text) → PushPayload → Sent

-- The calls so far, the newest last, and the log.
pub record Out : Type 0 where
  pub calls : List Sent
  pub log : List LogLine

-- A client, by the calls made before.
abbrev pub Send : Type 0
Send = List Sent → Sent → Option Thrown

pub record RouterClients : Type 0 where
  pub app_ws_send : Option Send
  pub sms_send : Option Send
  pub push_send : Option Send
  pub fcm_payload_key : Option Text
  pub product_name : Text

abbrev pub Routed : Type 0
Routed = Throws OutputRouterError RouteResult × Out

abbrev pub called : Sent → Out → Out
called sent out = record out { calls = out.calls ++ sent ∷ [] }

abbrev pub logged : LogLine → Out → Out
logged line out = record out { log = out.log ++ line ∷ [] }

-- `failed.length === 0`
abbrev pub is_empty : List FailedRecipient → Bool
is_empty [] = true
is_empty (_ ∷ _) = false

unfoldable pub route_to_app : Text → RouteInstruction → Send → Out → Routed
route_to_app response instruction send out =
    answered (send out.calls (to_app response)) (called (to_app response) out)
  where
    answered : Option Thrown → Out → Routed
    answered none out' = (
      returns (record {
        channel = app;
        success = true;
        delivered = text "app" ∷ [];
        failed = [];
        segment_count = 1;
        request_id = instruction.request_id;
      }),
      out',
    )
    answered (some e) out' = (
      returns (record {
        channel = app;
        success = false;
        delivered = [];
        failed = (record { recipient = text "app"; reason = error_message_of e }) ∷ [];
        segment_count = 0;
        request_id = instruction.request_id;
      }),
      out',
    )

-- The `break` on the first segment that the client throws on.
abbrev pub stop_or : Option Thrown → Out → Option Thrown × Out → Option Thrown × Out
stop_or none out rest = rest
stop_or (some e) out rest = (some e, out)

-- One recipient: its segments in order.
unfoldable pub send_segments : Send → Text → List Text → Out → Option Thrown × Out
send_segments send recipient [] out = (none, out)
send_segments send recipient (segment ∷ segments) out =
    let out' = called (to_sms recipient segment) out in
    let rest = send_segments send recipient segments out' in
    stop_or (send out.calls (to_sms recipient segment)) out' rest

-- `delivered` and `failed` after the recipients.
abbrev pub Tally : Type 0
Tally = List Text × List FailedRecipient

abbrev pub tallied : Text → Option Thrown → Tally → Tally
tallied recipient none (delivered, failed) = (delivered ++ recipient ∷ [], failed)
tallied recipient (some e) (delivered, failed) =
    (delivered, failed ++ (record { recipient = recipient; reason = error_message_of e }) ∷ [])

unfoldable pub send_all : Send → List Text → List Text → Tally → Out → Tally × Out
unfolding send_segments
send_all send segments [] tally out = (tally, out)
send_all send segments (recipient ∷ recipients) tally out =
    let (outcome, out') = send_segments send recipient segments out in
    send_all send segments recipients (tallied recipient outcome tally) out'

abbrev pub no_recipients_error : Text → Channel → (message : Text) → OutputRouterError
no_recipients_error request_id channel message = record {
  message = message;
  request_id = request_id;
  channel = channel;
  cause = no_recipients;
}

abbrev pub tally_result : Channel → Text → ℕ → Tally → RouteResult
tally_result channel request_id segment_count (delivered, failed) = record {
  channel = channel;
  success = is_empty failed;
  delivered = delivered;
  failed = failed;
  segment_count = segment_count;
  request_id = request_id;
}

-- `!recipients || recipients.length === 0`
abbrev pub given_recipients : Option (List Text) → List Text
given_recipients none = []
given_recipients (some recipients) = recipients

unfoldable pub sms_to : List Text → List Text → RouteInstruction → Send → Out → Routed
unfolding send_all
sms_to [] segments instruction send out = (
  throws (
      no_recipients_error instruction.request_id sms
        (text "SMS route requires at least one recipient")),
  out,
)
sms_to (recipient ∷ recipients) segments instruction send out =
    let (tally, out') = send_all send segments (recipient ∷ recipients) ([], []) out in
    (returns (tally_result sms instruction.request_id (length segments) tally), out')

unfoldable pub route_to_sms :
    (strip_markdown : Text → Text) → Text → RouteInstruction → Send → Out → Routed
unfolding sms_to format_for_sms
route_to_sms strip_markdown response instruction send out =
    sms_to (given_recipients instruction.recipients) (format_for_sms strip_markdown response)
      instruction send out
