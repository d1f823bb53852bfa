-- ===== src/Orchestration/OutputRouter/Push.antt =====
-- `formatForPush` and `routeToPush` of backend/src/orchestration/outputRouter.ts.
use onetrackmind.Common.{List, [], ◌∷◌, Option, none, some, Text, text, take}
use onetrackmind.Common.Results.{Thrown, Throws, returns, throws, error_message_of}
use onetrackmind.Comms.Effects.{Level, log_line}
use onetrackmind.Orchestration.OutputRouter.Route.{
  push_body_max_chars, push, RouteInstruction, EncryptedContent, PushPayload, to_push, Out, Send,
  RouterClients, Routed, called, logged, Tally, tallied, no_recipients_error, tally_result,
  given_recipients,
}

-- `encryptPayloadContent` of the text, under the key.
module _ (encrypt : Text → (key_hex : Text) → Throws Thrown EncryptedContent) where
  abbrev encrypted : Throws Thrown EncryptedContent → Out → Option EncryptedContent × Out
  encrypted (returns content) out = (some content, out)
  encrypted (throws e) out = (
    none,
    logged
        (log_line Level.error (text "FCM payload encryption failed — fullContent omitted")
          ((text "detail", error_message_of e) ∷ []))
        out,
  )

  -- A key is `falsy` when it is absent or empty.
  unfoldable pub encrypted_for : Text → Option Text → Out → Option EncryptedContent × Out
  encrypted_for response (some (c ∷ key)) out = encrypted (encrypt response (c ∷ key)) out
  encrypted_for response _ out = (
    none,
    logged
        (log_line Level.warn
          (text "FCM_PAYLOAD_KEY not configured — fullContent omitted from push payload") [])
        out,
  )

  unfoldable pub format_for_push :
      Text
      → (session_id product_name : Text) → (fcm_payload_key : Option Text) → Out
      → PushPayload × Out
  unfolding encrypted_for
  format_for_push response session_id product_name key out =
      let (content, out') = encrypted_for response key out in
      (
        record {
          title = product_name;
          body = take push_body_max_chars response;
          session_id = session_id;
          encrypted_content = content;
        },
        out',
      )

  unfoldable pub push_all : Send → PushPayload → List Text → Tally → Out → Tally × Out
  push_all send payload [] tally out = (tally, out)
  push_all send payload (token ∷ tokens) tally out =
      push_all send payload tokens (tallied token (send out.calls (to_push token payload)) tally)
        (called (to_push token payload) out)

  unfoldable pub push_to : List Text → Text → RouteInstruction → RouterClients → Send → Out → Routed
  unfolding push_all format_for_push
  push_to [] response instruction clients send out = (
    throws (
        no_recipients_error instruction.request_id push
          (text "Push route requires at least one FCM token")),
    out,
  )
  push_to (token ∷ tokens) response instruction clients send out =
      let (payload, out') =
        format_for_push response instruction.session_id clients.product_name clients.fcm_payload_key
          out in
      let (tally, out'') = push_all send payload (token ∷ tokens) ([], []) out' in
      (returns (tally_result push instruction.request_id 1 tally), out'')

  unfoldable pub route_to_push : Text → RouteInstruction → RouterClients → Send → Out → Routed
  unfolding push_to
  route_to_push response instruction clients send out =
      push_to (given_recipients instruction.recipients) response instruction clients send out
