-- ===== src/Orchestration/OutputRouter/Entry.antt =====
-- `routeToLog` and `routeOutput` of backend/src/orchestration/outputRouter.ts. The `default` branch of the
-- switch is outside the type.
use onetrackmind.Common.{true, [], ◌∷◌, Option, none, some, Text, text}
use onetrackmind.Common.Results.{Thrown, Throws, returns, throws}
use onetrackmind.Comms.Effects.{Level, log_line}
use onetrackmind.Orchestration.OutputRouter.Route.{
  Channel, app, sms, push, log, RouteInstruction, delivery_error, EncryptedContent, Out, Send,
  RouterClients, Routed, logged, route_to_app, route_to_sms,
}
use onetrackmind.Orchestration.OutputRouter.Push.{route_to_push}

unfoldable pub route_to_log : RouteInstruction → Out → Routed
route_to_log instruction out = (
  returns (record {
    channel = log;
    success = true;
    delivered = text "log" ∷ [];
    failed = [];
    segment_count = 1;
    request_id = instruction.request_id;
  }),
  logged
      (log_line Level.info (text "log-only") (
        (text "requestId", instruction.request_id)
        ∷ (text "sessionId", instruction.session_id)
        ∷ []))
      out,
)

abbrev no_client : Channel → Text → RouteInstruction → Out → Routed
no_client channel message instruction out = (
  throws (record {
    message = message;
    request_id = instruction.request_id;
    channel = channel;
    cause = delivery_error;
  }),
  out,
)

unfoldable pub route_output :
    (strip_markdown : Text → Text)
    → (encrypt : Text → (key_hex : Text) → Throws Thrown EncryptedContent) → Text
    → RouteInstruction
    → RouterClients
    → Out
    → Routed
unfolding route_to_app route_to_sms route_to_push route_to_log
route_output strip_markdown encrypt response instruction clients out =
    by_channel instruction.channel clients.app_ws_send clients.sms_send clients.push_send
  where
    by_channel : Channel → Option Send → Option Send → Option Send → Routed
    by_channel app (some send) _ _ = route_to_app response instruction send out
    by_channel app none _ _ =
        no_client app (text "appWsSend client required for app channel") instruction out
    by_channel sms _ (some send) _ = route_to_sms strip_markdown response instruction send out
    by_channel sms _ none _ =
        no_client sms (text "smsSend client required for sms channel") instruction out
    by_channel push _ _ (some send) = route_to_push encrypt response instruction clients send out
    by_channel push _ _ none =
        no_client push (text "pushSend client required for push channel") instruction out
    by_channel log _ _ _ = route_to_log instruction out
