-- ===== src/Orchestration/EventClassifier/Classify.antt =====
-- The extractors, the metadata and the classifier.
use onetrackmind.Common.{
  ℕ, List, [], ◌∷◌, ◌++◌, Option, none, some, Text, text, text_eq, Text-Eq, ◌==◌, if◌then◌else◌,
}
use onetrackmind.Common.Results.{Throws, returns, throws}
use onetrackmind.Runtime.Date.{to_iso_string}
use onetrackmind.Runtime.Trim.{trim}
use onetrackmind.Db.Serializers.{JsonCodec, Json, null, str, obj, Members, end, member}
use onetrackmind.Comms.Effects.{Level, LogLine, log_line}
use onetrackmind.Orchestration.Narrowing.{extract_string}
use onetrackmind.Orchestration.EventClassifier.Input.{
  ClassificationSource, app, email, sms, internal, lifecycle, EventType, user_message, inbound_sms,
  inbound_email, system_trigger, session_lifecycle, source_text, event_type_text,
  NormalizedEmailNotification, InternalPayload, RawInput, ClassificationError, EventMetadata,
  ProcessedEvent,
}

unfoldable pub source_to_event_type : ClassificationSource → EventType
source_to_event_type app = user_message
source_to_event_type email = inbound_email
source_to_event_type sms = inbound_sms
source_to_event_type internal = system_trigger
source_to_event_type lifecycle = session_lifecycle

abbrev failed : (message request_id source : Text) → Throws ClassificationError Text
failed message request_id source =
    throws (record { message = message; request_id = request_id; source = source })

-- A string that is there and not blank.
abbrev pub not_blank :
    Option Text → Throws ClassificationError Text → Throws ClassificationError Text
not_blank none missing = missing
not_blank (some content) missing = if trim content == text "" then missing else returns content

abbrev pub app_missing : Text → Throws ClassificationError Text
app_missing request_id =
    failed (text "app body missing required field: content (non-empty string)") request_id
      (text "app")

abbrev pub event_missing : Text → Throws ClassificationError Text
event_missing request_id =
    failed (text "lifecycle event missing required field: event or internalPayload") request_id
      (text "lifecycle")

unfoldable pub extract_app_content : Members → Text → Throws ClassificationError Text
unfolding extract_string trim text_eq
extract_app_content body request_id =
    not_blank (extract_string body (text "content")) (app_missing request_id)

unfoldable pub extract_sms_content : Members → Text → Throws ClassificationError Text
unfolding extract_string
extract_sms_content body request_id = found (extract_string body (text "body"))
  where
    found : Option Text → Throws ClassificationError Text
    found none =
        failed
          (text
            "sms body missing required field: body (string) — handler must normalize before classifying")
          request_id (text "sms")
    found (some sms_body) = returns sms_body

abbrev or_null : Option Text → Json
or_null none = null
or_null (some s) = str s

abbrev pub email_json : NormalizedEmailNotification → Json
email_json e = obj (
    member (text "messageId") (str e.message_id) (
      member (text "threadId") (or_null e.thread_id) (
        member (text "emailAddress") (str e.email_address)
          (member (text "provider") (str e.provider) end))))

abbrev pub payload_json : InternalPayload → Json
payload_json p = obj (
    member (text "triggerType") (str p.trigger_type) (member (text "data") (obj p.data_fields) end))

module _ (codec : JsonCodec) where
  unfoldable pub extract_email_content :
      Option NormalizedEmailNotification → Text → Throws ClassificationError Text
  extract_email_content none request_id =
      failed
        (text
          "email event missing required normalizedEmail — route handler must normalize before classifying")
        request_id (text "email")
  extract_email_content (some e) request_id = returns (codec.stringify (email_json e))

  unfoldable pub extract_internal_content :
      Option InternalPayload → Text → Throws ClassificationError Text
  extract_internal_content none request_id =
      failed (text "internal event missing required internalPayload") request_id (text "internal")
  extract_internal_content (some p) request_id = returns (codec.stringify (payload_json p))

  unfoldable pub extract_lifecycle_content :
      Members → Option InternalPayload → Text → Throws ClassificationError Text
  unfolding extract_string trim text_eq
  extract_lifecycle_content body (some p) request_id = returns (codec.stringify (payload_json p))
  extract_lifecycle_content body none request_id =
      not_blank (extract_string body (text "event")) (event_missing request_id)

  -- The switch on the source. Its `default` branch is outside the type.
  unfoldable pub extract_content : ClassificationSource → RawInput → Throws ClassificationError Text
  unfolding extract_app_content extract_sms_content extract_email_content extract_internal_content
      extract_lifecycle_content
  extract_content app input = extract_app_content input.body input.request_id
  extract_content sms input = extract_sms_content input.body input.request_id
  extract_content email input = extract_email_content input.normalized_email input.request_id
  extract_content internal input = extract_internal_content input.internal_payload input.request_id
  extract_content lifecycle input =
      extract_lifecycle_content input.body input.internal_payload input.request_id

abbrev pub base_metadata : RawInput → Text → EventMetadata
base_metadata input channel = record {
  session_id = input.session_id;
  user_id = input.user_id;
  channel = some channel;
  sender = none;
  thread_id = none;
  email_provider = none;
}

email_metadata : RawInput → Option NormalizedEmailNotification → EventMetadata
email_metadata input none = base_metadata input (text "email")
email_metadata input (some e) = record (base_metadata input (text "email")) {
  sender = some e.email_address;
  thread_id = e.thread_id;
  email_provider = some e.provider;
}

unfoldable pub metadata_for : ClassificationSource → RawInput → EventMetadata
unfolding extract_string email_metadata
metadata_for app input = base_metadata input (text "app")
metadata_for sms input = record (base_metadata input (text "sms")) {
  sender = extract_string input.body (text "sender");
  thread_id = extract_string input.body (text "threadId");
}
metadata_for email input = email_metadata input input.normalized_email
metadata_for internal input = base_metadata input (text "internal")
metadata_for lifecycle input = base_metadata input (text "lifecycle")

unfoldable pub build_metadata : RawInput → EventMetadata
unfolding metadata_for
build_metadata input = metadata_for input.source input

-- The field of a provider that is given and not empty.
abbrev provider_field : Option Text → List (Text × Text)
provider_field none = []
provider_field (some provider) =
    if provider == text "" then [] else (text "emailProvider", provider) ∷ []

abbrev pub classified_line : RawInput → EventMetadata → LogLine
classified_line input metadata = log_line Level.info (text "classified") (
    ((text "requestId", input.request_id)
      ∷ (text "source", source_text input.source)
      ∷ (text "eventType", event_type_text (source_to_event_type input.source))
      ∷ (text "sessionId", input.session_id)
      ∷ [])
    ++ provider_field metadata.email_provider)

unfoldable pub classified :
    RawInput
    → (now : ℕ) → List LogLine
    → Throws ClassificationError Text
    → Throws ClassificationError ProcessedEvent × List LogLine
unfolding source_to_event_type build_metadata text_eq
classified input now log (throws e) = (throws e, log)
classified input now log (returns raw_content) =
    let metadata = build_metadata input in
    let event : ProcessedEvent = record {
      event_type = source_to_event_type input.source;
      raw_content = raw_content;
      metadata = metadata;
      timestamp = to_iso_string now;
    } in
    (returns event, log ++ classified_line input metadata ∷ [])

-- The event, or the error thrown, and the log after.
unfoldable pub classify_event :
    JsonCodec
    → RawInput
    → (now : ℕ) → List LogLine
    → Throws ClassificationError ProcessedEvent × List LogLine
unfolding extract_content classified
classify_event codec input now log =
    classified input now log (extract_content codec input.source input)
