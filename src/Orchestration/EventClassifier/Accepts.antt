-- ===== src/Orchestration/EventClassifier/Accepts.antt =====
-- Which inputs the classifier accepts, and what it makes of them.
use onetrackmind.Common.{
  ℕ, false, List, [], ◌∷◌, ◌++◌, Option, none, some, Text, text, Text-Eq, ◌==◌, ==_iff, every, ◌≡◌,
  ◌≢◌, refl, arith, ◌⊎◌, inl, inr, Bool-cases, Option-cases,
}
use onetrackmind.Common.Results.{Throws, returns, throws}
use onetrackmind.Runtime.Date.{to_iso_string}
use onetrackmind.Runtime.Trim.{is_space, trim, trim_iff}
use onetrackmind.Db.Serializers.{JsonCodec, Json, str, bool, num, arr, obj, null, Members}
use onetrackmind.Comms.Effects.{LogLine}
use onetrackmind.Orchestration.Narrowing.{field, as_string, extract_string}
use onetrackmind.Orchestration.EventClassifier.Input.{
  ClassificationSource, app, email, sms, internal, lifecycle, source_text,
  NormalizedEmailNotification, InternalPayload, RawInput, ClassificationError, ProcessedEvent,
}
use onetrackmind.Orchestration.EventClassifier.Classify.{
  source_to_event_type, not_blank, app_missing, event_missing, extract_app_content,
  extract_sms_content, extract_email_content, extract_internal_content, extract_lifecycle_content,
  email_json, payload_json, extract_content, build_metadata, classified_line, classified,
  classify_event,
}

-- A string member with some code unit that is not white space.
abbrev pub IsInked : Members → Text → Text → Type 0
IsInked body key content = (field body key ≡ some (str content)) × (every is_space content ≡ false)

-- The content of the event, by its source.
abbrev pub IsContent : JsonCodec → ClassificationSource → RawInput → Text → Type 0
IsContent codec app input content = IsInked input.body (text "content") content
IsContent codec sms input content = field input.body (text "body") ≡ some (str content)
IsContent codec email input content =
    (e : NormalizedEmailNotification) × (input.normalized_email ≡ some e)
    × (content ≡ codec.stringify (email_json e))
IsContent codec internal input content =
    (p : InternalPayload) × (input.internal_payload ≡ some p)
    × (content ≡ codec.stringify (payload_json p))
IsContent codec lifecycle input content =
    ((p : InternalPayload) × (input.internal_payload ≡ some p)
      × (content ≡ codec.stringify (payload_json p)))
    ⊎ ((input.internal_payload ≡ none) × IsInked input.body (text "event") content)

-- A source's extractor: the content, or an error of this request and source, and no content.
abbrev Extracted :
    JsonCodec → ClassificationSource → RawInput → Throws ClassificationError Text → Type 0
Extracted codec source input (returns content) = IsContent codec source input content
Extracted codec source input (throws e) =
    (e.request_id ≡ input.request_id)
    × (e.source ≡ source_text source)
    × ((content : Text) → ¬ IsContent codec source input content)

string_cases :
    (v : Option Json)
    → ((s : Text) × (v ≡ some (str s)) × (as_string v ≡ some s))
      ⊎ ((as_string v ≡ none) × ((s : Text) → v ≢ some (str s)))
string_cases none = inr (refl, λ s h. cc)
string_cases (some (str s)) = inl (s, refl, refl)
string_cases (some null) = inr (refl, λ s h. cc)
string_cases (some (bool b)) = inr (refl, λ s h. cc)
string_cases (some (num n)) = inr (refl, λ s h. cc)
string_cases (some (arr vs)) = inr (refl, λ s h. cc)
string_cases (some (obj ms)) = inr (refl, λ s h. cc)

-- The test of a string that must not be blank.
not_blank_cases :
    (body : Members) (key : Text) (missing : Throws ClassificationError Text)
    → ((content : Text) × (not_blank (extract_string body key) missing ≡ returns content)
        × IsInked body key content)
      ⊎ ((not_blank (extract_string body key) missing ≡ missing)
          × ((content : Text) → ¬ IsInked body key content))
unfolding extract_string text
not_blank_cases body key missing = elim (string_cases (field body key)) [
  | inr (absent, none_there) ↦ inr (rw absent, λ content (there, _). none_there content there)
  | inl (s, there, found) ↦ elim (Bool-cases (trim s == [])) [
    | inl blank ↦ inr (
      rw (found, blank),
      λ content (there', inked). ground (arith, ==_iff (trim s) [], trim_iff s),
    )
    | inr inked ↦
        inl (s, rw (found, inked), (there, ground (arith, ==_iff (trim s) [], trim_iff s)))
  ]
]

extract_content-Extracted :
    (codec : JsonCodec) (source : ClassificationSource) (input : RawInput)
    → Extracted codec source input (extract_content codec source input)
unfolding extract_content extract_app_content extract_lifecycle_content extract_sms_content
    extract_email_content extract_internal_content extract_string text
extract_content-Extracted codec app input =
    elim (not_blank_cases input.body (text "content") (app_missing input.request_id)) [
      | inl (content, found, inked) ↦ rw found inked
      | inr (missing, none_there) ↦ rw missing (refl, refl, none_there)
    ]
extract_content-Extracted codec sms input = elim (string_cases (field input.body (text "body"))) [
  | inl (s, there, found) ↦ rw found there
  | inr (absent, none_there) ↦ rw absent (refl, refl, none_there)
]
extract_content-Extracted codec email input = elim (Option-cases input.normalized_email) [
  | inl absent ↦ rw absent (refl, refl, λ content (e, there, _). cc)
  | inr (e, there) ↦ rw there (e, refl, refl)
]
extract_content-Extracted codec internal input = elim (Option-cases input.internal_payload) [
  | inl absent ↦ rw absent (refl, refl, λ content (p, there, _). cc)
  | inr (p, there) ↦ rw there (p, refl, refl)
]
extract_content-Extracted codec lifecycle input = elim (Option-cases input.internal_payload) [
  | inr (p, there) ↦ rw there (inl (p, refl, refl))
  | inl absent ↦ elim (not_blank_cases input.body (text "event") (event_missing input.request_id)) [
    | inl (content, found, inked) ↦ rw (absent, found) (inr (refl, inked))
    | inr (missing, none_there) ↦
        rw (absent, missing)
          (
            refl,
            refl,
            λ content h. elim h [
              | inl (p, there, _) ↦ cc
              | inr (_, inked) ↦ none_there content inked
            ],
          )
  ]
]

-- What the classifier's result says of the input and of the log.
abbrev pub Classified :
    JsonCodec
    → RawInput
    → ℕ
    → List LogLine
    → Throws ClassificationError ProcessedEvent × List LogLine
    → Type 0
Classified codec input now log (returns event, log') =
    IsContent codec input.source input event.raw_content
    × (event.event_type ≡ source_to_event_type input.source)
    × (event.metadata ≡ build_metadata input)
    × (event.timestamp ≡ to_iso_string now)
    × (log' ≡ log ++ classified_line input event.metadata ∷ [])
Classified codec input now log (throws e, log') =
    (log' ≡ log)
    × (e.request_id ≡ input.request_id)
    × (e.source ≡ source_text input.source)
    × ((content : Text) → ¬ IsContent codec input.source input content)

-- The classifier returns an event exactly for an input that has the content its source calls for: a
-- string member that is not blank for the app, a string for SMS, a normalized notification for email,
-- a payload for an internal trigger, and a payload or a string that is not blank for the lifecycle. The
-- event then carries that content and one line is logged; else an error of this request and source is
-- thrown, and nothing is logged.
pub classify_event-Classified :
    (codec : JsonCodec) (input : RawInput) (now : ℕ) (log : List LogLine)
    → Classified codec input now log (classify_event codec input now log)
unfolding classify_event classified
classify_event-Classified codec input now log =
    classified_as (extract_content codec input.source input)
      (extract_content-Extracted codec input.source input)
  where
    classified_as :
        (extracted : Throws ClassificationError Text)
        → Extracted codec input.source input extracted
        → Classified codec input now log (classified input now log extracted)
    classified_as (throws e) (request, source, none_there) = (refl, request, source, none_there)
    classified_as (returns content) there = (there, refl, refl, refl, refl)
