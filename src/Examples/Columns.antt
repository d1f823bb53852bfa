-- ===== src/Examples/Columns.antt =====
-- The theorems on the data layer and on the content hash, at concrete columns and texts.
use onetrackmind.Common.{
  All, ℕ, ◌+◌, ◌≡◌, ◌↔◌, true, false, List, [], ◌∷◌, Option, none, some, Text, text, text_eq,
  Text-Eq, ◌==◌, All, ◌≢◌, refl, if◌then◌else◌,
}
use onetrackmind.Common.Results.{returns}
use onetrackmind.Db.Vocabulary.{content_hash, ContactStatus, PollingProvider, device_comms_log}
use onetrackmind.Db.Serializers.{
  JsonCodec, Json, Items, Parsed, value, str, arr, obj, nil, cons, end, member, items, elems, ok,
}
use onetrackmind.Db.Mapping.Contacts.{ContactDomain, contacts_from_db, contacts_to_db}
use onetrackmind.Db.Mapping.PollingState.{
  PollingStateDomain, polling_state_from_db, polling_state_to_db,
}
use onetrackmind.Db.Mapping.RoundTrip.{contacts_round_trip, polling_state_round_trip}
use onetrackmind.Db.Constraints.Dedup.{
  DedupCandidate, DedupDecision, suppress, decide_dedup, IsDecision, decide_dedup-IsDecision,
  decide_dedup_total,
}
use onetrackmind.Db.Constraints.Expiry.{
  ExpiryKey, ExpiryCheckResult, check_idempotency_expiry, ttl_ms, check_idempotency_expiry_iff,
}
use onetrackmind.Db.Constraints.Device.{
  DeviceWriteResult, validate_device_write, IsWritable, validate_device_write_iff,
}
use onetrackmind.Db.Constraints.Identifiers.{
  is_contact_identifier, IsContactIdentifier, parse_contact_identifiers,
  parse_contact_identifiers_iff,
}
use onetrackmind.Comms.ContentHash.{ContentHashInput, canonical}
use onetrackmind.Comms.ContentHash.Laws.{SameContent, canonical_iff}

abbrev identifiers : List Json
identifiers =
    obj
      (member (text "channel") (str (text "sms")) (member (text "value") (str (text "+1555")) end))
    ∷ []

-- A codec that writes an empty array, any other array and any object apart.
write_json : Json → Text
write_json (arr nil) = text "[]"
write_json (arr (cons v vs)) = text "[...]"
write_json _ = text "{}"

read_json : Text → Parsed
read_json s =
    if s == text "[]"
    then value (arr nil)
    else if s == text "[...]"
    then value (arr (items identifiers))
    else value (obj end)

abbrev codec : JsonCodec
codec = record { parse = read_json; stringify = write_json }

abbrev contact : ContactDomain
contact = record {
  id = text "c1";
  created_at = text "2026-01-01T00:00:00.000Z";
  display_name = text "Ann";
  channels = [];
  identifiers = identifiers;
  tone_level = 5;
  status = ContactStatus.active;
  is_internal_channel = false;
  recognition_metadata = end;
  is_synced = true;
}

contacts_round_trip_example : contacts_from_db codec (contacts_to_db codec contact) ≡ ok contact
unfolding write_json read_json text text_eq is_contact_identifier
contacts_round_trip_example = contacts_round_trip codec contact refl refl refl refl

abbrev polling : PollingStateDomain
polling = record {
  id = text "p1";
  provider = PollingProvider.yahoo;
  account_identifier = text "ann@example.com";
  folder = text "INBOX";
  cursor = some end;
  last_polled_at = none;
  is_synced = false;
}

polling_state_round_trip_example :
    polling_state_from_db codec (polling_state_to_db codec polling) ≡ ok polling
unfolding write_json read_json text text_eq
polling_state_round_trip_example = polling_state_round_trip codec polling refl

parse_contact_identifiers_iff_example :
    (parse_contact_identifiers codec (text "[...]") ≡ ok identifiers) ↔ (
      (xs : Items) × (codec.parse (text "[...]") ≡ value (arr xs))
      × (identifiers ≡ elems xs)
      × All IsContactIdentifier identifiers)
parse_contact_identifiers_iff_example =
    parse_contact_identifiers_iff codec (text "[...]") identifiers

-- `Date.parse` on two texts.
date_parse : Text → Option ℕ
date_parse s = if s == text "t0" then some 0 else if s == text "t5" then some 300000 else none

abbrev incoming : DedupCandidate
incoming = record { content_hash = text "h"; created_at = text "t5" }

abbrev earlier : DedupCandidate
earlier = record { content_hash = text "h"; created_at = text "t0" }

suppressed : decide_dedup date_parse incoming (earlier ∷ []) ≡ returns (suppress earlier)
unfolding decide_dedup date_parse text text_eq
suppressed = refl

decide_dedup-IsDecision_example :
    (m : ℕ) × (date_parse incoming.created_at ≡ some m)
    × IsDecision date_parse incoming (earlier ∷ []) m (suppress earlier)
decide_dedup-IsDecision_example =
    decide_dedup-IsDecision date_parse incoming (earlier ∷ []) (suppress earlier) suppressed

is_instant : (s : Text) (t : ℕ) → date_parse s ≡ some t → date_parse s ≢ none
is_instant s t h k = cc

incoming_instant : date_parse (text "t5") ≢ none
unfolding date_parse text text_eq
incoming_instant = is_instant (text "t5") 300000 refl

earlier_instant : date_parse (text "t0") ≢ none
unfolding date_parse text text_eq
earlier_instant = is_instant (text "t0") 0 refl

decide_dedup_total_example :
    (decision : DedupDecision) × (decide_dedup date_parse incoming (earlier ∷ [])
      ≡ returns decision)
decide_dedup_total_example =
    decide_dedup_total date_parse incoming (earlier ∷ []) incoming_instant (earlier_instant, tt)

abbrev key : ExpiryKey
key = record { key_type = content_hash; first_seen_at = text "t0"; expires_at = text "t5" }

check_idempotency_expiry_iff_example :
    (check_idempotency_expiry date_parse key ≡ ExpiryCheckResult.ok) ↔ (
      (first : ℕ) × (date_parse key.first_seen_at ≡ some first)
      × (date_parse key.expires_at ≡ some (first + ttl_ms key.key_type)))
check_idempotency_expiry_iff_example = check_idempotency_expiry_iff date_parse key

validate_device_write_iff_example :
    (validate_device_write device_comms_log (text "is_synced" ∷ []) ≡ DeviceWriteResult.ok)
    ↔ ((device_comms_log ≡ device_comms_log) × All IsWritable (text "is_synced" ∷ []))
validate_device_write_iff_example =
    validate_device_write_iff device_comms_log (text "is_synced" ∷ [])

abbrev content : ContentHashInput
content = record {
  from_identifier = text "a";
  to_identifiers = text "b" ∷ text "c" ∷ [];
  body = text "say \"x\"";
}

canonical_iff_example :
    (canonical content ≡ canonical (record content { to_identifiers = text "c" ∷ text "b" ∷ [] }))
    ↔ SameContent content (record content { to_identifiers = text "c" ∷ text "b" ∷ [] })
canonical_iff_example =
    canonical_iff content (record content { to_identifiers = text "c" ∷ text "b" ∷ [] })
