-- ===== src/Orchestration/Session/Log/Written.antt =====
-- Which entries are written.
use onetrackmind.Common.{
  ℕ, Option, List, [], ◌∷◌, ◌++◌, none, some, Text, text, All, ◌≡◌, ◌↔◌, refl, sym, ap, ◌∙◌, ◌⊎◌,
  inl, inr, Option-cases, List-cases,
}
use onetrackmind.Common.Results.{Thrown, Throws, returns, throws, Throws-cases, returns-inj}
use onetrackmind.Runtime.Date.{to_iso_string}
use onetrackmind.Db.Serializers.{
  Json, null, bool, num, str, arr, obj, Members, JsonCodec, Parsed, value, syntax_error,
}
use onetrackmind.Orchestration.Narrowing.{field, to_record}
use onetrackmind.Orchestration.Session.Store.{
  SessionDb, SessionLogEntry, Faults, insert_entry, SessionPersistenceError, PersistenceCause,
  invalid_payload, write_error,
}
use onetrackmind.Orchestration.Session.Log.{
  EntryType, session_open, user_message, assistant_response, flag_raised, flag_acknowledged,
  approval_decision, route_result, session_close, entry_type_text, payload_schemas, missing_of,
  serialize_payload, NewEntry, checked_payload, write_log_entry,
}

abbrev HasAll : List Text → Members → Type 0
HasAll required ms = All (λ key. (v : Json) × (field ms key ≡ some v)) required

missing_of_iff :
    (required : List Text) (ms : Members) → (missing_of required ms ≡ []) ↔ HasAll required ms
unfolding missing_of
missing_of_iff [] ms = (λ h. tt, λ h. refl)
missing_of_iff (key ∷ required) ms = elim (Option-cases (field ms key)) [
  | inl gone ↦ (λ h. absurd (cc (rw (missing_of, gone) at h)), λ h. absurd (cc (h.0.1, gone)))
  | inr (v, there) ↦ (
    λ h. ((v, there), (missing_of_iff required ms).0 (rw (missing_of, there) at h)),
    λ h. rw (missing_of, there) ((missing_of_iff required ms).1 h.1),
  )
]

abbrev Has : Members → Text → Type 0
Has ms key = (v : Json) × (field ms key ≡ some v)

-- The members that the payload of each type has.
abbrev pub IsComplete : EntryType → Members → Type 0
IsComplete session_open ms =
    Has ms (text "sessionId")
    × Has ms (text "userId")
    × Has ms (text "editionId")
    × Has ms (text "openedAt")
IsComplete user_message ms = Has ms (text "content") × Has ms (text "channel")
IsComplete assistant_response ms =
    Has ms (text "content")
    × Has ms (text "inputTokens")
    × Has ms (text "outputTokens")
    × Has ms (text "model")
IsComplete flag_raised ms = Has ms (text "flagId") × Has ms (text "type") × Has ms (text "content")
IsComplete flag_acknowledged ms = Has ms (text "flagId")
IsComplete approval_decision ms = Has ms (text "requestId") × Has ms (text "decision")
IsComplete route_result ms =
    Has ms (text "channel") × Has ms (text "success") × Has ms (text "segmentCount")
IsComplete session_close ms = Has ms (text "closedAt") × Has ms (text "turnCount")

HasAll-iff-IsComplete :
    (t : EntryType) (ms : Members) → HasAll (payload_schemas t) ms ↔ IsComplete t ms
HasAll-iff-IsComplete session_open ms =
    (λ (a, (b, (c, (d, _)))). (a, b, c, d), λ (a, b, c, d). (a, (b, (c, (d, tt)))))
HasAll-iff-IsComplete user_message ms = (λ (a, (b, _)). (a, b), λ (a, b). (a, (b, tt)))
HasAll-iff-IsComplete assistant_response ms =
    (λ (a, (b, (c, (d, _)))). (a, b, c, d), λ (a, b, c, d). (a, (b, (c, (d, tt)))))
HasAll-iff-IsComplete flag_raised ms =
    (λ (a, (b, (c, _))). (a, b, c), λ (a, b, c). (a, (b, (c, tt))))
HasAll-iff-IsComplete flag_acknowledged ms = (λ (a, _). a, λ a. (a, tt))
HasAll-iff-IsComplete approval_decision ms = (λ (a, (b, _)). (a, b), λ (a, b). (a, (b, tt)))
HasAll-iff-IsComplete route_result ms =
    (λ (a, (b, (c, _))). (a, b, c), λ (a, b, c). (a, (b, (c, tt))))
HasAll-iff-IsComplete session_close ms = (λ (a, (b, _)). (a, b), λ (a, b). (a, (b, tt)))

-- The payload is a JSON object with every required member of its type.
abbrev pub IsPayload : JsonCodec → NewEntry → Members → Type 0
IsPayload codec entry ms =
    (codec.parse entry.payload ≡ value (obj ms)) × IsComplete entry.entry_type ms

abbrev cause_of : SessionPersistenceError → PersistenceCause
cause_of e = e.cause

throws-inj :
    {a b : SessionPersistenceError}
    → ◌≡◌ {A = Throws SessionPersistenceError Text} (throws a) (throws b)
    → a ≡ b
throws-inj h = cc h

checked-accepts :
    (codec : JsonCodec) (entry : NewEntry) (ms : Members)
    → IsPayload codec entry ms
    → checked_payload codec entry ≡ returns (codec.stringify (obj ms))
unfolding checked_payload serialize_payload to_record
checked-accepts codec entry ms (parsed, there) = rw (
  checked_payload,
  parsed,
  serialize_payload,
  (missing_of_iff (payload_schemas entry.entry_type) ms).1
      ((HasAll-iff-IsComplete entry.entry_type ms).1 there),
)

pub record_shape : (v : Json) (ms : Members) → to_record v ≡ some ms → v ≡ obj ms
unfolding to_record
record_shape (obj found) ms h = cc h
record_shape null ms h = absurd (cc h)
record_shape (bool b) ms h = absurd (cc h)
record_shape (num n) ms h = absurd (cc h)
record_shape (str t) ms h = absurd (cc h)
record_shape (arr vs) ms h = absurd (cc h)

module _ (codec : JsonCodec) (entry : NewEntry) (payload : Text) where
  serialized-IsPayload :
      (ms : Members)
      → codec.parse entry.payload ≡ value (obj ms)
      → checked_payload codec entry ≡ returns payload
      → IsPayload codec entry ms × (payload ≡ codec.stringify (obj ms))
  unfolding checked_payload serialize_payload to_record
  serialized-IsPayload ms parsed h =
      elim (List-cases (missing_of (payload_schemas entry.entry_type) ms)) [
        | inl complete ↦ (
          (
            parsed,
            (HasAll-iff-IsComplete entry.entry_type ms).0
                ((missing_of_iff (payload_schemas entry.entry_type) ms).0 complete),
          ),
          sym (returns-inj (rw (checked_payload, parsed, serialize_payload, complete) at h)),
        )
        | inr (key, more, missing) ↦
            absurd (cc (rw (checked_payload, parsed, serialize_payload, missing) at h))
      ]

  parsed-IsPayload :
      (p : Parsed)
      → codec.parse entry.payload ≡ p
      → checked_payload codec entry ≡ returns payload
      → (ms : Members) × IsPayload codec entry ms × (payload ≡ codec.stringify (obj ms))
  unfolding checked_payload
  parsed-IsPayload (syntax_error detail) parsed h = absurd (cc (rw (checked_payload, parsed) at h))
  parsed-IsPayload (value v) parsed h = elim (Option-cases (to_record v)) [
    | inl shapeless ↦ absurd (cc (rw (checked_payload, parsed, shapeless) at h))
    | inr (ms, shaped) ↦
        let (holds, same) =
          serialized-IsPayload ms (parsed ∙ ap (λ x. value x) (record_shape v ms shaped)) h in
        (ms, holds, same)
  ]

checked-refuses :
    (codec : JsonCodec) (entry : NewEntry) (e : SessionPersistenceError)
    → checked_payload codec entry ≡ throws e
    → e.cause ≡ invalid_payload
unfolding checked_payload serialize_payload
checked-refuses codec entry e h = refused (codec.parse entry.payload) refl
  where
    refused : (p : Parsed) → codec.parse entry.payload ≡ p → e.cause ≡ invalid_payload
    refused (syntax_error detail) parsed =
        ap cause_of (sym (throws-inj (rw (checked_payload, parsed) at h)))
    refused (value v) parsed = elim (Option-cases (to_record v)) [
      | inl shapeless ↦
          ap cause_of (sym (throws-inj (rw (checked_payload, parsed, shapeless) at h)))
      | inr (ms, shaped) ↦ elim (List-cases (missing_of (payload_schemas entry.entry_type) ms)) [
        | inl complete ↦
            absurd (cc (rw (checked_payload, parsed, shaped, serialize_payload, complete) at h))
        | inr (key, more, missing) ↦ ap cause_of (
            sym
              (throws-inj (rw (checked_payload, parsed, shaped, serialize_payload, missing) at h)))
      ]
    ]

-- The row that a new entry becomes.
abbrev pub row_for : NewEntry → Text → Text → ℕ → SessionLogEntry
row_for entry payload entry_id now = record {
  entry_id = entry_id;
  session_id = entry.session_id;
  user_id = entry.user_id;
  entry_type = entry_type_text entry.entry_type;
  payload = payload;
  schema_version = 1;
  timestamp = to_iso_string now;
}

module _ (codec : JsonCodec) (fault : Faults) (entry : NewEntry) (entry_id : Text) (now : ℕ)
    (db : SessionDb) where
  -- What a write leaves behind.
  abbrev pub IsWritten : Option SessionPersistenceError × SessionDb → Type 0
  IsWritten (none, after) =
      (ms : Members) × IsPayload codec entry ms
      × (fault insert_entry ≡ none)
      × (after ≡ record db {
        session_log = db.session_log ++ row_for entry (codec.stringify (obj ms)) entry_id now ∷ [];
      })
  IsWritten (some e, after) =
      (after ≡ db)
      × (((e.cause ≡ invalid_payload) × (¬ ((ms : Members) × IsPayload codec entry ms)))
          ⊎ ((e.cause ≡ write_error) × (thrown : Thrown) × (fault insert_entry ≡ some thrown)))

  -- An entry is written when its payload is a JSON object with every member that its type requires
  -- and the insert does not fail: the one row that is added then holds the object, written anew, under
  -- version 1 and the time of the call. Else the database stays as it was, and the error's cause is
  -- `invalid_payload` only if the payload is no such object, and `write_error` only if the insert
  -- failed.
  pub write_log_entry-IsWritten : IsWritten (write_log_entry codec fault entry entry_id now db)
  unfolding write_log_entry
  write_log_entry-IsWritten = elim (Throws-cases (checked_payload codec entry)) [
    | inr (e, refused) ↦
        rw (write_log_entry, refused)
          (
            refl,
            inl (
              checked-refuses codec entry e refused,
              λ (ms, holds). cc (refused, checked-accepts codec entry ms holds),
            ),
          )
    | inl (payload, checked) ↦ elim (Option-cases (fault insert_entry)) [
      | inr (thrown, bad) ↦ rw (write_log_entry, checked, bad) (refl, inr (refl, thrown, bad))
      | inl fine ↦
          let (ms, holds, same) =
            parsed-IsPayload codec entry payload (codec.parse entry.payload) refl checked in
          rw (write_log_entry, checked, fine, same) (ms, holds, fine, refl)
    ]
  ]
