-- ===== src/Comms/CommsLogWriter/Table/Invariant.antt =====
-- The constraints of the `comms_log` table as an invariant, and what the insert does.
use onetrackmind.Common.{
  Bool, true, false, List, [], ◌∷◌, ◌++◌, Option, none, some, Text, Text-Eq, ==_iff, some_of, ◌≡◌,
  refl, arith, ◌⊎◌, inl, inr, Bool-cases, Option-cases,
}
use onetrackmind.Common.Results.{Thrown, returns, throws}
use onetrackmind.Db.Vocabulary.{
  CommsProvider-Eq, CommsDirection, DeliveryState, IdempotencyProvenance,
}
use onetrackmind.Db.Mapping.CommsLog.{CommsLogRow}
use onetrackmind.Db.Mapping.Contacts.{ContactRow}
use onetrackmind.Comms.Effects.{has_message, has_contact}
use onetrackmind.Comms.CommsLogWriter.Table.{
  is_paired, is_keyed, is_message, is_known, pairing_failure, provenance_failure,
  message_id_conflict, contact_conflict, sql_insert_comms_log,
}

-- An outbound message has a delivery state, and an inbound one has none.
abbrev pub IsPaired : CommsDirection → Option DeliveryState → Type 0
IsPaired direction state =
    ((direction ≡ CommsDirection.inbound) × (state ≡ none))
    ⊎ ((direction ≡ CommsDirection.outbound) × (s : DeliveryState) × (state ≡ some s))

-- A message that is known by its provider's id has one.
abbrev pub IsKeyed : IdempotencyProvenance → Option Text → Type 0
IsKeyed provenance id =
    (provenance ≡ IdempotencyProvenance.content_hash_fallback)
    ⊎ ((provenance ≡ IdempotencyProvenance.provider_id) × (key : Text) × (id ≡ some key))

is_paired-IsPaired :
    (direction : CommsDirection) (state : Option DeliveryState)
    → is_paired direction state ≡ true
    → IsPaired direction state
is_paired-IsPaired CommsDirection.inbound none h = inl (refl, refl)
is_paired-IsPaired CommsDirection.inbound (some s) h = absurd (cc h)
is_paired-IsPaired CommsDirection.outbound none h = absurd (cc h)
is_paired-IsPaired CommsDirection.outbound (some s) h = inr (refl, s, refl)

is_keyed-IsKeyed :
    (provenance : IdempotencyProvenance) (id : Option Text)
    → is_keyed provenance id ≡ true
    → IsKeyed provenance id
is_keyed-IsKeyed IdempotencyProvenance.content_hash_fallback id h = inl refl
is_keyed-IsKeyed IdempotencyProvenance.provider_id (some key) h = inr (refl, key, refl)
is_keyed-IsKeyed IdempotencyProvenance.provider_id none h = absurd (cc h)

-- The two CHECKs and the foreign key.
abbrev pub IsSoundRow : List ContactRow → CommsLogRow → Type 0
IsSoundRow contacts row =
    IsPaired row.direction row.delivery_state
    × IsKeyed row.idempotency_provenance row.provider_message_id
    × (has_contact row.contact_id contacts ≡ true)

-- Neither its primary key nor its message id is there.
abbrev pub IsNewIn : List CommsLogRow → CommsLogRow → Type 0
IsNewIn rows row =
    (has_message row.id rows ≡ false) × (is_known row.provider row.provider_message_id rows ≡ false)

abbrev pub IsCommsTable : List ContactRow → List CommsLogRow → Type 0
IsCommsTable contacts [] = Unit
IsCommsTable contacts (row ∷ rows) =
    IsSoundRow contacts row × IsNewIn rows row × IsCommsTable contacts rows

pub sql_insert_comms_log_cases :
    (row : CommsLogRow) (contacts : List ContactRow) (rows : List CommsLogRow)
    → ((e : Thrown) × (sql_insert_comms_log row contacts rows ≡ throws e))
      ⊎ (((sql_insert_comms_log row contacts rows ≡ returns (none, rows))
            × (is_known row.provider row.provider_message_id rows ≡ true))
          ⊎ ((sql_insert_comms_log row contacts rows ≡ returns (some row.id, rows ++ row ∷ []))
              × IsSoundRow contacts row
              × IsNewIn rows row))
unfolding sql_insert_comms_log
sql_insert_comms_log_cases row contacts rows =
    elim (Bool-cases (is_paired row.direction row.delivery_state)) [
      | inr unpaired ↦ inl (pairing_failure, rw unpaired)
      | inl paired ↦
          elim (Bool-cases (is_keyed row.idempotency_provenance row.provider_message_id)) [
            | inr unkeyed ↦ inl (provenance_failure, rw (paired, unkeyed))
            | inl keyed ↦ elim (Bool-cases (has_message row.id rows)) [
              | inl taken ↦ inl (message_id_conflict, rw (paired, keyed, taken))
              | inr fresh ↦ elim (Bool-cases (is_known row.provider row.provider_message_id rows)) [
                | inl known ↦ inr (inl (rw (paired, keyed, fresh, known), known))
                | inr new ↦ elim (Bool-cases (has_contact row.contact_id contacts)) [
                  | inr missing ↦ inl (contact_conflict, rw (paired, keyed, fresh, new, missing))
                  | inl there ↦ inr (
                      inr (
                        rw (paired, keyed, fresh, new, there),
                        (
                          is_paired-IsPaired row.direction row.delivery_state paired,
                          is_keyed-IsKeyed row.idempotency_provenance row.provider_message_id keyed,
                          there,
                        ),
                        (fresh, new),
                      ))
                ]
              ]
            ]
          ]
    ]

some_of-append :
    (p : CommsLogRow → Bool) (rows : List CommsLogRow) (row : CommsLogRow)
    → some_of p rows ≡ false
    → p row ≡ false
    → some_of p (rows ++ row ∷ []) ≡ false
some_of-append p [] row h k = rw k
some_of-append p (r ∷ rows) row h k = ground (arith, some_of-append p rows row)

is_message_sym :
    (a b : CommsLogRow) (id : Text)
    → a.provider_message_id ≡ some id
    → is_known b.provider b.provider_message_id (a ∷ []) ≡ false
    → is_message a.provider id b ≡ false
is_message_sym a b id named h = elim (Option-cases b.provider_message_id) [
  | inl unnamed ↦ ground arith
  | inr (other, e) ↦ ground (
    arith,
    ==_iff a.provider b.provider,
    ==_iff b.provider a.provider,
    ==_iff id other,
    ==_iff other id,
  )
]

-- A row stays new when another row that differs from it is added.
IsNewIn-append :
    (rows : List CommsLogRow) (a b : CommsLogRow)
    → IsNewIn rows a
    → IsNewIn (a ∷ []) b
    → IsNewIn (rows ++ b ∷ []) a
IsNewIn-append rows a b (fresh, unknown) (other_id, other_key) = (
  some_of-append _ rows b fresh (ground (arith, ==_iff a.id b.id, ==_iff b.id a.id)),
  elim (Option-cases a.provider_message_id) [
    | inl unnamed ↦ ground arith
    | inr (id, named) ↦
        rw named
          (some_of-append _ rows b (rw named at unknown) (is_message_sym a b id named other_key))
  ],
)

IsNewIn-head :
    (r : CommsLogRow) (rows : List CommsLogRow) (row : CommsLogRow)
    → IsNewIn (r ∷ rows) row
    → IsNewIn (r ∷ []) row
IsNewIn-head r rows row (fresh, unknown) = elim (Option-cases row.provider_message_id) [
  | inl unnamed ↦ (ground arith, ground arith)
  | inr (id, named) ↦ (ground arith, ground arith)
]

IsNewIn-tail :
    (r : CommsLogRow) (rows : List CommsLogRow) (row : CommsLogRow)
    → IsNewIn (r ∷ rows) row
    → IsNewIn rows row
IsNewIn-tail r rows row (fresh, unknown) = elim (Option-cases row.provider_message_id) [
  | inl unnamed ↦ (ground arith, ground arith)
  | inr (id, named) ↦ (ground arith, ground arith)
]

pub IsCommsTable-append :
    (contacts : List ContactRow) (rows : List CommsLogRow) (row : CommsLogRow)
    → IsCommsTable contacts rows
    → IsSoundRow contacts row
    → IsNewIn rows row
    → IsCommsTable contacts (rows ++ row ∷ [])
IsCommsTable-append contacts [] row table sound new =
    (sound, (refl, known_nowhere row.provider_message_id), tt)
  where
    known_nowhere : (id : Option Text) → is_known row.provider id [] ≡ false
    known_nowhere none = refl
    known_nowhere (some id) = refl
IsCommsTable-append contacts (r ∷ rows) row (here, alone, table) sound new = (
  here,
  IsNewIn-append rows r row alone (IsNewIn-head r rows row new),
  IsCommsTable-append contacts rows row table sound (IsNewIn-tail r rows row new),
)
