-- ===== src/Comms/Idempotency/Keys/Laws.antt =====
-- What the statements on the `idempotency_keys` table do.
use onetrackmind.Common.{
  true, false, List, [], ◌∷◌, ◌++◌, none, some, Text, Text-Eq, ◌==◌, ==_refl, some_of, ◌≡◌, refl,
  ◌⊎◌, inl, inr, arith, Bool-cases,
}
use onetrackmind.Common.Results.{Thrown, returns, throws}
use onetrackmind.Db.Vocabulary.{CommsProvider, CommsProvider-Eq, IdempotencyKeyType, content_hash}
use onetrackmind.Db.Mapping.IdempotencyKeys.{IdempotencyKeyRow}
use onetrackmind.Db.Mapping.CommsLog.{CommsLogRow}
use onetrackmind.Comms.Effects.{has_message}
use onetrackmind.Comms.Idempotency.Keys.{
  sql_link, link_conflict, DuplicateRow, duplicate_row, is_provider_key, id_taken, conflicts,
  id_conflict, key_conflict, sql_provider_id_gate, sql_provider_id_duplicate,
  sql_content_hash_insert, set_link,
}

pub sql_provider_id_gate_cases :
    (row : IdempotencyKeyRow) (rows : List IdempotencyKeyRow)
    → ((e : Thrown) × (sql_provider_id_gate row rows ≡ throws e))
      ⊎ ((sql_provider_id_gate row rows ≡ returns (none, rows))
          ⊎ (sql_provider_id_gate row rows ≡ returns (some row.id, rows ++ row ∷ [])))
unfolding sql_provider_id_gate
sql_provider_id_gate_cases row rows = elim (Bool-cases (id_taken row.id rows)) [
  | inl taken ↦ inl (id_conflict, rw taken)
  | inr fresh ↦ elim (Bool-cases (conflicts row rows)) [
    | inl known ↦ inr (inl (rw (fresh, known)))
    | inr new ↦ inr (inr (rw (fresh, new)))
  ]
]

pub sql_content_hash_insert_cases :
    (row : IdempotencyKeyRow) (rows : List IdempotencyKeyRow)
    → ((e : Thrown) × (sql_content_hash_insert row rows ≡ throws e))
      ⊎ (sql_content_hash_insert row rows ≡ returns (rows ++ row ∷ []))
unfolding sql_content_hash_insert
sql_content_hash_insert_cases row rows = elim (Bool-cases (id_taken row.id rows)) [
  | inl taken ↦ inl (id_conflict, rw taken)
  | inr fresh ↦ elim (Bool-cases (conflicts row rows)) [
    | inl known ↦ inl (key_conflict, rw (fresh, known))
    | inr new ↦ inr (rw (fresh, new))
  ]
]

module _ (provider : CommsProvider) (value : Text) where
  -- The first row under the key stays the first when rows are added.
  pub duplicate-append :
      (rows more : List IdempotencyKeyRow) (found : DuplicateRow)
      → sql_provider_id_duplicate provider value rows ≡ some found
      → sql_provider_id_duplicate provider value (rows ++ more) ≡ some found
  unfolding sql_provider_id_duplicate
  duplicate-append [] more found h = cc
  duplicate-append (row ∷ rows) more found h = ground (arith, duplicate-append rows more found)

  -- A row under the key is found unless an earlier one is.
  pub duplicate-append_new :
      (rows : List IdempotencyKeyRow) (row : IdempotencyKeyRow)
      → is_provider_key provider value row ≡ true
      → some_of (is_provider_key provider value) rows ≡ false
      → sql_provider_id_duplicate provider value (rows ++ row ∷ []) ≡ some (duplicate_row row)
  unfolding sql_provider_id_duplicate
  duplicate-append_new [] row h k = rw h
  duplicate-append_new (r ∷ rows) row h k = ground (arith, duplicate-append_new rows row h)

  -- There is a conflict exactly when a row is found.
  pub conflict_of_duplicate :
      (rows : List IdempotencyKeyRow) (found : DuplicateRow)
      → sql_provider_id_duplicate provider value rows ≡ some found
      → some_of (is_provider_key provider value) rows ≡ true
  unfolding sql_provider_id_duplicate
  conflict_of_duplicate [] found h = cc
  conflict_of_duplicate (row ∷ rows) found h = ground (arith, conflict_of_duplicate rows found)

  pub no_conflict_of_duplicate :
      (rows : List IdempotencyKeyRow)
      → sql_provider_id_duplicate provider value rows ≡ none
      → some_of (is_provider_key provider value) rows ≡ false
  unfolding sql_provider_id_duplicate
  no_conflict_of_duplicate [] h = refl
  no_conflict_of_duplicate (row ∷ rows) h = ground (arith, no_conflict_of_duplicate rows)

  -- A link changes no id and no key.
  pub duplicate-set_link :
      (message_id id : Text) (rows : List IdempotencyKeyRow) (found : DuplicateRow)
      → sql_provider_id_duplicate provider value rows ≡ some found
      → (found' : DuplicateRow) × (sql_provider_id_duplicate provider value
            (set_link message_id id rows)
          ≡ some found')
        × (found'.id ≡ found.id)
  unfolding sql_provider_id_duplicate set_link
  duplicate-set_link message_id id [] found h = absurd (ground arith)
  duplicate-set_link message_id id (row ∷ rows) found h =
      elim (Bool-cases (is_provider_key provider value row)) [
        | inl here ↦ elim (Bool-cases (row.id == id)) [
          | inl same ↦ (
            duplicate_row (record row { linked_message_id = some message_id }),
            ground arith,
            ground arith,
          )
          | inr other ↦ (duplicate_row row, ground arith, ground arith)
        ]
        | inr there ↦
            let (found', e, i) = duplicate-set_link message_id id rows found (ground arith) in
            (found', ground arith, i)
      ]

pub gate_taken :
    (row : IdempotencyKeyRow) (rows : List IdempotencyKeyRow)
    → id_taken row.id rows ≡ true
    → sql_provider_id_gate row rows ≡ throws id_conflict
unfolding sql_provider_id_gate
gate_taken row rows h = rw h

pub insert_fresh :
    (row : IdempotencyKeyRow) (rows : List IdempotencyKeyRow)
    → row.key_type ≡ content_hash
    → id_taken row.id rows ≡ false
    → sql_content_hash_insert row rows ≡ returns (rows ++ row ∷ [])
unfolding sql_content_hash_insert
insert_fresh row rows hashed fresh = rw (fresh, hashed)

-- The provider-id gate on a key that is there, and on one that it adds.
module _ (row : IdempotencyKeyRow) (rows : List IdempotencyKeyRow)
    (keyed : row.key_type ≡ IdempotencyKeyType.provider_id) where
  pub gate_known :
      (found : DuplicateRow)
      → sql_provider_id_duplicate row.provider row.key_value rows ≡ some found
      → id_taken row.id rows ≡ false
      → sql_provider_id_gate row rows ≡ returns (none, rows)
  unfolding sql_provider_id_gate
  gate_known found h fresh =
      let conflict = conflict_of_duplicate row.provider row.key_value rows found h in
      rw (fresh, keyed, conflict)

  pub gate_unknown :
      sql_provider_id_duplicate row.provider row.key_value rows ≡ none
      → id_taken row.id rows ≡ false
      → sql_provider_id_gate row rows ≡ returns (some row.id, rows ++ row ∷ [])
  unfolding sql_provider_id_gate
  gate_unknown h fresh =
      let new = no_conflict_of_duplicate row.provider row.key_value rows h in rw (fresh, keyed, new)

  pub gate_inserted :
      (id : Text) (rows' : List IdempotencyKeyRow)
      → sql_provider_id_gate row rows ≡ returns (some id, rows')
      → (id ≡ row.id)
        × (sql_provider_id_duplicate row.provider row.key_value rows' ≡ some (duplicate_row row))
  unfolding sql_provider_id_gate
  gate_inserted id rows' h = elim (Bool-cases (id_taken row.id rows)) [
    | inl taken ↦ absurd (ground arith)
    | inr fresh ↦ elim (Bool-cases (some_of (is_provider_key row.provider row.key_value) rows)) [
      | inl known ↦ absurd (ground arith)
      | inr new ↦
          let same_id : id ≡ row.id = ground arith in
          let same_rows : rows' ≡ rows ++ row ∷ [] = ground arith in
          let own : is_provider_key row.provider row.key_value row ≡ true =
            ground (arith, ==_refl row.provider, ==_refl row.key_value) in
          (same_id, rw same_rows (duplicate-append_new row.provider row.key_value rows row own new))
    ]
  ]

pub sql_link_cases :
    (message_id id : Text) (messages : List CommsLogRow) (rows : List IdempotencyKeyRow)
    → ((e : Thrown) × (sql_link message_id id messages rows ≡ throws e))
      ⊎ (((sql_link message_id id messages rows ≡ returns (none, rows))
            × (id_taken id rows ≡ false))
          ⊎ ((sql_link message_id id messages rows ≡ returns (some id, set_link message_id id rows))
              × (id_taken id rows ≡ true)
              × (has_message message_id messages ≡ true)))
unfolding sql_link
sql_link_cases message_id id messages rows = elim (Bool-cases (id_taken id rows)) [
  | inr absent ↦ inr (inl (rw absent, absent))
  | inl present ↦ elim (Bool-cases (has_message message_id messages)) [
    | inr missing ↦ inl (link_conflict, rw (present, missing))
    | inl stored ↦ inr (inr (rw (present, stored), present, stored))
  ]
]
