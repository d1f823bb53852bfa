-- ===== src/Comms/Idempotency/Link/Laws.antt =====
-- What a link changes.
use onetrackmind.Common.{
  Option, none, some, Text, List, [], ◌∷◌, In, some_of_iff, Bool-cases, ==_iff, ◌==◌, Text-Eq, ◌⊎◌,
  ◌≢◌, ◌≡◌, true, false, refl, sym, subst, ap, ◌∙◌, arith, inl, inr,
}
use onetrackmind.Common.Results.{Thrown, unless_fault}
use onetrackmind.Db.Vocabulary.{CommsProvider}
use onetrackmind.Comms.Effects.{has_message}
use onetrackmind.Db.Mapping.IdempotencyKeys.{IdempotencyKeyRow}
use onetrackmind.Db.Mapping.CommsLog.{CommsLogRow}
use onetrackmind.Comms.Idempotency.Keys.{sql_link, set_link, id_taken}
use onetrackmind.Comms.Idempotency.Keys.Laws.{sql_link_cases, duplicate-set_link}
use onetrackmind.Comms.Idempotency.World.{World, IdempotencyCheckerDeps, link_update, set_keys}
use onetrackmind.Comms.Idempotency.Gate.Once.{Known}
use onetrackmind.Comms.Idempotency.Link.{
  LinkResult, ok, failure, key_not_found, db_error, link_failure, linked, link_idempotency_key,
}

-- The same in the words of the statements.
abbrev Linked : (key_id message_id : Text) → World → LinkResult × World → Type 0
Linked key_id message_id w (ok, w') =
    (w'.db ≡ (set_keys (set_link message_id key_id w.db.idempotency_keys) w).db)
    × (id_taken key_id w.db.idempotency_keys ≡ true)
    × (has_message message_id w.db.comms_log ≡ true)
    × (w'.events ≡ w.events)
Linked key_id message_id w (failure key_not_found _, w') =
    (w'.db ≡ w.db) × (id_taken key_id w.db.idempotency_keys ≡ false)
Linked key_id message_id w (failure db_error _, w') = w'.db ≡ w.db

linked-Linked :
    (deps : IdempotencyCheckerDeps) (key_id message_id : Text) (w : World) (fault : Option Thrown)
    → Linked key_id message_id w (
        linked deps key_id message_id w
          (unless_fault fault (sql_link message_id key_id w.db.comms_log w.db.idempotency_keys)))
unfolding linked link_failure
linked-Linked deps key_id message_id w (some e) = ground arith
linked-Linked deps key_id message_id w none =
    elim (sql_link_cases message_id key_id w.db.comms_log w.db.idempotency_keys) [
      | inl (e, thrown) ↦ rw thrown (ground arith)
      | inr (inl (missing, absent)) ↦ rw missing (ground arith, absent)
      | inr (inr (done, present, stored)) ↦ rw done (refl, present, stored, refl)
    ]

link-Linked :
    (deps : IdempotencyCheckerDeps) (key_id message_id : Text) (w : World)
    → Linked key_id message_id w (link_idempotency_key key_id message_id deps w)
unfolding link_idempotency_key
link-Linked deps key_id message_id w =
    linked-Linked deps key_id message_id w (deps.fault link_update)

-- A row with the key's id gets the message, and any other row stays.
abbrev IsLinkedRow : (key_id message_id : Text) → (row after : IdempotencyKeyRow) → Type 0
IsLinkedRow key_id message_id row after =
    ((row.id ≡ key_id) × (after ≡ record row { linked_message_id = some message_id }))
    ⊎ ((row.id ≢ key_id) × (after ≡ row))

abbrev IsLinkedTable : (key_id message_id : Text) → (rows after : List IdempotencyKeyRow) → Type 0
IsLinkedTable key_id message_id [] [] = Unit
IsLinkedTable key_id message_id (row ∷ rows) (new ∷ after) =
    IsLinkedRow key_id message_id row new × IsLinkedTable key_id message_id rows after
IsLinkedTable key_id message_id _ _ = ⊥

set_link-IsLinkedTable :
    (key_id message_id : Text) (rows : List IdempotencyKeyRow)
    → IsLinkedTable key_id message_id rows (set_link message_id key_id rows)
unfolding set_link
set_link-IsLinkedTable key_id message_id [] = tt
set_link-IsLinkedTable key_id message_id (row ∷ rows) = (
  elim (Bool-cases (row.id == key_id)) [
    | inl here ↦ rw here (inl ((==_iff row.id key_id).0 here, refl))
    | inr other ↦ rw other (inr (λ e. cc ((==_iff row.id key_id).1 e, other), refl))
  ],
  set_link-IsLinkedTable key_id message_id rows,
)

abbrev pub HasKey : Text → List IdempotencyKeyRow → Type 0
HasKey key_id rows = (row : IdempotencyKeyRow) × In row rows × (row.id ≡ key_id)

abbrev pub HasMessage : Text → List CommsLogRow → Type 0
HasMessage message_id rows = (row : CommsLogRow) × In row rows × (row.id ≡ message_id)

-- What each result of a link says.
abbrev pub IsLinked : (key_id message_id : Text) → World → LinkResult × World → Type 0
IsLinked key_id message_id w (ok, w') =
    HasKey key_id w.db.idempotency_keys
    × HasMessage message_id w.db.comms_log
    × IsLinkedTable key_id message_id w.db.idempotency_keys w'.db.idempotency_keys
    × (w'.db ≡ record (w.db) { idempotency_keys = w'.db.idempotency_keys })
    × (w'.events ≡ w.events)
IsLinked key_id message_id w (failure key_not_found _, w') =
    (¬ HasKey key_id w.db.idempotency_keys) × (w'.db ≡ w.db)
IsLinked key_id message_id w (failure db_error _, w') = w'.db ≡ w.db

Linked-IsLinked :
    (key_id message_id : Text) (w : World) (answer : LinkResult × World)
    → Linked key_id message_id w answer
    → IsLinked key_id message_id w answer
Linked-IsLinked key_id message_id w (ok, w') (set, present, stored, quiet) =
    let (row, here, same) = (some_of_iff _ w.db.idempotency_keys).0 present in
    let (message, there, named) = (some_of_iff _ w.db.comms_log).0 stored in
    (
      (row, here, (==_iff row.id key_id).0 same),
      (message, there, (==_iff message.id message_id).0 named),
      subst (IsLinkedTable key_id message_id w.db.idempotency_keys)
          (sym (ap (λ db. db.idempotency_keys) set))
          (set_link-IsLinkedTable key_id message_id w.db.idempotency_keys),
      set
          ∙ ap (λ rows. record (w.db) { idempotency_keys = rows })
              (sym (ap (λ db. db.idempotency_keys) set)),
      quiet,
    )
Linked-IsLinked key_id message_id w (failure key_not_found _, w') (kept, absent) = (
  λ (row, here, same). cc (
    (some_of_iff (λ (r : IdempotencyKeyRow). r.id == key_id) w.db.idempotency_keys).1
        (row, here, (==_iff row.id key_id).1 same),
    absent,
  ),
  kept,
)
Linked-IsLinked key_id message_id w (failure db_error _, w') kept = kept

-- A link that succeeds found its key and its message; it sets the message on every row with the key's
-- id, leaves every other row and every other table as they were, and emits nothing. A key is not found
-- only if no row has its id, and a link that fails changes nothing in the database.
pub link_idempotency_key-IsLinked :
    (deps : IdempotencyCheckerDeps) (key_id message_id : Text) (w : World)
    → IsLinked key_id message_id w (link_idempotency_key key_id message_id deps w)
link_idempotency_key-IsLinked deps key_id message_id w =
    Linked-IsLinked key_id message_id w _ (link-Linked deps key_id message_id w)

-- No link makes a known key unknown.
pub link-Known :
    (deps : IdempotencyCheckerDeps) (key message_id : Text) (w : World) (provider : CommsProvider)
    (value key_id : Text)
    → Known provider value key_id w
    → Known provider value key_id (link_idempotency_key key message_id deps w).1
link-Known deps key message_id w provider value key_id (found, there, same) =
    keep _ (link-Linked deps key message_id w)
  where
    keep :
        (answer : LinkResult × World)
        → Linked key message_id w answer
        → Known provider value key_id answer.1
    keep (ok, w') (set, _, _, _) =
        let (found', there', same') =
          duplicate-set_link provider value message_id key w.db.idempotency_keys found there in
        (found', rw (ap (λ db. db.idempotency_keys) set) there', same' ∙ same)
    keep (failure key_not_found _, w') (kept, _) =
        (found, rw (ap (λ db. db.idempotency_keys) kept) there, same)
    keep (failure db_error _, w') kept =
        (found, rw (ap (λ db. db.idempotency_keys) kept) there, same)
