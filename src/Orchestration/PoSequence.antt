-- ===== src/Orchestration/PoSequence.antt =====
-- backend/src/orchestration/tools/poSequence.ts: the in-memory store. A counter is a whole number below
-- 2 ^ 53, as `number` holds it exactly; an async function with no await runs to its end.
pub mod Numbers
use onetrackmind.Common.{
  ℕ, ◌+◌, Bool, true, false, not, ◌&&◌, List, [], ◌∷◌, ◌++◌, Option, none, some, Text, Text-Eq,
  text, ◌==◌, if◌then◌else◌,
}
use onetrackmind.Comms.Effects.{LogLine, log_line, Level}

-- `Map<string, number>`, in the order of insertion
abbrev pub Counters : Type 0
Counters = List (Text × ℕ)

-- `counters.get(userId) ?? 0`
unfoldable pub counter_of : Counters → Text → ℕ
counter_of [] user_id = 0
counter_of ((u, n) ∷ counters) user_id =
    let rest = counter_of counters user_id in if u == user_id then n else rest

-- `counters.set(userId, next)`
unfoldable pub set_counter : Text → ℕ → Counters → Counters
set_counter user_id next [] = (user_id, next) ∷ []
set_counter user_id next ((u, n) ∷ counters) =
    let rest = set_counter user_id next counters in
    if u == user_id then (u, next) ∷ counters else (u, n) ∷ rest

pub record PoSequenceStore : Type 0 where
  pub counters : Counters
  pub warned_about_placeholder : Bool

-- `seed` is a record's entries, where there is one.
abbrev pub create_in_memory_po_sequence_store : Option Counters → PoSequenceStore
create_in_memory_po_sequence_store none = record { counters = []; warned_about_placeholder = false }
create_in_memory_po_sequence_store (some entries) = record {
  counters = entries;
  warned_about_placeholder = false;
}

abbrev placeholder_warning : LogLine
placeholder_warning =
    log_line Level.warn
      (text
        "Using in-memory placeholder — counter resets on process restart and does not span processes. Swap for a DB-backed PoSequenceDbClient (phase-7-db).")
      []

-- `production` is the test of NODE_ENV.
abbrev pub warns : Bool → PoSequenceStore → Bool
warns production store = not store.warned_about_placeholder && production

unfoldable pub allocate_next : Bool → Text → PoSequenceStore → ℕ × PoSequenceStore × List LogLine
unfolding counter_of set_counter
allocate_next production user_id store =
    let next = counter_of store.counters user_id + 1 in
    (
      next,
      record {
        counters = set_counter user_id next store.counters;
        warned_about_placeholder =
            if warns production store then true else store.warned_about_placeholder;
      },
      if warns production store then placeholder_warning ∷ [] else [],
    )

-- The calls for these users, one after the other: who got which number, and what was logged.
unfoldable pub allocations : Bool → List Text → PoSequenceStore → List (Text × ℕ) × List LogLine
unfolding allocate_next
allocations production [] store = ([], [])
allocations production (user_id ∷ user_ids) store =
    let (next, after, lines) = allocate_next production user_id store in
    let (numbers, more) = allocations production user_ids after in
    ((user_id, next) ∷ numbers, lines ++ more)
