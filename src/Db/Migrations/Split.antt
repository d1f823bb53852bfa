-- ===== src/Db/Migrations/Split.antt =====
-- backend/src/db/migrationRunner.ts: the statements of a migration.
pub mod Grammar
use onetrackmind.Common.{
  ℕ, Bool, true, false, ◌&&◌, ◌||◌, not, List, [], ◌∷◌, ◌++◌, Text, nat_beq, if◌then◌else◌,
}
use onetrackmind.Runtime.Trim.{is_space, trim}

pub data Mode : Type 0 where
  normal single double comment : Mode

-- `mode`, `current` and `hasContent`
pub record SplitState : Type 0 where
  pub mode : Mode
  pub current : Text
  pub has_content : Bool

abbrev scanned : Mode → Text → ℕ → Bool → SplitState × List Text
scanned mode current ch content =
    (record { mode = mode; current = current ++ ch ∷ []; has_content = content }, [])

abbrev pub flushed : Text → Bool → List Text
flushed current content = if content then trim current ∷ [] else []

abbrev pub starts_dash : Text → Bool
starts_dash [] = false
starts_dash (c ∷ s) = nat_beq c 45

-- One round of the loop over `sql.charAt(i)`: the state after it, and the statement it pushes.
-- `rest` is the text after the character.
abbrev pub split_char : SplitState → ℕ → Text → SplitState × List Text
split_char st ch rest = elim st.mode [
  | comment ↦
      scanned (if nat_beq ch 10 then Mode.normal else Mode.comment) st.current ch st.has_content
  | single ↦ scanned (if nat_beq ch 39 then Mode.normal else Mode.single) st.current ch true
  | double ↦ scanned (if nat_beq ch 34 then Mode.normal else Mode.double) st.current ch true
  | normal ↦
      if nat_beq ch 45 && starts_dash rest
      then scanned Mode.comment st.current ch st.has_content
      else if nat_beq ch 59
      then (
        record { mode = Mode.normal; current = []; has_content = false },
        flushed st.current st.has_content,
      )
      else if nat_beq ch 39
      then scanned Mode.single st.current ch true
      else if nat_beq ch 34
      then scanned Mode.double st.current ch true
      else scanned Mode.normal st.current ch (st.has_content || not (is_space ch))
]

unfoldable pub split_from : SplitState → Text → List Text
split_from st [] = flushed st.current st.has_content
split_from st (ch ∷ rest) =
    let (next, pushed) = split_char st ch rest in pushed ++ split_from next rest

unfoldable pub split_sql_statements : Text → List Text
unfolding split_from
split_sql_statements sql =
    split_from (record { mode = Mode.normal; current = []; has_content = false }) sql
