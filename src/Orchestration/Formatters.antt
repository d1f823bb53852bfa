-- ===== src/Orchestration/Formatters.antt =====
-- backend/src/orchestration/formatters.ts: flags, open items and machines as lines of text.
use onetrackmind.Common.{List, [], ◌∷◌, ◌++◌, Option, none, some, Text, text, map, if◌then◌else◌}
use onetrackmind.Runtime.Join.{join}
use onetrackmind.Orchestration.Session.State.{
  FlagType, safety, push, pull, audit, ActiveFlag, OpenItem, category_text, MachineRef,
  ConsistContext,
}

-- `flag.type.toUpperCase()`
abbrev flag_type_upper : FlagType → Text
flag_type_upper safety = text "SAFETY"
flag_type_upper push = text "PUSH"
flag_type_upper pull = text "PULL"
flag_type_upper audit = text "AUDIT"

unfoldable pub format_active_flag : ActiveFlag → Text
format_active_flag flag =
    text "[" ++ (flag_type_upper flag.flag_type ++ (text "] " ++ flag.content))

unfoldable pub format_open_item : OpenItem → Text
format_open_item item =
    text "["
    ++ (category_text item.category
        ++ ((if item.is_push then text " [PUSH]" else []) ++ (text "] " ++ item.content)))

-- An empty serial number is left out, as an absent one.
abbrev serial_part : Option Text → Text
serial_part none = []
serial_part (some []) = []
serial_part (some (c ∷ s)) = text " — SN: " ++ (c ∷ s)

unfoldable pub format_machine_ref : MachineRef → Text
format_machine_ref m =
    text "Pos " ++ (m.position ++ (text ": " ++ (m.name ++ serial_part m.serial_number)))

-- The indent of two spaces is the default.
abbrev default_indent : Text
default_indent = text "  "

abbrev indented : {A : Type 0} → (A → Text) → List A → Text
indented format xs = join (text "\n") (map (λ x. default_indent ++ format x) xs)

unfoldable pub format_active_flags : List ActiveFlag → Text
unfolding format_active_flag
format_active_flags flags = indented format_active_flag flags

unfoldable pub format_open_items : List OpenItem → Text
unfolding format_open_item
format_open_items open_items = indented format_open_item open_items

unfoldable pub format_consist_context : Option ConsistContext → Text
unfolding format_machine_ref
format_consist_context none = []
format_consist_context (some ctx) = indented format_machine_ref ctx.relevant_machines
