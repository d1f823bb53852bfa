-- ===== src/Runtime/Quote.antt =====
-- `JSON.stringify` on strings and on arrays of strings: the code units of the JSON text.
pub mod Injective
use onetrackmind.Common.{
  ℕ, ◌+◌, ◌-◌, ◌/◌, ◌%◌, Bool, true, false, ◌&&◌, ◌||◌, List, [], ◌∷◌, ◌++◌, ltb, leb, nat_beq,
  Text, if◌then◌else◌,
}

hex : ℕ → ℕ
hex n = if ltb n 10 then b'0' + n else b'a' + (n - 10)

-- `\uXXXX`
unicode_escape : ℕ → Text
unfolding hex
unicode_escape c =
    b'\\' ∷ b'u' ∷ hex (c / 4096 % 16) ∷ hex (c / 256 % 16) ∷ hex (c / 16 % 16) ∷ hex (c % 16) ∷ []

is_lead : ℕ → Bool
is_lead c = leb 0xD800 c && leb c 0xDBFF

is_trail : ℕ → Bool
is_trail c = leb 0xDC00 c && leb c 0xDFFF

starts_with_trail : Text → Bool
unfolding is_trail
starts_with_trail [] = false
starts_with_trail (c ∷ _) = is_trail c

-- A surrogate without its partner is escaped; `after_lead` tells of the unit before.
is_paired : Bool → ℕ → Text → Bool
unfolding is_lead is_trail starts_with_trail
is_paired after_lead c rest =
    if is_lead c then starts_with_trail rest else if is_trail c then after_lead else true

-- The unit after the backslash of a two-unit escape, or 0.
short_escape : ℕ → ℕ
short_escape c =
    if nat_beq c 8
    then b'b'
    else if nat_beq c 9
    then b't'
    else if nat_beq c 10
    then b'n'
    else if nat_beq c 12
    then b'f'
    else if nat_beq c 13
    then b'r'
    else if nat_beq c b'"'
    then b'"'
    else if nat_beq c b'\\'
    then b'\\'
    else 0

escape_unit : Bool → ℕ → Text
escape_unit paired c =
    if ltb 0 (short_escape c)
    then b'\\' ∷ short_escape c ∷ []
    else if ltb c 32 || (if paired then false else leb 0xD800 c && leb c 0xDFFF)
    then unicode_escape c
    else c ∷ []

escape_from : Bool → Text → Text
escape_from after_lead [] = []
escape_from after_lead (c ∷ s) =
    escape_unit (is_paired after_lead c s) c ++ escape_from (is_lead c) s

unfoldable pub quote : Text → Text
unfolding escape_from escape_unit short_escape unicode_escape is_paired is_lead
quote s = b'"' ∷ (escape_from false s ++ b'"' ∷ [])

-- The elements, with a comma between them.
quote_items : List Text → Text
quote_items [] = []
quote_items (x ∷ []) = quote x
quote_items (x ∷ y ∷ xs) = quote x ++ b',' ∷ quote_items (y ∷ xs)

unfoldable pub quote_array : List Text → Text
unfolding quote_items quote
quote_array xs = b'[' ∷ (quote_items xs ++ b']' ∷ [])
