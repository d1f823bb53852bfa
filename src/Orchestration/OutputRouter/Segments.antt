-- ===== src/Orchestration/OutputRouter/Segments.antt =====
-- The second step of `formatForSms` of backend/src/orchestration/outputRouter.ts, which splits the
-- stripped text. The loop runs on fuel and gives `none` when it runs out of it.

pub mod Bounds
use onetrackmind.Common.{
  ℕ, zero, suc, ◌+◌, Bool, ◌&&◌, not, List, [], ◌∷◌, ◌++◌, Option, none, some, Text, length, take,
  drop, ltb, leb, nat_beq, if◌then◌else◌,
}
use onetrackmind.Runtime.Trim.{trim}

abbrev pub sms_max_chars : ℕ
sms_max_chars = 1600

-- The index in a text, by the last index in its tail.
abbrev pub index_from : ℕ → ℕ → ℕ → Text → Option ℕ → Option ℕ
index_from a b c s (some i) = some (suc i)
index_from a b c [] none = none
index_from a b c (d ∷ s) none = if nat_beq c a && nat_beq d b then some 0 else none

-- `lastIndexOf` of the two characters, `none` for -1.
unfoldable pub last_index_of : ℕ → ℕ → Text → Option ℕ
last_index_of a b [] = none
last_index_of a b (c ∷ s) = index_from a b c s (last_index_of a b s)

-- `Math.max` of two indices.
abbrev pub max_index : Option ℕ → Option ℕ → Option ℕ
max_index none j = j
max_index (some i) none = some i
max_index (some i) (some j) = if leb i j then some j else some i

unfoldable pub last_boundary : Text → Option ℕ
unfolding last_index_of
last_boundary window = max_index (last_index_of b'.' b' ' window) (
    max_index (last_index_of b'?' b' ' window) (
      max_index (last_index_of b'!' b' ' window) (
        max_index (last_index_of b'.' b'\n' window)
          (max_index (last_index_of b'?' b'\n' window) (last_index_of b'!' b'\n' window)))))

-- The segment cut off, and what remains, for a boundary at an index above 0 or for none.
unfoldable pub cut_at : Text → Option ℕ → Text × Text
unfolding trim
cut_at remaining (some (suc i)) =
    (trim (take (suc (suc i)) remaining), trim (drop (suc (suc i)) remaining))
cut_at remaining _ =
    (trim (take sms_max_chars remaining) ++ 0x2026 ∷ [], trim (drop sms_max_chars remaining))

abbrev pub push : Text → Option (List Text) → Option (List Text)
push segment none = none
push segment (some segments) = some (segment ∷ segments)

unfoldable pub split_loop : ℕ → Text → Option (List Text)
unfolding cut_at last_boundary trim
split_loop fuel [] = some []
split_loop zero (c ∷ s) = none
split_loop (suc fuel) (c ∷ s) =
    let (segment, rest) = cut_at (c ∷ s) (last_boundary (take sms_max_chars (c ∷ s))) in
    let later = split_loop fuel rest in
    if leb (length (c ∷ s)) sms_max_chars then some (trim (c ∷ s) ∷ []) else push segment later

abbrev segments_or_none : Option (List Text) → List Text
segments_or_none none = []
segments_or_none (some segments) = segments

-- `segments.filter(s => s.length > 0)`
unfoldable pub non_empty : List Text → List Text
non_empty [] = []
non_empty ([] ∷ segments) = non_empty segments
non_empty ((c ∷ s) ∷ segments) = (c ∷ s) ∷ non_empty segments

-- The fuel is the length of the text. `strip_markdown` is the first step: the regular expressions and the
-- final `trim`.
unfoldable pub format_for_sms : (strip_markdown : Text → Text) → Text → List Text
unfolding split_loop non_empty
format_for_sms strip_markdown source =
    let stripped = strip_markdown source in
    non_empty (segments_or_none (split_loop (length stripped) stripped))
