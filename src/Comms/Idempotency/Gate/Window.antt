-- ===== src/Comms/Idempotency/Gate/Window.antt =====
-- The content-hash gate against an independent description of its window, in instants.
use onetrackmind.Common.{ℕ, ◌+◌, ◌-◌, ◌≤◌, ◌<◌, true, Text, ==_iff, Text-Eq, ◌≡◌, arith}
use onetrackmind.Runtime.Date.{to_iso_string, max_ms}
use onetrackmind.Runtime.Date.Order.{to_iso_string_le}
use onetrackmind.Db.Vocabulary.{content_hash}
use onetrackmind.Db.Constraints.Dedup.{dedup_window_ms}
use onetrackmind.Db.Mapping.IdempotencyKeys.{IdempotencyKeyRow}
use onetrackmind.Comms.Idempotency.Keys.{is_in_window}

-- A row written by the clock, at an instant that has four year digits.
abbrev pub IsTimed : IdempotencyKeyRow → Type 0
IsTimed row = (t : ℕ) × (row.first_seen_at ≡ to_iso_string t) × (t < max_ms)

-- A content-hash row of this hash, first seen at most ten minutes before `now` and not after.
abbrev pub IsSighting : Text → ℕ → IdempotencyKeyRow → Type 0
IsSighting hash now row =
    (row.key_type ≡ content_hash)
    × (row.key_value ≡ hash)
    × ((t : ℕ) × (row.first_seen_at ≡ to_iso_string t)
        × (t < max_ms)
        × (t ≤ now)
        × (now ≤ t + dedup_window_ms))

pub in_window-IsSighting :
    (hash : Text) (now : ℕ) (row : IdempotencyKeyRow)
    → now < max_ms
    → IsTimed row
    → is_in_window hash (to_iso_string (now - dedup_window_ms)) (to_iso_string now) row ≡ true
    → IsSighting hash now row
in_window-IsSighting hash now row small (t, e, s) h =
    let low = to_iso_string_le (now - dedup_window_ms) t (omega arith) s in
    let high = to_iso_string_le t now s small in
    (ground arith, ground (arith, ==_iff row.key_value hash), (t, e, s, ground arith, ground arith))

pub sighting-is_in_window :
    (hash : Text) (now : ℕ) (row : IdempotencyKeyRow)
    → now < max_ms
    → IsSighting hash now row
    → is_in_window hash (to_iso_string (now - dedup_window_ms)) (to_iso_string now) row ≡ true
sighting-is_in_window hash now row small (keyed, same, (t, e, s, before, after)) =
    let low = to_iso_string_le (now - dedup_window_ms) t (omega arith) s in
    let high = to_iso_string_le t now s small in ground (arith, ==_iff row.key_value hash)
