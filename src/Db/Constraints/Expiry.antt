-- ===== src/Db/Constraints/Expiry.antt =====
-- `checkIdempotencyExpiry` of backend/src/db/mapping/dalConstraints.ts. `Date.parse` is the
-- parameter `date_parse`, `none` for NaN; the instants are not before 1970.
use onetrackmind.Common.{
  ℕ, ◌+◌, ◌*◌, not, ◌++◌, Option, none, some, Text, text, nat_beq, if◌then◌else◌, arith, refl, ◌≡◌,
  ◌↔◌, arith, refl,
}
use onetrackmind.Db.Vocabulary.{IdempotencyKeyType, content_hash}
use onetrackmind.Runtime.Date.{to_iso_string}

abbrev pub provider_id_key_ttl_ms : ℕ
provider_id_key_ttl_ms = 90 * 24 * 60 * 60 * 1000

abbrev pub content_hash_key_ttl_ms : ℕ
content_hash_key_ttl_ms = 24 * 60 * 60 * 1000

pub data ExpiryReason : Type 0 where
  expiry_mismatch unparseable_timestamp : ExpiryReason

pub data ExpiryCheckResult : Type 0 where
  ok : ExpiryCheckResult
  failure : ExpiryReason → Text → ExpiryCheckResult

pub record ExpiryKey : Type 0 where
  pub key_type : IdempotencyKeyType
  pub first_seen_at : Text
  pub expires_at : Text

abbrev pub ttl_ms : IdempotencyKeyType → ℕ
ttl_ms IdempotencyKeyType.provider_id = provider_id_key_ttl_ms
ttl_ms content_hash = content_hash_key_ttl_ms

ttl_label : IdempotencyKeyType → Text
ttl_label IdempotencyKeyType.provider_id = text "90d"
ttl_label content_hash = text "24h"

unparseable_detail : ExpiryKey → Text
unparseable_detail key =
    text "idempotency_keys: unparseable timestamp (first_seen_at="
    ++ (key.first_seen_at ++ (text ", expires_at=" ++ (key.expires_at ++ text ")")))

mismatch_detail : ExpiryKey → ℕ → Text
unfolding ttl_label
mismatch_detail key expected_ms =
    text "idempotency_keys: expires_at must be first_seen_at + "
    ++ (ttl_label key.key_type
        ++ (text " exactly (expected "
            ++ (to_iso_string expected_ms ++ (text ", got " ++ (key.expires_at ++ text ")")))))

-- The two parsed instants.
check_parsed : ExpiryKey → Option ℕ → Option ℕ → ExpiryCheckResult
unfolding unparseable_detail mismatch_detail
check_parsed key (some first_seen_ms) (some expires_ms) =
    let expected_ms = first_seen_ms + ttl_ms key.key_type in
    if not (nat_beq expires_ms expected_ms)
    then failure expiry_mismatch (mismatch_detail key expected_ms)
    else ok
check_parsed key _ _ = failure unparseable_timestamp (unparseable_detail key)

unfoldable pub check_idempotency_expiry : (Text → Option ℕ) → ExpiryKey → ExpiryCheckResult
unfolding check_parsed
check_idempotency_expiry date_parse key =
    check_parsed key (date_parse key.first_seen_at) (date_parse key.expires_at)

check_parsed-eq-ok :
    (key : ExpiryKey) (f e : Option ℕ)
    → check_parsed key f e ≡ ok
    → (first : ℕ) × (f ≡ some first) × (e ≡ some (first + ttl_ms key.key_type))
unfolding check_parsed
check_parsed-eq-ok key none e h = cc
check_parsed-eq-ok key (some first) none h = cc
check_parsed-eq-ok key (some first) (some last) h = (first, refl, ground arith)

check_parsed_exact :
    (key : ExpiryKey) (first : ℕ)
    → check_parsed key (some first) (some (first + ttl_ms key.key_type)) ≡ ok
unfolding check_parsed
check_parsed_exact key first = ground arith

-- The check passes exactly when both texts are instants and the second is the first plus the time
-- to live of the key's type, to the millisecond.
pub check_idempotency_expiry_iff :
    (date_parse : Text → Option ℕ) (key : ExpiryKey)
    → (check_idempotency_expiry date_parse key ≡ ok) ↔ (
        (first : ℕ) × (date_parse key.first_seen_at ≡ some first)
        × (date_parse key.expires_at ≡ some (first + ttl_ms key.key_type)))
unfolding check_idempotency_expiry
check_idempotency_expiry_iff date_parse key =
    (check_parsed-eq-ok key _ _, λ (first, f, e). rw (f, e) (check_parsed_exact key first))
