-- ===== src/Comms/Idempotency/Plan/Expiry.antt =====
-- The expiry that the planner writes, against the check of the data layer.
use onetrackmind.Common.{
  ℕ, ◌+◌, Option, none, some, Text, text, ◌==◌, Text-Eq, ◌≡◌, refl, inl, inr, Bool-cases,
}
use onetrackmind.Runtime.Date.{to_iso_string}
use onetrackmind.Db.Vocabulary.{CommsProvider, IdempotencyKeyType}
use onetrackmind.Db.Constraints.Expiry.{
  ok, ExpiryKey, ttl_ms, check_idempotency_expiry, check_idempotency_expiry_iff,
}
use onetrackmind.Comms.ContentHash.{compute_content_hash}
use onetrackmind.Comms.Idempotency.Plan.{
  IdempotencyInput, PlanBase, plan_base, plan_for, plan_idempotency_check, hashed,
}

-- The columns that the check of the data layer reads.
abbrev pub expiry_key : PlanBase → ExpiryKey
expiry_key base = record {
  key_type = base.key_type;
  first_seen_at = base.first_seen_at;
  expires_at = base.expires_at;
}

-- The two instants of a plan: now, and now plus the time to live of its key's type.
abbrev HasInstants : ℕ → PlanBase → Type 0
HasInstants now base =
    (base.first_seen_at ≡ to_iso_string now)
    × (base.expires_at ≡ to_iso_string (now + ttl_ms base.key_type))

plan_for-HasInstants :
    (provider : CommsProvider) (id : Option Text) (hash : Text) (now : ℕ)
    → HasInstants now (plan_base (plan_for provider id hash now))
unfolding plan_for
plan_for-HasInstants provider none hash now = (refl, refl)
plan_for-HasInstants provider (some id) hash now = elim (Bool-cases (id == text "")) [
  | inl empty ↦ (rw empty, rw empty)
  | inr given ↦ (rw given, rw given)
]

-- When `Date.parse` reads back the plan's two instants as `toISOString` writes them, the plan passes
-- the data layer's expiry check.
pub plan_idempotency_check-ok :
    (date_parse : Text → Option ℕ) (sha256 : Text → Text) (input : IdempotencyInput) (now : ℕ)
    → date_parse (to_iso_string now) ≡ some now
    → ((key_type : IdempotencyKeyType)
        → date_parse (to_iso_string (now + ttl_ms key_type)) ≡ some (now + ttl_ms key_type))
    → check_idempotency_expiry date_parse
        (expiry_key (plan_base (plan_idempotency_check sha256 input now)))
      ≡ ok
unfolding plan_idempotency_check
plan_idempotency_check-ok date_parse sha256 input now reads reads_expiry =
    let hash = compute_content_hash sha256 (hashed input) in
    passes (plan_base (plan_for input.provider input.provider_message_id hash now))
      (plan_for-HasInstants input.provider input.provider_message_id hash now)
  where
    passes :
        (base : PlanBase)
        → HasInstants now base
        → check_idempotency_expiry date_parse (expiry_key base) ≡ ok
    passes base (first, last) =
        (check_idempotency_expiry_iff date_parse (expiry_key base)).1
          (now, rw first reads, rw last (reads_expiry base.key_type))
