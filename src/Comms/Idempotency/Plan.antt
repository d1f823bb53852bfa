-- ===== src/Comms/Idempotency/Plan.antt =====
-- The planner: backend/src/comms/idempotencyChecker/pure.ts. `now` is in milliseconds and lies at
-- least ten minutes after 1970-01-01, so that the start of the window is not negative.
pub mod Expiry
use onetrackmind.Common.{
  ℕ, ◌+◌, ◌-◌, List, Option, none, some, Text, text, text_eq, Text-Eq, ◌==◌, if◌then◌else◌,
}
use onetrackmind.Runtime.Date.{to_iso_string}
use onetrackmind.Db.Vocabulary.{
  CommsProvider, IdempotencyProvenance, content_hash_fallback, IdempotencyKeyType,
}
use onetrackmind.Db.Constraints.Dedup.{dedup_window_ms}
use onetrackmind.Db.Constraints.Expiry.{provider_id_key_ttl_ms, content_hash_key_ttl_ms}
use onetrackmind.Comms.ContentHash.{ContentHashInput, compute_content_hash}

pub record IdempotencyInput : Type 0 where
  pub provider : CommsProvider
  pub provider_message_id : Option Text
  pub from_identifier : Text
  pub to_identifiers : List Text
  pub body : Text

pub data FallbackDegradation : Type 0 where
  no_provider_message_id empty_provider_message_id : FallbackDegradation

pub record PlanBase : Type 0 where
  pub provider : CommsProvider
  pub content_hash : Text
  pub first_seen_at : Text
  pub expires_at : Text
  pub key_type : IdempotencyKeyType
  pub key_value : Text

pub data IdempotencyPlan : Type 0 where
  provider_id_plan : PlanBase → IdempotencyPlan
  content_hash_plan : PlanBase → (window_start_at : Text) → FallbackDegradation → IdempotencyPlan

abbrev pub plan_base : IdempotencyPlan → PlanBase
plan_base (provider_id_plan base) = base
plan_base (content_hash_plan base _ _) = base

abbrev pub provenance : IdempotencyPlan → IdempotencyProvenance
provenance (provider_id_plan _) = IdempotencyProvenance.provider_id
provenance (content_hash_plan _ _ _) = content_hash_fallback

abbrev pub hashed : IdempotencyInput → ContentHashInput
hashed input = record {
  from_identifier = input.from_identifier;
  to_identifiers = input.to_identifiers;
  body = input.body;
}

abbrev pub provider_plan : CommsProvider → Text → Text → ℕ → IdempotencyPlan
provider_plan provider hash id now = provider_id_plan (record {
  provider = provider;
  content_hash = hash;
  first_seen_at = to_iso_string now;
  expires_at = to_iso_string (now + provider_id_key_ttl_ms);
  key_type = IdempotencyKeyType.provider_id;
  key_value = id;
})

abbrev pub fallback_plan : CommsProvider → Text → ℕ → FallbackDegradation → IdempotencyPlan
fallback_plan provider hash now degradation =
    content_hash_plan
      (record {
        provider = provider;
        content_hash = hash;
        first_seen_at = to_iso_string now;
        expires_at = to_iso_string (now + content_hash_key_ttl_ms);
        key_type = IdempotencyKeyType.content_hash;
        key_value = hash;
      })
      (to_iso_string (now - dedup_window_ms)) degradation

-- `providerMessageId !== null && providerMessageId !== ''`
unfoldable pub plan_for : CommsProvider → Option Text → Text → ℕ → IdempotencyPlan
plan_for provider none hash now = fallback_plan provider hash now no_provider_message_id
plan_for provider (some id) hash now =
    if id == text ""
    then fallback_plan provider hash now empty_provider_message_id
    else provider_plan provider hash id now

unfoldable pub plan_idempotency_check : (Text → Text) → IdempotencyInput → ℕ → IdempotencyPlan
plan_idempotency_check sha256 input now =
    plan_for input.provider input.provider_message_id (compute_content_hash sha256 (hashed input))
      now
