-- ===== src/Examples/Gate.antt =====
-- The theorems on the gate at a message, two worlds and two drivers.
use onetrackmind.Common.{
  ℕ, ◌≤◌, ◌+◌, if◌then◌else◌, text_eq, true, List, [], ◌∷◌, Option, some, Text, text, Text-Eq, ◌==◌,
  ◌≡◌, refl, arith, inl,
}
use onetrackmind.Runtime.Date.{to_iso_string}
use onetrackmind.Db.Vocabulary.{
  IdempotencyProvenance, IdempotencyKeyType, content_hash, twilio, CommsProvider-Eq,
}
use onetrackmind.Db.Constraints.Expiry.{
  ok, check_idempotency_expiry, ttl_ms, provider_id_key_ttl_ms, content_hash_key_ttl_ms,
}
use onetrackmind.Comms.ContentHash.{compute_content_hash}
use onetrackmind.Comms.Idempotency.Plan.{plan_base, plan_idempotency_check, hashed}
use onetrackmind.Comms.Idempotency.Plan.Expiry.{expiry_key, plan_idempotency_check-ok}
use onetrackmind.Comms.Idempotency.Keys.{sql_provider_id_duplicate}
use onetrackmind.Comms.Idempotency.World.{novel}
use onetrackmind.Comms.Idempotency.Gate.{check_idempotency}
use onetrackmind.Comms.Idempotency.Gate.Reports.{Reported, check_idempotency-Reported}
use onetrackmind.Comms.Idempotency.Gate.Once.{IsRepeat, answer_for}
use onetrackmind.Comms.Idempotency.Gate.Sightings.{IsWindowAnswer, check-IsWindowAnswer}
use onetrackmind.Comms.Idempotency.Link.{link_idempotency_key}
use onetrackmind.Comms.Idempotency.Link.Laws.{IsLinked, link_idempotency_key-IsLinked}
use onetrackmind.Comms.Idempotency.Trace.{Call, check, link, names_message, after, run, novel_count}
use onetrackmind.Comms.Idempotency.Trace.Count.{novel_count_le_one}
use onetrackmind.Comms.Idempotency.Trace.Answers.{redelivery-IsRepeat, check-answer_for}
use onetrackmind.Examples.Fixtures.{
  sha256, now, sound, broken, named_input, unnamed_input, empty_world, sighted_world, given,
}

-- A delivery, a link, a failed check and two redeliveries.
abbrev calls : List Call
calls =
    check named_input sound now (text "k2")
    ∷ link (text "k2") (text "m2") sound
    ∷ check named_input broken now (text "k3")
    ∷ check named_input sound now (text "k4")
    ∷ check unnamed_input sound now (text "k5")
    ∷ check named_input sound now (text "k6")
    ∷ []

novel_count_le_one_example : novel_count sha256 twilio (text "SM1") calls sighted_world ≤ 1
novel_count_le_one_example = novel_count_le_one sha256 twilio (text "SM1") given calls sighted_world

named : names_message twilio (text "SM1") named_input ≡ true
unfolding text text_eq
named = refl

first_novel :
    (check_idempotency sha256 named_input sound now (text "k2") empty_world).0
    ≡ novel IdempotencyProvenance.provider_id
        (compute_content_hash sha256 (hashed named_input))
        (text "k2")
unfolding sql_provider_id_duplicate
first_novel =
    check-answer_for sha256 twilio (text "SM1") given named_input sound now (text "k2") empty_world
      named refl refl refl

redelivery-IsRepeat_example :
    IsRepeat
      (text "k2")
      (check_idempotency sha256 named_input sound now
        (text "k9")
        (run sha256 calls (after sha256 (check named_input sound now (text "k2")) empty_world))).0
redelivery-IsRepeat_example =
    redelivery-IsRepeat sha256 twilio (text "SM1") given named_input named_input sound sound now now
      (text "k2") (text "k9") empty_world IdempotencyProvenance.provider_id
      (compute_content_hash sha256 (hashed named_input)) (text "k2") calls named named first_novel

check-answer_for_example :
    (check_idempotency sha256 named_input sound now (text "k2") empty_world).0
    ≡ answer_for
        (compute_content_hash sha256 (hashed named_input))
        (text "k2")
        (sql_provider_id_duplicate twilio (text "SM1") [])
check-answer_for_example =
    check-answer_for sha256 twilio (text "SM1") given named_input sound now (text "k2") empty_world
      named refl refl refl

check-IsWindowAnswer_example :
    IsWindowAnswer
      (compute_content_hash sha256 (hashed unnamed_input))
      now
      (text "k2")
      sighted_world.db.idempotency_keys
      (check_idempotency sha256 unnamed_input sound now (text "k2") sighted_world).0
unfolding text text_eq
check-IsWindowAnswer_example =
    check-IsWindowAnswer sha256 unnamed_input sound now (text "k2") sighted_world (inl refl)
      (omega arith) ((999900000, refl, omega arith), tt) refl refl refl

check_idempotency-Reported_example :
    Reported sighted_world
      (plan_base (plan_idempotency_check sha256 unnamed_input now))
      (text "k2")
      (check_idempotency sha256 unnamed_input broken now (text "k2") sighted_world)
check_idempotency-Reported_example =
    check_idempotency-Reported sha256 unnamed_input broken now (text "k2") sighted_world

link_idempotency_key-IsLinked_example :
    IsLinked
      (text "k1")
      (text "m9")
      sighted_world
      (link_idempotency_key (text "k1") (text "m9") sound sighted_world)
link_idempotency_key-IsLinked_example =
    link_idempotency_key-IsLinked sound (text "k1") (text "m9") sighted_world

-- `Date.parse` on the instants of one plan.
date_parse : Text → Option ℕ
date_parse s =
    if s == to_iso_string now
    then some now
    else if s == to_iso_string (now + provider_id_key_ttl_ms)
    then some (now + provider_id_key_ttl_ms)
    else some (now + content_hash_key_ttl_ms)

reads_now : date_parse (to_iso_string now) ≡ some now
unfolding date_parse to_iso_string text_eq
reads_now = refl

reads_expiry :
    (key_type : IdempotencyKeyType)
    → date_parse (to_iso_string (now + ttl_ms key_type)) ≡ some (now + ttl_ms key_type)
unfolding date_parse to_iso_string text_eq
reads_expiry IdempotencyKeyType.provider_id = refl
reads_expiry content_hash = refl

plan_idempotency_check-ok_example :
    check_idempotency_expiry date_parse
      (expiry_key (plan_base (plan_idempotency_check sha256 unnamed_input now)))
    ≡ ok
plan_idempotency_check-ok_example =
    plan_idempotency_check-ok date_parse sha256 unnamed_input now reads_now reads_expiry
