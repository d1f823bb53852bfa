-- ===== src/Examples/Fixtures.antt =====
-- Concrete inputs, worlds and parameters.
use onetrackmind.Common.{ℕ, [], ◌∷◌, none, some, Text, text, ◌≢◌, arith}
use onetrackmind.Common.Results.{returns, throws, sqlite_error}
use onetrackmind.Runtime.Date.{to_iso_string}
use onetrackmind.Db.Vocabulary.{twilio, content_hash, Bool01}
use onetrackmind.Db.Mapping.IdempotencyKeys.{IdempotencyKeyRow}
use onetrackmind.Comms.ContentHash.{compute_content_hash}
use onetrackmind.Comms.Idempotency.Plan.{IdempotencyInput, hashed}
use onetrackmind.Comms.Idempotency.World.{World, IdempotencyCheckerDeps}

-- A digest that keeps every text apart.
abbrev pub sha256 : Text → Text
sha256 s = s

abbrev pub now : ℕ
now = 1000000000

abbrev pub sound : IdempotencyCheckerDeps
sound = record { fault = λ _. none; emit_diagnostic = λ _. returns tt }

-- The driver throws whatever the statement, and the emitter rejects.
abbrev pub broken : IdempotencyCheckerDeps
broken = record {
  fault = λ _. some (sqlite_error (text "SQLITE_BUSY: database is locked"));
  emit_diagnostic = λ _. throws (sqlite_error (text "emitter down"));
}

abbrev pub named_input : IdempotencyInput
named_input = record {
  provider = twilio;
  provider_message_id = some (text "SM1");
  from_identifier = text "+15550001";
  to_identifiers = text "+15550002" ∷ [];
  body = text "on site at 7";
}

abbrev pub unnamed_input : IdempotencyInput
unnamed_input = record named_input { provider_message_id = none }

abbrev pub empty_world : World
empty_world = record {
  db = record { contacts = []; comms_log = []; idempotency_keys = [] };
  log = [];
  events = [];
}

-- The hash of the message, seen 100 seconds before `now`.
abbrev pub sighting : IdempotencyKeyRow
sighting = record {
  id = text "k1";
  key_type = content_hash;
  provider = twilio;
  key_value = compute_content_hash sha256 (hashed unnamed_input);
  first_seen_at = to_iso_string 999900000;
  expires_at = to_iso_string 1086300000;
  linked_message_id = some (text "m1");
  is_synced = Bool01.zero;
}

abbrev pub sighted_world : World
sighted_world = record empty_world {
  db = record { contacts = []; comms_log = []; idempotency_keys = sighting ∷ [] };
}

pub given : text "SM1" ≢ text ""
unfolding text
given = ground arith
