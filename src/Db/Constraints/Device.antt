-- ===== src/Db/Constraints/Device.antt =====
-- `validateDeviceWrite` of backend/src/db/mapping/dalConstraints.ts.
use onetrackmind.Common.{
  not, ◌&&◌, List, [], ◌∷◌, Text, text, Text-Eq, ◌==◌, ==_iff, contains, All, if◌then◌else◌, arith,
  ==_iff, ◌≡◌, ◌↔◌, ◌⊎◌, arith,
}
use onetrackmind.Db.Vocabulary.{
  DeviceTable, device_comms_log, device_contacts, device_writable_columns,
}

pub data DeviceWriteResult : Type 0 where
  ok : DeviceWriteResult
  ownership_violation : Text → DeviceWriteResult

unfoldable pub dv_comms_ownership_msg : Text
dv_comms_ownership_msg =
    text
      "DAL ownership rejection: device may write only user_acknowledged_at / user_action_taken on comms_log"

unfoldable pub dv_contacts_readonly_msg : Text
dv_contacts_readonly_msg = text "DAL ownership rejection: device_contacts is a read-only cache"

-- The loop over `Object.keys(payload)`.
device_keys : List Text → List Text → DeviceWriteResult
device_keys writable [] = ok
device_keys writable (key ∷ keys) =
    if not (key == text "id") && not (contains writable key)
    then ownership_violation dv_comms_ownership_msg
    else device_keys writable keys

unfoldable pub validate_device_write : DeviceTable → List Text → DeviceWriteResult
unfolding device_keys contains device_writable_columns
validate_device_write device_contacts keys = ownership_violation dv_contacts_readonly_msg
validate_device_write device_comms_log keys =
    device_keys (device_writable_columns device_comms_log) keys

-- What a device may name in a payload for the comms log.
abbrev pub IsWritable : Text → Type 0
IsWritable key =
    (key ≡ text "id") ⊎ ((key ≡ text "user_acknowledged_at") ⊎ (key ≡ text "user_action_taken"))

abbrev writable : List Text
writable = text "user_acknowledged_at" ∷ text "user_action_taken" ∷ []

device_keys_iff : (keys : List Text) → (device_keys writable keys ≡ ok) ↔ All IsWritable keys
unfolding device_keys contains
device_keys_iff [] = ground arith
device_keys_iff (key ∷ keys) = ground (
  arith,
  device_keys_iff keys,
  ==_iff key (text "id"),
  ==_iff key (text "user_acknowledged_at"),
  ==_iff key (text "user_action_taken"),
)

-- A device write is accepted exactly when it goes to the comms log and names no column but the id
-- and the two that the device owns.
pub validate_device_write_iff :
    (table : DeviceTable) (keys : List Text)
    → (validate_device_write table keys ≡ ok) ↔ ((table ≡ device_comms_log) × All IsWritable keys)
unfolding validate_device_write
validate_device_write_iff device_comms_log keys = ground (arith, device_keys_iff keys)
validate_device_write_iff device_contacts keys = ground arith
