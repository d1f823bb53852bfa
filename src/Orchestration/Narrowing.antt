-- ===== src/Orchestration/Narrowing.antt =====
-- backend/src/orchestration/typeUtils.ts. A record is the member list of a parsed JSON object, whose
-- keys are distinct; a key that is absent gives `undefined`.
use onetrackmind.Common.{
  Bool, List, Option, none, some, Text, Text-Eq, ◌==◌, contains, if◌then◌else◌,
}
use onetrackmind.Db.Serializers.{Json, bool, num, str, arr, obj, Members, end, member, elems}

-- `obj[key]`
unfoldable pub field : Members → Text → Option Json
field end key = none
field (member k v rest) key = if k == key then some v else field rest key

abbrev pub as_string : Option Json → Option Text
as_string (some (str s)) = some s
as_string _ = none

abbrev as_number : Option Json → Option Text
as_number (some (num n)) = some n
as_number _ = none

abbrev as_record : Option Json → Option Members
as_record (some (obj ms)) = some ms
as_record _ = none

abbrev as_array : Option Json → Option (List Json)
as_array (some (arr vs)) = some (elems vs)
as_array _ = none

abbrev as_boolean : Option Json → Option Bool
as_boolean (some (bool b)) = some b
as_boolean _ = none

unfoldable pub extract_string : Members → Text → Option Text
unfolding field
extract_string ms key = as_string (field ms key)

unfoldable pub extract_number : Members → Text → Option Text
unfolding field
extract_number ms key = as_number (field ms key)

unfoldable pub to_record : Json → Option Members
to_record v = as_record (some v)

unfoldable pub extract_object : Members → Text → Option Members
unfolding field
extract_object ms key = as_record (field ms key)

unfoldable pub extract_array : Members → Text → Option (List Json)
unfolding field
extract_array ms key = as_array (field ms key)

unfoldable pub extract_boolean : Members → Text → Option Bool
unfolding field
extract_boolean ms key = as_boolean (field ms key)

-- `extractOneOf`, for the literals of a union.
unfoldable pub extract_one_of : Members → Text → List Text → Option Text
unfolding extract_string contains
extract_one_of ms key allowed = allowed_only (extract_string ms key)
  where
    allowed_only : Option Text → Option Text
    allowed_only none = none
    allowed_only (some val) = if contains allowed val then some val else none
