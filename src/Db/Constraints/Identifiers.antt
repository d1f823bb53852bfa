-- ===== src/Db/Constraints/Identifiers.antt =====
-- `parseContactIdentifiers` of backend/src/db/mapping/dalConstraints.ts.
use onetrackmind.Common.{
  Bool, false, not, ◌&&◌, ◌||◌, List, Text, text, text_eq, Text-Eq, ◌==◌, every, if◌then◌else◌, ◌≡◌,
  ◌↔◌, ◌⊎◌, ◌≢◌, inl, inr, refl, arith, true, All, [], ◌∷◌, Bool-cases, text_eq_iff,
}
use onetrackmind.Db.Serializers.{
  json_to_db, Json, arr, obj, str, Members, end, member, elems, Parsed, value, syntax_error,
  JsonCodec, RoundTrips, Items, items, elems-items, null, bool, num, MapResult, ok, failure,
  malformed_json, wrong_shape,
}

unfoldable pub ct_identifiers_json_msg : Text
ct_identifiers_json_msg = text "DAL rejection: contacts.identifiers is not valid JSON"

unfoldable pub ct_identifiers_shape_msg : Text
ct_identifiers_shape_msg =
    text "DAL rejection: contacts.identifiers must be an array of {channel,value}"

-- `key in item && typeof item[key] === 'string'`; the keys of a parsed object are distinct.
has_string : Text → Members → Bool
has_string key end = false
has_string key (member k (str s) ms) = k == key || has_string key ms
has_string key (member k _ ms) = not (k == key) && has_string key ms

unfoldable pub is_contact_identifier : Json → Bool
unfolding has_string text_eq
is_contact_identifier (obj ms) = has_string (text "channel") ms && has_string (text "value") ms
is_contact_identifier _ = false

identifiers_of : Parsed → MapResult (List Json)
identifiers_of (syntax_error msg) = failure malformed_json ct_identifiers_json_msg
identifiers_of (value (arr vs)) =
    if every is_contact_identifier (elems vs)
    then ok (elems vs)
    else failure wrong_shape ct_identifiers_shape_msg
identifiers_of (value _) = failure wrong_shape ct_identifiers_shape_msg

unfoldable pub parse_contact_identifiers : JsonCodec → Text → MapResult (List Json)
unfolding identifiers_of
parse_contact_identifiers codec source = identifiers_of (codec.parse source)

-- The first member of this name is a string.
abbrev HasString : Text → Members → Type 0
HasString key end = ⊥
HasString key (member k v ms) =
    ((k ≡ key) × (s : Text) × (v ≡ str s)) ⊎ ((k ≢ key) × HasString key ms)

-- An object with a string `channel` and a string `value`.
abbrev pub IsContactIdentifier : Json → Type 0
IsContactIdentifier (obj ms) = HasString (text "channel") ms × HasString (text "value") ms
IsContactIdentifier _ = ⊥

not_string :
    (key k : Text) (v : Json) (ms : Members)
    → ((s : Text) → v ≢ str s)
    → (has_string key ms ≡ true) ↔ HasString key ms
    → ((not (k == key) && has_string key ms) ≡ true) ↔ HasString key (member k v ms)
not_string key k v ms odd rest = elim (Bool-cases (k == key)) [
  | inl here ↦ rw here (
    λ h. absurd (cc h),
    λ h. elim h [
      | inl (_, s, e) ↦ absurd (odd s e)
      | inr (apart, _) ↦ absurd (apart ((text_eq_iff k key).0 here))
    ],
  )
  | inr other ↦ rw other (
    λ h. inr (λ e. cc ((text_eq_iff k key).1 e, other), rest.0 h),
    λ h. elim h [
      | inl (same, _, _) ↦ absurd (cc ((text_eq_iff k key).1 same, other))
      | inr (_, later) ↦ rest.1 later
    ],
  )
]

has_string_iff : (key : Text) (ms : Members) → (has_string key ms ≡ true) ↔ HasString key ms
unfolding has_string
has_string_iff key end = (λ h. absurd (cc h), λ h. absurd h)
has_string_iff key (member k (str s) ms) = elim (Bool-cases (k == key)) [
  | inl here ↦ rw here (λ _. inl ((text_eq_iff k key).0 here, s, refl), λ _. refl)
  | inr other ↦ rw other (
    λ h. inr (λ e. cc ((text_eq_iff k key).1 e, other), (has_string_iff key ms).0 h),
    λ h. elim h [
      | inl (same, _, _) ↦ absurd (cc ((text_eq_iff k key).1 same, other))
      | inr (_, later) ↦ (has_string_iff key ms).1 later
    ],
  )
]
has_string_iff key (member k null ms) = not_string key k null ms (λ s. cc) (has_string_iff key ms)
has_string_iff key (member k (bool b) ms) =
    not_string key k (bool b) ms (λ s. cc) (has_string_iff key ms)
has_string_iff key (member k (num n) ms) =
    not_string key k (num n) ms (λ s. cc) (has_string_iff key ms)
has_string_iff key (member k (arr vs) ms) =
    not_string key k (arr vs) ms (λ s. cc) (has_string_iff key ms)
has_string_iff key (member k (obj m) ms) =
    not_string key k (obj m) ms (λ s. cc) (has_string_iff key ms)

both : (a b : Bool) → (a && b) ≡ true → (a ≡ true) × (b ≡ true)
both a b h = ground arith

is_contact_identifier_iff : (v : Json) → (is_contact_identifier v ≡ true) ↔ IsContactIdentifier v
unfolding is_contact_identifier
is_contact_identifier_iff (obj ms) =
    let channel = has_string_iff (text "channel") ms in
    let of_value = has_string_iff (text "value") ms in
    (
      λ h. let (c, v) = both _ _ h in (channel.0 c, of_value.0 v),
      λ (c, v). rw (channel.1 c, of_value.1 v) refl,
    )
is_contact_identifier_iff null = (λ h. absurd (cc h), λ h. absurd h)
is_contact_identifier_iff (bool b) = (λ h. absurd (cc h), λ h. absurd h)
is_contact_identifier_iff (num n) = (λ h. absurd (cc h), λ h. absurd h)
is_contact_identifier_iff (str s) = (λ h. absurd (cc h), λ h. absurd h)
is_contact_identifier_iff (arr vs) = (λ h. absurd (cc h), λ h. absurd h)

every_iff : (vs : List Json) → (every is_contact_identifier vs ≡ true) ↔ All IsContactIdentifier vs
every_iff [] = (λ h. tt, λ h. refl)
every_iff (v ∷ vs) =
    let head = is_contact_identifier_iff v in
    let tail = every_iff vs in
    (λ h. let (a, b) = both _ _ h in (head.0 a, tail.0 b), λ (a, b). rw (head.1 a, tail.1 b) refl)

identifiers_of-eq-ok :
    (p : Parsed) (vs : List Json)
    → identifiers_of p ≡ ok vs
    → (xs : Items) × (p ≡ value (arr xs))
      × (vs ≡ elems xs)
      × (every is_contact_identifier vs ≡ true)
unfolding identifiers_of
identifiers_of-eq-ok (value (arr xs)) vs h = (xs, refl, ground arith, ground arith)
identifiers_of-eq-ok (value null) vs h = cc
identifiers_of-eq-ok (value (bool b)) vs h = cc
identifiers_of-eq-ok (value (num n)) vs h = cc
identifiers_of-eq-ok (value (str s)) vs h = cc
identifiers_of-eq-ok (value (obj m)) vs h = cc
identifiers_of-eq-ok (syntax_error e) vs h = cc

-- The column is accepted exactly when it is the JSON text of an array whose every element is an
-- object with a string `channel` and a string `value`, and the elements are returned as parsed.
pub parse_contact_identifiers_iff :
    (codec : JsonCodec) (source : Text) (vs : List Json)
    → (parse_contact_identifiers codec source ≡ ok vs) ↔ (
        (xs : Items) × (codec.parse source ≡ value (arr xs))
        × (vs ≡ elems xs)
        × All IsContactIdentifier vs)
unfolding parse_contact_identifiers identifiers_of
parse_contact_identifiers_iff codec source vs = (
  λ h.
      let (xs, parsed, same, shaped) = identifiers_of-eq-ok (codec.parse source) vs h in
      (xs, parsed, same, (every_iff vs).0 shaped),
  λ (xs, parsed, same, shaped). rw (parsed, ← same, (every_iff vs).1 shaped),
)

pub parse_contact_identifiers-stringify :
    (codec : JsonCodec) (vs : List Json)
    → every is_contact_identifier vs ≡ true
    → RoundTrips codec (arr (items vs))
    → parse_contact_identifiers codec (json_to_db codec (arr (items vs))) ≡ ok vs
unfolding json_to_db parse_contact_identifiers identifiers_of
parse_contact_identifiers-stringify codec vs h r = rw (r, elems-items vs, h)
