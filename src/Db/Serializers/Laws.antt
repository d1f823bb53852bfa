-- ===== src/Db/Serializers/Laws.antt =====
-- What the JSON-in-TEXT columns read back.
use onetrackmind.Common.{List, [], ◌∷◌, ◌++◌, Text, ◌≡◌, refl, ap, ◌∙◌, map}
use mathlib.Core.List.{append-nil, append_assoc}
use onetrackmind.Db.Serializers.{
  Items, Parsed, value, syntax_error, parsed_result, ◌>>=◌, json_from_db, elems, Json, null, bool,
  num, str, arr, obj, elems-items, string_array, JsonCodec, RoundTrips, ok, collect_strings,
  strings_of, json_to_db, string_array_from_db, json_object_from_db, Members,
}

collect_strings-map :
    (column : Text) (out xs : List Text) → collect_strings column out (map str xs) ≡ ok (out ++ xs)
unfolding collect_strings
collect_strings-map column out [] = rw append-nil
collect_strings-map column out (x ∷ xs) =
    rw (collect_strings-map column (out ++ x ∷ []) xs) (rw append_assoc)

collect_strings-eq-ok :
    (column : Text) (out : List Text) (vs : List Json) (xs : List Text)
    → collect_strings column out vs ≡ ok xs
    → (ys : List Text) × (vs ≡ map str ys) × (xs ≡ out ++ ys)
unfolding collect_strings
collect_strings-eq-ok column out [] xs h = ([], refl, rw append-nil (cc))
collect_strings-eq-ok column out (str s ∷ vs) xs h =
    let (ys, same, all) = collect_strings-eq-ok column (out ++ s ∷ []) vs xs h in
    (s ∷ ys, ap (◌∷◌ (str s)) same, all ∙ append_assoc out (s ∷ []) ys)
collect_strings-eq-ok column out (null ∷ vs) xs h = cc
collect_strings-eq-ok column out (bool b ∷ vs) xs h = cc
collect_strings-eq-ok column out (num n ∷ vs) xs h = cc
collect_strings-eq-ok column out (arr a ∷ vs) xs h = cc
collect_strings-eq-ok column out (obj m ∷ vs) xs h = cc

pub strings_of-string_array :
    (column : Text) (xs : List Text) → strings_of column (string_array xs) ≡ ok xs
unfolding strings_of
strings_of-string_array column xs = rw (elems-items (map str xs)) (collect_strings-map column [] xs)

strings_of-eq-ok :
    (column : Text) (p : Parsed) (xs : List Text)
    → (parsed_result column p >>= strings_of column) ≡ ok xs
    → (vs : Items) × (p ≡ value (arr vs)) × (elems vs ≡ map str xs)
unfolding strings_of
strings_of-eq-ok column (value (arr vs)) xs h =
    let (ys, same, all) = collect_strings-eq-ok column [] (elems vs) xs h in (vs, refl, rw all same)
strings_of-eq-ok column (value null) xs h = cc
strings_of-eq-ok column (value (bool b)) xs h = cc
strings_of-eq-ok column (value (num n)) xs h = cc
strings_of-eq-ok column (value (str s)) xs h = cc
strings_of-eq-ok column (value (obj m)) xs h = cc
strings_of-eq-ok column (syntax_error e) xs h = cc

module _ (codec : JsonCodec) where
  -- A column written by `jsonToDb` from a string array reads back as that array.
  pub string_array_from_db-json_to_db :
      (column : Text) (xs : List Text)
      → RoundTrips codec (string_array xs)
      → string_array_from_db codec (json_to_db codec (string_array xs)) column ≡ ok xs
  unfolding string_array_from_db json_to_db
  string_array_from_db-json_to_db column xs h = rw h (strings_of-string_array column xs)

  pub json_object_from_db-json_to_db :
      (column : Text) (ms : Members)
      → RoundTrips codec (obj ms)
      → json_object_from_db codec (json_to_db codec (obj ms)) column ≡ ok ms
  unfolding json_object_from_db json_to_db
  json_object_from_db-json_to_db column ms h = rw h

  -- A column that is read as a string array is the JSON text of an array whose elements are those
  -- strings and nothing else.
  pub string_array_from_db-eq-ok :
      (source column : Text) (xs : List Text)
      → string_array_from_db codec source column ≡ ok xs
      → (vs : Items) × (codec.parse source ≡ value (arr vs)) × (elems vs ≡ map str xs)
  unfolding string_array_from_db json_from_db
  string_array_from_db-eq-ok source column xs h = strings_of-eq-ok column (codec.parse source) xs h
