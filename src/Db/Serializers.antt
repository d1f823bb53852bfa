-- ===== src/Db/Serializers.antt =====
-- The primitive serializers of backend/src/db/mapping/serializers.ts. `JSON.parse` and
-- `JSON.stringify` are the two fields of a `JsonCodec`; a theorem says which of their results it
-- relies on.
pub mod Laws
use onetrackmind.Common.{Bool, true, false, List, [], ◌∷◌, ◌++◌, Text, text, ◌≡◌, refl, map, arith}
use onetrackmind.Db.Vocabulary.{Bool01}

-- A parsed JSON value. A number is kept as its literal.
mutual
  pub data Json : Type 0 where
    null : Json
    bool : Bool → Json
    num : Text → Json
    str : Text → Json
    arr : Items → Json
    obj : Members → Json

  pub data Items : Type 0 where
    nil : Items
    cons : Json → Items → Items

  pub data Members : Type 0 where
    end : Members
    member : Text → Json → Members → Members

abbrev pub elems : Items → List Json
elems nil = []
elems (cons v vs) = v ∷ elems vs

abbrev pub items : List Json → Items
items [] = nil
items (v ∷ vs) = cons v (items vs)

pub elems-items : (vs : List Json) → elems (items vs) ≡ vs
elems-items [] = refl
elems-items (v ∷ vs) = ground (arith, elems-items vs)

-- A JavaScript array of strings, as the value that `JSON.stringify` is given.
abbrev pub string_array : List Text → Json
string_array xs = arr (items (map str xs))

-- What `JSON.parse` does: a value, or a thrown `SyntaxError` with its message.
pub data Parsed : Type 0 where
  value : Json → Parsed
  syntax_error : Text → Parsed

pub record JsonCodec : Type 0 where
  pub parse : Text → Parsed
  pub stringify : Json → Text

-- `JSON.parse` reads back what `JSON.stringify` wrote for this value.
abbrev pub RoundTrips : JsonCodec → Json → Type 0
RoundTrips c v = c.parse (c.stringify v) ≡ value v

pub data MapFailureReason : Type 0 where
  malformed_json wrong_shape : MapFailureReason

pub data MapResult {ℓ} (A : Type ℓ) : Type ℓ where
  ok : A → MapResult A
  failure : MapFailureReason → Text → MapResult A

infixl 5 ◌>>=◌
abbrev pub ◌>>=◌ {ℓ κ} : {A : Type ℓ} {B : Type κ} → MapResult A → (A → MapResult B) → MapResult B
ok a >>= f = f a
failure reason detail >>= f = failure reason detail

unfoldable pub bool_from_db : Bool01 → Bool
bool_from_db Bool01.one = true
bool_from_db Bool01.zero = false

unfoldable pub bool_to_db : Bool → Bool01
bool_to_db true = Bool01.one
bool_to_db false = Bool01.zero

pub bool_from_db-to_db : (b : Bool) → bool_from_db (bool_to_db b) ≡ b
unfolding bool_from_db bool_to_db
bool_from_db-to_db true = refl
bool_from_db-to_db false = refl

unfoldable pub timestamp_from_db : Text → Text
timestamp_from_db v = v

unfoldable pub timestamp_to_db : Text → Text
timestamp_to_db v = v

abbrev parsed_result : Text → Parsed → MapResult Json
parsed_result column (value v) = ok v
parsed_result column (syntax_error msg) = failure malformed_json (column ++ text ": " ++ msg)

abbrev string_array_detail : Text → Text
string_array_detail column = column ++ text ": expected a JSON array of strings"

-- The loop over `parsed.value`, with the array built so far.
collect_strings : Text → List Text → List Json → MapResult (List Text)
collect_strings column out [] = ok out
collect_strings column out (str s ∷ vs) = collect_strings column (out ++ s ∷ []) vs
collect_strings column out (_ ∷ vs) = failure wrong_shape (string_array_detail column)

unfoldable pub strings_of : Text → Json → MapResult (List Text)
unfolding collect_strings
strings_of column (arr vs) = collect_strings column [] (elems vs)
strings_of column _ = failure wrong_shape (string_array_detail column)

unfoldable pub object_of : Text → Json → MapResult Members
object_of column (obj ms) = ok ms
object_of column _ = failure wrong_shape (column ++ text ": expected a JSON object")

module _ (codec : JsonCodec) where
  unfoldable pub json_to_db : Json → Text
  json_to_db v = codec.stringify v

  unfoldable pub json_from_db : Text → Text → MapResult Json
  json_from_db source column = parsed_result column (codec.parse source)

  unfoldable pub string_array_from_db : Text → Text → MapResult (List Text)
  unfolding json_from_db strings_of
  string_array_from_db source column = do
    parsed ← json_from_db source column
    strings_of column parsed

  unfoldable pub json_object_from_db : Text → Text → MapResult Members
  unfolding json_from_db object_of
  json_object_from_db source column = do
    parsed ← json_from_db source column
    object_of column parsed
