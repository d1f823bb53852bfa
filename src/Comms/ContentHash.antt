-- ===== src/Comms/ContentHash.antt =====
-- backend/src/comms/contentHash.ts. The digest of node:crypto, `createHash('sha256')` over the
-- UTF-8 encoding in lowercase hex, is the parameter `sha256`.
pub mod Laws
use onetrackmind.Common.{List, [], ◌∷◌, ◌++◌, Text}
use onetrackmind.Runtime.Sort.{sort}
use onetrackmind.Runtime.Quote.{quote, quote_array}

pub record ContentHashInput : Type 0 where
  pub from_identifier : Text
  pub to_identifiers : List Text
  pub body : Text

-- `JSON.stringify([from, [...to].sort(), body])`
unfoldable pub canonical : ContentHashInput → Text
unfolding sort quote quote_array
canonical input =
    b'['
    ∷ (quote input.from_identifier
        ++ (b','
            ∷ (quote_array (sort input.to_identifiers)
                ++ (b',' ∷ (quote input.body ++ b']' ∷ [])))))

unfoldable pub compute_content_hash : (Text → Text) → ContentHashInput → Text
unfolding canonical
compute_content_hash sha256 input = sha256 (canonical input)
