-- ===== src/Comms/ContentHash/Laws.antt =====
-- What the canonical serialization of backend/src/comms/contentHash.ts tells apart.
use mathlib.Core.List.{Perm}
use mathlib.Core.List.Perm
use onetrackmind.Common.{List, [], ◌∷◌, ◌++◌, Text, ◌≡◌, ◌↔◌, refl, ap, tail-eq}
use onetrackmind.Runtime.Sort.{sort, sort-perm, sort-eq_of_perm}
use onetrackmind.Runtime.Quote.{quote, quote_array}
use onetrackmind.Runtime.Quote.Injective.{quote-cancel, quote_array-cancel}
use onetrackmind.Comms.ContentHash.{ContentHashInput, canonical, compute_content_hash}

-- The same sender and body, and the same recipients in any order, each as often.
pub record SameContent (a b : ContentHashInput) : Type 0 where
  pub from : a.from_identifier ≡ b.from_identifier
  pub to : Perm a.to_identifiers b.to_identifiers
  pub body : a.body ≡ b.body

abbrev layout : Text → List Text → Text → Text
layout from to body =
    b'[' ∷ (quote from ++ (b',' ∷ (quote_array to ++ (b',' ∷ (quote body ++ b']' ∷ [])))))

canonical-layout :
    (a : ContentHashInput) → canonical a ≡ layout a.from_identifier (sort a.to_identifiers) a.body
unfolding canonical
canonical-layout a = refl

layout-cancel :
    (f g : Text) (s t : List Text) (p q : Text)
    → layout f s p ≡ layout g t q
    → (f ≡ g) × (s ≡ t) × (p ≡ q)
layout-cancel f g s t p q e =
    let (from, rest) = quote-cancel f g _ _ (tail-eq e) in
    let (to, rest') = quote_array-cancel s t _ _ (tail-eq rest) in
    let (body, _) = quote-cancel p q _ _ (tail-eq rest') in (from, to, body)

-- Two inputs have one canonical text exactly when they have the same content.
pub canonical_iff : (a b : ContentHashInput) → (canonical a ≡ canonical b) ↔ SameContent a b
canonical_iff a b = (apart, joined)
  where
    apart : canonical a ≡ canonical b → SameContent a b
    apart e =
        let (from, to, body) =
          layout-cancel _ _ (sort a.to_identifiers) (sort b.to_identifiers) _ _
            (rw (canonical-layout a, canonical-layout b) at e) in
        record {
          from = from;
          to =
              Perm.trans (Perm.symm (sort-perm a.to_identifiers))
                (rw to (sort-perm b.to_identifiers));
          body = body;
        }

    joined : SameContent a b → canonical a ≡ canonical b
    joined same =
        rw (canonical-layout a, canonical-layout b, same.from, same.body, sort-eq_of_perm same.to)

-- The hash of a message does not depend on the order of its recipients, whatever the digest.
pub compute_content_hash-perm :
    (sha256 : Text → Text) (a b : ContentHashInput)
    → SameContent a b
    → compute_content_hash sha256 a ≡ compute_content_hash sha256 b
unfolding compute_content_hash
compute_content_hash-perm sha256 a b same = ap sha256 ((canonical_iff a b).1 same)

-- Where the digest keeps these two canonical texts apart, equal hashes mean the same content.
pub compute_content_hash-SameContent :
    (sha256 : Text → Text) (a b : ContentHashInput)
    → (sha256 (canonical a) ≡ sha256 (canonical b) → canonical a ≡ canonical b)
    → compute_content_hash sha256 a ≡ compute_content_hash sha256 b
    → SameContent a b
unfolding compute_content_hash
compute_content_hash-SameContent sha256 a b no_collision e = (canonical_iff a b).0 (no_collision e)
