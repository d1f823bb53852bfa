-- ===== src/Runtime/Quote/Injective.antt =====
-- A quoted string can be read back, whatever follows it.
use onetrackmind.Common.{
  ℕ, ◌/◌, ◌%◌, ◌<◌, Bool, false, List, [], ◌∷◌, ◌++◌, ◌≡◌, ◌≢◌, ◌⊎◌, inl, inr, refl, arith, Text,
  sym, ap, ◌∙◌,
}
use mathlib.Core.List.{append_assoc}
use onetrackmind.Runtime.Quote.{
  hex, unicode_escape, is_lead, is_paired, short_escape, escape_unit, escape_from, quote,
  quote_items, quote_array,
}

hex-injective : (m n : ℕ) → m < 16 → n < 16 → hex m ≡ hex n → m ≡ n
unfolding hex
hex-injective m n hm hn e = ground arith

unicode_escape-cancel :
    (c d : ℕ) (r s : Text)
    → c < 65536
    → d < 65536
    → unicode_escape c ++ r ≡ unicode_escape d ++ s
    → (c ≡ d) × (r ≡ s)
unfolding unicode_escape
unicode_escape-cancel c d r s hc hd e = ground (
  arith,
  hex-injective (c / 4096 % 16) (d / 4096 % 16),
  hex-injective (c / 256 % 16) (d / 256 % 16),
  hex-injective (c / 16 % 16) (d / 16 % 16),
  hex-injective (c % 16) (d % 16),
)

short_escape-injective : (c d : ℕ) → 0 < short_escape c → short_escape c ≡ short_escape d → c ≡ d
unfolding short_escape
short_escape-injective c d h e = ground arith

short_escape-ne : (c : ℕ) → short_escape c ≢ b'u'
unfolding short_escape
short_escape-ne c = ground arith

plain_unit : (c : ℕ) → short_escape c ≡ 0 → (c ≢ b'\\') × (c ≢ b'"')
unfolding short_escape
plain_unit c h = ground arith

escape_unit_cases :
    (p : Bool) (c : ℕ)
    → ((0 < short_escape c) × (escape_unit p c ≡ b'\\' ∷ short_escape c ∷ []))
      ⊎ (((c < 65536) × (escape_unit p c ≡ unicode_escape c))
          ⊎ ((c ≢ b'\\') × (c ≢ b'"') × (escape_unit p c ≡ c ∷ [])))
unfolding escape_unit
escape_unit_cases p c = ground (arith, plain_unit c)

abbrev Cancels : Bool → Bool → ℕ → ℕ → Text → Text → Type 0
Cancels p q c d r s = escape_unit p c ++ r ≡ escape_unit q d ++ s → (c ≡ d) × (r ≡ s)

-- The escapes of two units, with anything behind them, are told apart.
escape_unit-cancel : (p q : Bool) (c d : ℕ) (r s : Text) → Cancels p q c d r s
unfolding unicode_escape
escape_unit-cancel p q c d r s e = elim (escape_unit_cases p c) [
  | inl (short, ec) ↦ elim (escape_unit_cases q d) [
    | inl (short', ed) ↦ ground (arith, short_escape-injective c d)
    | inr (inl (_, ed)) ↦ ground (arith, short_escape-ne c)
    | inr (inr (slash, _, ed)) ↦ ground arith
  ]
  | inr (inl (hc, ec)) ↦ elim (escape_unit_cases q d) [
    | inl (short', ed) ↦ ground (arith, short_escape-ne d)
    | inr (inl (hd, ed)) ↦ unicode_escape-cancel c d r s hc hd (rw (ec, ed) at e)
    | inr (inr (slash, _, ed)) ↦ ground arith
  ]
  | inr (inr (slash, _, ec)) ↦ elim (escape_unit_cases q d) [
    | inl (short', ed) ↦ ground arith
    | inr (inl (_, ed)) ↦ ground arith
    | inr (inr (slash', _, ed)) ↦ ground arith
  ]
]

-- No escape begins with the quotation mark.
escape_unit-ne-quote : (p : Bool) (c : ℕ) (r s : Text) → escape_unit p c ++ r ≢ b'"' ∷ s
unfolding unicode_escape
escape_unit-ne-quote p c r s e = elim (escape_unit_cases p c) [
  | inl (short, ec) ↦ ground arith
  | inr (inl (_, ec)) ↦ ground arith
  | inr (inr (_, mark, ec)) ↦ ground arith
]

escape_from-cancel :
    (p q : Bool) (s t r u : Text)
    → escape_from p s ++ b'"' ∷ r ≡ escape_from q t ++ b'"' ∷ u
    → (s ≡ t) × (r ≡ u)
unfolding escape_from
escape_from-cancel p q [] [] r u e = (refl, cc)
escape_from-cancel p q [] (d ∷ t) r u e =
    absurd (escape_unit-ne-quote _ d _ r (sym (rw append_assoc at e)))
escape_from-cancel p q (c ∷ s) [] r u e =
    absurd (escape_unit-ne-quote _ c _ u (rw append_assoc at e))
escape_from-cancel p q (c ∷ s) (d ∷ t) r u e =
    let (same, rest) = escape_unit-cancel (is_paired p c s) (is_paired q d t) c d _ _ (
      sym (append_assoc (escape_unit (is_paired p c s) c) _ _)
      ∙ e
      ∙ append_assoc (escape_unit (is_paired q d t) d) _ _) in
    let (tails, after) = escape_from-cancel (is_lead c) (is_lead d) s t r u rest in (cc, after)

quote_append : (s r : Text) → quote s ++ r ≡ b'"' ∷ (escape_from false s ++ b'"' ∷ r)
unfolding quote
quote_append s r = ap (◌∷◌ b'"') (append_assoc (escape_from false s) (b'"' ∷ []) r)

-- Two quoted strings, each with anything behind it, are equal only if both parts are.
pub quote-cancel : (s t r u : Text) → quote s ++ r ≡ quote t ++ u → (s ≡ t) × (r ≡ u)
quote-cancel s t r u e =
    escape_from-cancel false false s t r u (cc (sym (quote_append s r) ∙ e ∙ quote_append t u))

quote-ne-bracket : (s r u : Text) → quote s ++ r ≢ b']' ∷ u
quote-ne-bracket s r u e = ground (arith, quote_append s r)

quote_items-cancel :
    (xs ys : List Text) (r u : Text)
    → quote_items xs ++ b']' ∷ r ≡ quote_items ys ++ b']' ∷ u
    → (xs ≡ ys) × (r ≡ u)
unfolding quote_items
quote_items-cancel [] [] r u e = (refl, cc)
quote_items-cancel [] (y ∷ []) r u e = absurd (quote-ne-bracket y _ r (sym e))
quote_items-cancel [] (y ∷ z ∷ ys) r u e =
    absurd (quote-ne-bracket y _ r (sym (rw append_assoc at e)))
quote_items-cancel (x ∷ []) [] r u e = absurd (quote-ne-bracket x _ u e)
quote_items-cancel (x ∷ w ∷ xs) [] r u e = absurd (quote-ne-bracket x _ u (rw append_assoc at e))
quote_items-cancel (x ∷ []) (y ∷ []) r u e = let (same, after) = quote-cancel x y _ _ e in (cc, cc)
quote_items-cancel (x ∷ []) (y ∷ z ∷ ys) r u e =
    let (_, after) = quote-cancel x y _ _ (e ∙ append_assoc (quote y) _ _) in absurd (ground arith)
quote_items-cancel (x ∷ w ∷ xs) (y ∷ []) r u e =
    let (_, after) = quote-cancel x y _ _ (sym (append_assoc (quote x) _ _) ∙ e) in
    absurd (ground arith)
quote_items-cancel (x ∷ w ∷ xs) (y ∷ z ∷ ys) r u e =
    let (same, after) =
      quote-cancel x y _ _ (sym (append_assoc (quote x) _ _) ∙ e ∙ append_assoc (quote y) _ _) in
    let (more, end) = quote_items-cancel (w ∷ xs) (z ∷ ys) r u (cc) in (cc, end)

-- So for two quoted arrays.
pub quote_array-cancel :
    (xs ys : List Text) (r u : Text)
    → quote_array xs ++ r ≡ quote_array ys ++ u
    → (xs ≡ ys) × (r ≡ u)
unfolding quote_array
quote_array-cancel xs ys r u e = quote_items-cancel xs ys r u (
    sym (append_assoc (quote_items xs) (b']' ∷ []) r)
    ∙ ground arith
    ∙ append_assoc (quote_items ys) (b']' ∷ []) u)
