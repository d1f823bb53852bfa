-- ===== src/Common/Results.antt =====
-- Thrown values, and calls that may throw.
use mathlib.Core.Path.{◌≡◌, refl}
use mathlib.Core.Logic.{◌⊎◌, inl, inr}
use mathlib.Core.Option.{Option, none, some}
use onetrackmind.Common.Texts.{Text, text}

-- What a `catch` clause receives: an `Error`, or any other value with its `typeof` and `String()`.
pub data Thrown : Type 0 where
  error : (name message : Text) → Thrown
  other : (type_of as_string : Text) → Thrown

-- The result of a call that returns or throws.
pub data Throws {ℓ κ} (E : Type κ) (A : Type ℓ) : Type (ℓ ⊔ κ) where
  returns : A → Throws E A
  throws : E → Throws E A

infixl 5 ◌>>=◌
abbrev pub ◌>>=◌ {ℓ κ ι} :
    {E : Type κ} {A : Type ℓ} {B : Type ι} → Throws E A → (A → Throws E B) → Throws E B
returns a >>= f = f a
throws e >>= f = throws e

-- `err instanceof Error ? err.name : typeof err`
abbrev pub error_class_of : Thrown → Text
error_class_of (error name message) = name
error_class_of (other type_of as_string) = type_of

-- `err instanceof Error ? err.message : String(err)`
abbrev pub error_message_of : Thrown → Text
error_message_of (error name message) = message
error_message_of (other type_of as_string) = as_string

pub Throws-cases {ℓ κ} :
    {E : Type κ} {A : Type ℓ} (t : Throws E A)
    → ((a : A) × (t ≡ returns a)) ⊎ ((e : E) × (t ≡ throws e))
Throws-cases (returns a) = inl (a, refl)
Throws-cases (throws e) = inr (e, refl)

-- A chain that returns is a chain of calls that return.
pub bind-returns {ℓ κ ι} :
    {E : Type κ} {A : Type ℓ} {B : Type ι} (t : Throws E A) (f : A → Throws E B) (b : B)
    → (t >>= f) ≡ returns b
    → (a : A) × (t ≡ returns a) × (f a ≡ returns b)
bind-returns (returns a) f b h = (a, refl, h)
bind-returns (throws e) f b h = absurd (cc h)

abbrev pub sqlite_error : Text → Thrown
sqlite_error message = Thrown.error (text "Error") message

-- A statement, or the fault that the driver throws in its place.
abbrev pub unless_fault {ℓ} : {A : Type ℓ} → Option Thrown → Throws Thrown A → Throws Thrown A
unless_fault none result = result
unless_fault (some e) result = throws e

pub returns-inj {ℓ κ} :
    {E : Type κ} {A : Type ℓ} {a b : A} → ◌≡◌ {A = Throws E A} (returns a) (returns b) → a ≡ b
returns-inj h = cc h
