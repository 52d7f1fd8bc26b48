-- ===== src/Common/Result.antt =====
-- What an async method settles with: a value, or the error that it throws.
use Prim.Native.String.{String}
use mathlib.Core.Path.{◌≡◌, refl}
use mathlib.Core.Option.{Option, none, some}
use mathlib.Core.Logic.{◌⊎◌, inl, inr}

-- The class of an error: `Error` itself, a GraphQLError, or an exception of Nest.
pub data ErrorClass : Type 0 where
  plain graphql unauthorized bad_request not_found : ErrorClass

-- The JSON text of `createErrorString(message, code)` is kept as its two parts.
pub record Error : Type 0 where
  pub class : ErrorClass
  pub message : String
  pub code : Option String

-- `new Error(message)`
abbrev pub new_error : String → Error
new_error message = record { class = ErrorClass.plain; message = message; code = none }

-- `new Error(createErrorString(message, code))`
abbrev pub coded_error : String → String → Error
coded_error message code = record { class = ErrorClass.plain; message = message; code = some code }

-- `createGraphQLError(status, message, code)`, and `new UnauthorizedException({ message, code })` and
-- its like
abbrev pub error_of : ErrorClass → String → String → Error
error_of class message code = record { class = class; message = message; code = some code }

pub data Result {ℓ} (A : Type ℓ) : Type ℓ where
  ok : A → Result A
  err : Error → Result A

-- A method that touches a state: what was written before a throw stays written.
abbrev pub Async {ℓ} : Type ℓ → Type ℓ → Type ℓ
Async S A = S → Result A × S

module _ {ℓ} {S A : Type ℓ} where
  abbrev pub pure : A → Async S A
  pure a s = (ok a, s)

  abbrev pub throw : Error → Async S A
  throw e s = (err e, s)

  abbrev pub gets : (S → A) → Async S A
  gets f s = (ok (f s), s)

module _ {ℓ} {S A B : Type ℓ} where
  abbrev pub settle : Result A → (A → Async S B) → (Error → Async S B) → Async S B
  settle (ok a) f g = f a
  settle (err e) f g = g e

  -- try { m } catch (e) { g(e) }, and then f on the value of m
  abbrev pub try_catch : Async S A → (A → Async S B) → (Error → Async S B) → Async S B
  try_catch m f g s = let (r, s') = m s in settle r f g s'

  infixl 10 ◌>>=◌ ◌>>◌
  abbrev pub ◌>>=◌ : Async S A → (A → Async S B) → Async S B
  m >>= f = try_catch m f throw

  abbrev pub ◌>>◌ : Async S A → Async S B → Async S B
  m >> n = m >>= λ _. n

-- To split on how an action settled.
pub Result-cases {ℓ} :
    {A : Type ℓ} (r : Result A) → ((a : A) × (r ≡ ok a)) ⊎ ((e : Error) × (r ≡ err e))
Result-cases (ok a) = inl (a, refl)
Result-cases (err e) = inr (e, refl)

-- The value, where there is one, meets `P`.
abbrev pub Returns {ℓ κ} : {A : Type ℓ} → (A → Type κ) → Result A → Type κ
Returns P (ok a) = P a
Returns P (err e) = Unit

module _ {ℓ κ} {S B : Type ℓ} (P : B → Type κ) where
  pub Returns-bind :
      {A : Type ℓ} (m : Async S A) (f : A → Async S B) (s : S)
      → ((a : A) → (m s).0 ≡ ok a → Returns P (f a (m s).1).0)
      → Returns P ((m >>= f) s).0
  Returns-bind m f s h = elim (Result-cases (m s).0) [
    | inl (a, is) ↦ rw is (h a is)
    | inr (e, is) ↦ rw is tt
  ]

  pub Returns-catch :
      (m : Async S B) (g : Error → Async S B) (s : S)
      → Returns P (m s).0
      → ((e : Error) (s' : S) → Returns P (g e s').0)
      → Returns P (try_catch m pure g s).0
  Returns-catch m g s h k = elim (Result-cases (m s).0) [
    | inl (b, is) ↦ let h' = rw is at h in rw is h'
    | inr (e, is) ↦ rw is (k e (m s).1)
  ]

pub Returns-mono {ℓ κ} :
    {A : Type ℓ} (P Q : A → Type κ) (r : Result A)
    → ((a : A) → P a → Q a)
    → Returns P r
    → Returns Q r
Returns-mono P Q (ok a) h p = h a p
Returns-mono P Q (err e) h p = tt

pub Returns-ok {ℓ κ} :
    {A : Type ℓ} (P : A → Type κ) (r : Result A) (a : A) → r ≡ ok a → Returns P r → P a
Returns-ok P r a is h = rw is at h
