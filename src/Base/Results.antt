-- ===== src/Base/Results.antt =====
-- Exceptions as values, and methods that change a state and may raise.
use Prim.Native.String.{String}
use mathlib.Core.Path.{◌≡◌, refl, subst}
use mathlib.Core.Logic.{◌⊎◌, inl, inr}
use mathlib.Core.Bool.{Bool, true, false}
use mathlib.Core.List.{List, [], ◌∷◌}

-- The exception classes that the operator raises or handles, with their messages.
pub data Error : Type 0 where
  value_error : String → Error
  type_error : String → Error
  key_error : String → Error
  attribute_error : String → Error
  assertion_error : String → Error
  lookup_error : String → Error
  mcp_conflict_error : String → Error
  mcp_not_found_error : String → Error
  conflict_error : String → Error
  file_exists_error : String → Error
  duplicate_token_error : String → Error

-- What a call gives back: its value, or the exception that it raises.
pub data Result {ℓ} (A : Type ℓ) : Type ℓ where
  ok : (value : A) → Result A
  err : (raised : Error) → Result A

-- `if test: raise error`
abbrev pub raise_if : Bool → Error → Result (Unit {0})
raise_if false error = ok tt
raise_if true error = err error

infixl 5 ◌>>=◌ ◌>>◌
-- One call after another that needs its value; the first exception ends both.
abbrev pub ◌>>=◌ {ℓ κ} : {A : Type ℓ} {B : Type κ} → Result A → (A → Result B) → Result B
err raised >>= next = err raised
ok value >>= next = next value

abbrev pub ◌>>◌ {κ} : {B : Type κ} → Result (Unit {0}) → Result B → Result B
check >> next = check >>= λ done. next

-- A comprehension whose element may raise: the first error ends it.
unfoldable pub traverse {ℓ κ} :
    {A : Type ℓ} {B : Type κ} → (A → Result B) → List A → Result (List B)
traverse f [] = ok []
traverse f (x ∷ xs) = f x >>= λ y. traverse f xs >>= λ ys. ok (y ∷ ys)

-- If two calls in a row succeed, so did the first, and the second did on its value.
pub >>=-eq-ok {ℓ κ} :
    {A : Type ℓ} {B : Type κ} (call : Result A) (next : A → Result B) {b : B}
    → (call >>= next) ≡ ok b
    → (a : A) × (call ≡ ok a) × (next a ≡ ok b)
>>=-eq-ok (err raised) next h = cc
>>=-eq-ok (ok value) next h = (value, refl, h)

pub ok-injective {ℓ} : {A : Type ℓ} (a b : A) → ok a ≡ ok b → a ≡ b
ok-injective a b h = cc

pub Result-cases {ℓ} :
    {A : Type ℓ} (r : Result A) → ((a : A) × (r ≡ ok a)) ⊎ ((e : Error) × (r ≡ err e))
Result-cases (ok a) = inl (a, refl)
Result-cases (err e) = inr (e, refl)

-- A predicate holds of the value, if there is one.
abbrev pub OnOk {ℓ κ} : {A : Type ℓ} → (A → Type κ) → Result A → Type κ
OnOk P (ok a) = P a
OnOk P (err e) = Unit

-- What holds after every value of a call holds after the call.
pub bind-OnOk {ℓ κ μ} :
    {A : Type ℓ} {B : Type κ} (P : B → Type μ) (call : Result A) (next : A → Result B)
    → ((a : A) → OnOk P (next a))
    → OnOk P (call >>= next)
bind-OnOk P (ok a) next h = h a
bind-OnOk P (err e) next h = tt

pub OnOk-ok {ℓ κ} : {A : Type ℓ} (P : A → Type κ) (r : Result A) (a : A) → OnOk P r → r ≡ ok a → P a
OnOk-ok P (ok b) a h e = subst P (ok-injective b a e) h
OnOk-ok P (err x) a h e = cc

pub bind-OnOk_with {ℓ κ μ ν} :
    {A : Type ℓ} {B : Type κ} (Q : A → Type ν) (P : B → Type μ) (call : Result A)
    (next : A → Result B)
    → OnOk Q call
    → ((a : A) → Q a → OnOk P (next a))
    → OnOk P (call >>= next)
bind-OnOk_with Q P (ok a) next q h = h a q
bind-OnOk_with Q P (err e) next q h = tt

pub OnOk-from {ℓ κ} :
    {A : Type ℓ} (P : A → Type κ) (r : Result A) → ((a : A) → r ≡ ok a → P a) → OnOk P r
OnOk-from P (ok a) h = h a refl
OnOk-from P (err e) h = tt
