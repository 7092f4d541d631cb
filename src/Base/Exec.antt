-- ===== src/Base/Exec.antt =====
-- Methods that change a state and may raise. What was written before a raise stays written, so
-- the state comes back beside the error too.
use mathlib.Core.Path.{◌≡◌, subst}
use vmcp_operator.Base.Results.{Error, Result, ok, err}

abbrev pub Exec {ℓ κ} : Type ℓ → Type κ → Type (ℓ ⊔ κ)
Exec S A = S → Result A × S

module _ {ℓ κ} {S : Type ℓ} {A : Type κ} where
  abbrev pub pure : A → Exec S A
  pure a s = (ok a, s)

  abbrev pub raise : Error → Exec S A
  raise e s = (err e, s)

  -- A call that does not touch the state.
  abbrev pub lift : Result A → Exec S A
  lift r s = (r, s)

  abbrev pub gets : (S → A) → Exec S A
  gets f s = (ok (f s), s)

  -- A call of a method that does not raise.
  abbrev pub call : (S → A × S) → Exec S A
  call f s = (ok (f s).0, (f s).1)

module _ {ℓ κ μ} {S : Type ℓ} {A : Type κ} {B : Type μ} where
  abbrev pub continue : Result A → (A → Exec S B) → Exec S B
  continue (ok a) f s = f a s
  continue (err e) f s = (err e, s)

  infixl 5 ◌>>=◌ ◌>>◌
  abbrev pub ◌>>=◌ : Exec S A → (A → Exec S B) → Exec S B
  ◌>>=◌ m f s = continue (m s).0 f (m s).1

  abbrev pub ◌>>◌ : Exec S A → Exec S B → Exec S B
  m >> n = m >>= λ _. n

-- A predicate holds of the value and the state of a call that returns.
abbrev pub OnDone {ℓ κ μ} : {S : Type ℓ} {A : Type κ} → (A → S → Type μ) → Result A × S → Type μ
OnDone P (ok a, s) = P a s
OnDone P (err e, s) = Unit

module _ {ℓ κ μ ν ρ} {S : Type ℓ} {A : Type κ} {B : Type μ} where
  -- What holds after the first call and leads to the predicate leads to it after both.
  pub bind-OnDone :
      (Q : A → S → Type ν) (P : B → S → Type ρ) (r : Result A × S) (next : A → Exec S B)
      → OnDone Q r
      → ((a : A) (t : S) → Q a t → OnDone P (next a t))
      → OnDone P (continue r.0 next r.1)
  bind-OnDone Q P (ok a, t) next q h = h a t q
  bind-OnDone Q P (err e, t) next q h = tt

pub OnDone-ok {ℓ κ μ} :
    {S : Type ℓ} {A : Type κ} (P : A → S → Type μ) (r : Result A × S) (a : A) (t : S)
    → OnDone P r
    → r ≡ (ok a, t)
    → P a t
OnDone-ok P r a t h e = subst (OnDone P) e h

-- A call returns, with a value and a state that satisfy the predicate.
abbrev pub Returns {ℓ κ} : {S : Type ℓ} {A : Type κ} → (A → S → Type 0) → Result A × S → Type 0
Returns P (ok a, s) = P a s
Returns P (err e, s) = ⊥

module _ {ℓ κ μ} {S : Type ℓ} {A : Type κ} {B : Type μ} where
  -- If both calls return, so do they in a row.
  pub bind-Returns :
      (Q : A → S → Type 0) (P : B → S → Type 0) (r : Result A × S) (next : A → Exec S B)
      → Returns Q r
      → ((a : A) (t : S) → Q a t → Returns P (next a t))
      → Returns P (continue r.0 next r.1)
  bind-Returns Q P (ok a, t) next q h = h a t q
  bind-Returns Q P (err e, t) next q h = absurd q
