-- ===== src/Base/Sorting.antt =====
-- `sorted(xs, key=...)` with a key of type `str`: stable, by code points.
use Prim.Native.Nat.{Ordering}
use Prim.Native.String.{String, compare}
use mathlib.Core.Path.{◌≡◌, refl}
use mathlib.Core.Bool.{Bool, true, false, ◌||◌}
use mathlib.Core.List.{List, [], ◌∷◌, map}
use mathlib.Core.Logic.{inl, inr}
use native.Mathlib.Omega.{arith}
use vmcp_operator.Base.Equality.{◌==◌, string_eq, if◌then◌else◌, Bool-cases}
use vmcp_operator.Base.Lists.{All, any, contains}

abbrev pub str_le : String → String → Bool
str_le s t = elim (compare s t) [ Ordering.gt ↦ false | _ ↦ true ]

module _ {ℓ} {A : Type ℓ} (key : A → String) where
  insert_by : A → List A → List A
  insert_by x [] = x ∷ []
  insert_by x (y ∷ ys) =
      let rest = insert_by x ys in if str_le (key x) (key y) then x ∷ y ∷ ys else y ∷ rest

  unfoldable pub sort_by : List A → List A
  unfolding insert_by
  sort_by [] = []
  sort_by (x ∷ xs) = insert_by x (sort_by xs)

  insert_by-All {κ} :
      (P : A → Type κ) (x : A) (xs : List A) → P x → All P xs → All P (insert_by x xs)
  unfolding insert_by
  insert_by-All P x [] hx h = (hx, tt)
  insert_by-All P x (y ∷ ys) hx h = elim (Bool-cases (str_le (key x) (key y))) [
    | inl e ↦ rw e (hx, h)
    | inr e ↦ rw e (h.0, insert_by-All P x ys hx h.1)
  ]

  pub sort_by-All {κ} : (P : A → Type κ) (xs : List A) → All P xs → All P (sort_by xs)
  unfolding sort_by
  sort_by-All P [] h = h
  sort_by-All P (x ∷ xs) h = insert_by-All P x (sort_by xs) h.0 (sort_by-All P xs h.1)

  any-insert_by : (p : A → Bool) (x : A) (xs : List A) → any p (insert_by x xs) ≡ (p x || any p xs)
  unfolding insert_by
  any-insert_by p x [] = refl
  any-insert_by p x (y ∷ ys) = ground (arith, any-insert_by p x ys)

  -- Sorting neither adds nor loses an element that passes a test.
  pub any-sort_by : (p : A → Bool) (xs : List A) → any p (sort_by xs) ≡ any p xs
  unfolding sort_by
  any-sort_by p [] = refl
  any-sort_by p (x ∷ xs) = ground (arith, any-insert_by p x (sort_by xs), any-sort_by p xs)

  contains-map-insert_by :
      (x : A) (xs : List A) (a : String)
      → contains (map key (insert_by x xs)) a ≡ (a == key x || contains (map key xs) a)
  unfolding insert_by
  contains-map-insert_by x [] a = refl
  contains-map-insert_by x (y ∷ ys) a = ground (arith, contains-map-insert_by x ys a)

  -- Sorting by a key neither adds nor loses a key.
  pub contains-sort_by :
      (xs : List A) (a : String) → contains (map key (sort_by xs)) a ≡ contains (map key xs) a
  unfolding sort_by
  contains-sort_by [] a = refl
  contains-sort_by (x ∷ xs) a =
      ground (arith, contains-map-insert_by x (sort_by xs) a, contains-sort_by xs a)

-- `sorted(xs)` on texts
unfoldable pub sort : List String → List String
unfolding sort_by
sort = sort_by (λ s. s)

contains-insert_by :
    (a x : String) (xs : List String)
    → contains (insert_by (λ s. s) x xs) a ≡ (a == x || contains xs a)
unfolding insert_by
contains-insert_by a x [] = refl
contains-insert_by a x (y ∷ ys) = ground (arith, contains-insert_by a x ys)

-- Sorting neither adds nor loses an element.
pub contains-sort : (xs : List String) (a : String) → contains (sort xs) a ≡ contains xs a
unfolding sort
contains-sort [] a = refl
contains-sort (x ∷ xs) a = ground (arith, contains-insert_by a x (sort xs), contains-sort xs a)
