-- ===== src/Gateway/Filters/Single.antt =====
-- What holds of a rule's filters, whatever filters the route brings.
use mathlib.Core.Path.{subst}
use mathlib.Core.List.{append-nil, append_assoc}
use vmcp_operator.Base.{
  ◌≤◌, String, Bool, true, false, not, Option, none, some, List, [], ◌∷◌, ◌++◌, string_eq, ok,
  ◌>>=◌, ◌≡◌, refl, sym, ap, ◌∙◌, arith, length, select, Bool-cases, inl, inr, >>=-eq-ok,
  ok-injective,
}
use vmcp_operator.Json.{Fields, get}
use vmcp_operator.Models.Gateway.{GatewayDesired, RouteDesired}
use vmcp_operator.Gateway.Filters.{
  merge_request_header_modifier, is_header_modifier, dict_or_empty, Collected, absorb, collect,
  prepend, route_filters,
}

-- How many of the filters modify request headers.
abbrev pub modifiers : List Fields → List Fields
modifiers = select is_header_modifier

-- The filters that do not.
abbrev pub others : List Fields → List Fields
others = select (λ f. not (is_header_modifier f))

others-append : (xs ys : List Fields) → others (xs ++ ys) ≡ others xs ++ others ys
others-append [] ys = refl
others-append (x ∷ xs) ys = elim (Bool-cases (is_header_modifier x)) [
  | inl e ↦ rw e (others-append xs ys)
  | inr e ↦ rw e (ap (λ zs. x ∷ zs) (others-append xs ys))
]

others-others : (xs : List Fields) → others (others xs) ≡ others xs
others-others [] = refl
others-others (x ∷ xs) = elim (Bool-cases (is_header_modifier x)) [
  | inl e ↦ rw e (others-others xs)
  | inr e ↦ rw e (rw e (ap (λ zs. x ∷ zs) (others-others xs)))
]

modifiers-others : (xs : List Fields) → modifiers (others xs) ≡ []
modifiers-others [] = refl
modifiers-others (x ∷ xs) = elim (Bool-cases (is_header_modifier x)) [
  | inl e ↦ rw e (modifiers-others xs)
  | inr e ↦ rw e (rw e (modifiers-others xs))
]

absorb-extra_filters :
    (rhm : Fields) (c d : Collected) → absorb rhm c ≡ ok d → d.extra_filters ≡ c.extra_filters
unfolding absorb
absorb-extra_filters rhm c d h = ground arith

collect-cons_modifier :
    (x : Fields) (xs : List Fields) (c : Collected)
    → is_header_modifier x ≡ true
    → collect (x ∷ xs) c
      ≡ (absorb (dict_or_empty (get x "requestHeaderModifier")) c >>= λ c'. collect xs c')
unfolding collect
collect-cons_modifier x xs c e = rw (e, collect)

collect-cons_other :
    (x : Fields) (xs : List Fields) (c : Collected)
    → is_header_modifier x ≡ false
    → collect (x ∷ xs) c ≡ collect xs (record c { extra_filters = c.extra_filters ++ x ∷ [] })
unfolding collect
collect-cons_other x xs c e = rw (e, collect)

-- The loop keeps the filters that are no header modifiers, in their order.
collect-extra_filters :
    (extras : List Fields) (c d : Collected)
    → collect extras c ≡ ok d
    → d.extra_filters ≡ c.extra_filters ++ others extras
collect-extra_filters [] c d h =
    unfold collect in
    rw (append-nil, ← ap (λ (x : Collected). x.extra_filters) (ok-injective c d h))
collect-extra_filters (x ∷ xs) c d h = elim (Bool-cases (is_header_modifier x)) [
  | inl e ↦
      let rhm = dict_or_empty (get x "requestHeaderModifier") in
      let (c', p, q) = >>=-eq-ok (absorb rhm c) _ (sym (collect-cons_modifier x xs c e) ∙ h) in
      rw e (
        collect-extra_filters xs c' d q
        ∙ ap (λ zs. zs ++ others xs) (absorb-extra_filters rhm c c' p))
  | inr e ↦ rw e (
      collect-extra_filters xs _ d (sym (collect-cons_other x xs c e) ∙ h)
      ∙ append_assoc c.extra_filters (x ∷ []) (others xs))
]

merged_is_modifier :
    (remove : List String) (sets adds : List Fields) (m : Fields)
    → merge_request_header_modifier remove sets adds ≡ some m
    → is_header_modifier m ≡ true
unfolding merge_request_header_modifier is_header_modifier
merged_is_modifier remove sets adds m h = ground arith

prepend_single :
    (o : Option Fields) (fs extras : List Fields)
    → ((m : Fields) → o ≡ some m → is_header_modifier m ≡ true)
    → fs ≡ others extras
    → (length (modifiers (prepend o fs)) ≤ 1) × (others (prepend o fs) ≡ others extras)
unfolding prepend
prepend_single none fs extras k e =
    rw e (rw (modifiers-others extras) (omega arith), others-others extras)
prepend_single (some m) fs extras k e =
    rw (e, k m refl) (rw (modifiers-others extras) (omega arith), others-others extras)

-- A rule's filters hold at most one header modifier, as the Gateway API asks, and all the other
-- filters of the route, in their order.
pub route_filters_single :
    (g : GatewayDesired) (route : RouteDesired) (value : Option String) (inject : Bool)
    (fs : List Fields)
    → route_filters g route value inject ≡ ok fs
    → (length (modifiers fs) ≤ 1) × (others fs ≡ others route.extra_filters)
unfolding route_filters
route_filters_single g route value inject fs h =
    let (c, p, q) = >>=-eq-ok (collect route.extra_filters _) _ h in
    subst
      (λ (zs : List Fields). (length (modifiers zs) ≤ 1) × (others zs ≡ others route.extra_filters))
      (ok-injective _ fs q)
      (prepend_single (merge_request_header_modifier c.remove c.set_headers c.add_headers)
        c.extra_filters route.extra_filters
        (merged_is_modifier c.remove c.set_headers c.add_headers)
        (collect-extra_filters route.extra_filters _ c p))
