-- ===== src/Immutable/Kept.antt =====
-- What an update without violations has kept.
use vmcp_operator.Base.{
  String, Bool, true, false, ◌||◌, Option, none, some, List, [], ◌∷◌, ◌++◌, ◌==◌, string_eq, ◌≡◌,
  refl, ap, ◌∙◌, ==-sound, ◌⊎◌, ◌↔◌, inl, inr, arith, if◌then◌else◌, Result, ok, ◌>>=◌, >>=-eq-ok,
  ok-injective, ℕ,
}
use vmcp_operator.Base.Integer.{ℤ}
use vmcp_operator.Json.{Value, null, str, Fields, get}
use vmcp_operator.Json.Equal.{equal}
use vmcp_operator.Gateway.Filters.{dict_or_empty}
use vmcp_operator.Immutable.{
  ImmutableViolation, present, changed_values, changed, less, size_bytes, shrunk,
  check_gateway_immutables, check_mcp_immutables,
}

abbrev pub is_null : Value → Bool
is_null null = true
is_null (Value.bool b) = false
is_null (Value.num n) = false
is_null (str t) = false
is_null (Value.arr vs) = false
is_null (Value.obj d) = false

-- Two values, where both are there and none is null, are equal.
abbrev pub Agree : Option Value → Option Value → Type 0
Agree (some v) (some w) = (is_null v || is_null w || equal v w) ≡ true
Agree _ _ = Unit

-- The two dicts agree on a key, unless one of them lacks it or has null there.
unfoldable pub SameAt : String → Fields → Fields → Type 0
SameAt key old new = Agree (get old key) (get new key)

present-some : (v : Value) → present (some v) ≡ (if is_null v then none else some v)
present-some null = refl
present-some (Value.bool b) = refl
present-some (Value.num n) = refl
present-some (str t) = refl
present-some (Value.arr vs) = refl
present-some (Value.obj d) = refl

changed_values_iff :
    (path : String) (v w : Option Value)
    → (changed_values path (present v) (present w) ≡ []) ↔ Agree v w
unfolding changed_values
changed_values_iff path none w = (λ _. tt, λ _. refl)
changed_values_iff path (some v) none =
    rw (present-some v, changed_values) ((λ _. tt, λ _. lone (is_null v)))
  where
    lone : (b : Bool) → changed_values path (if b then none else some v) none ≡ []
    lone true = refl
    lone false = refl
changed_values_iff path (some v) (some w) =
    rw (present-some v, present-some w) (go (is_null v) (is_null w) (equal v w) refl)
  where
    go :
        (a b c : Bool)
        → equal v w ≡ c
        → (changed_values path (if a then none else some v) (if b then none else some w) ≡ [])
          ↔ ((a || b || c) ≡ true)
    go true b c e = (λ _. refl, λ _. refl)
    go false true c e = (λ _. refl, λ _. refl)
    go false false true e = (λ _. refl, λ _. rw e refl)
    go false false false e = (λ h. absurd (ground arith), λ h. absurd cc)

changed_iff :
    (old new : Fields) (key path : String) → (changed old new key path ≡ []) ↔ SameAt key old new
unfolding SameAt
changed_iff old new key path = changed_values_iff path (get old key) (get new key)

module _ (scaled : String → ℕ → Result ℤ) where
  -- Both texts are sizes, and the second is not the smaller one.
  abbrev pub NotSmaller : String → String → Type 0
  NotSmaller a b =
      (m : ℤ) × (n : ℤ) × (size_bytes scaled a ≡ ok m)
      × (size_bytes scaled b ≡ ok n)
      × (less n m ≡ false)

  -- Two texts are the same or sizes of which the second is not the smaller one.
  unfoldable pub NotShrunk : Option Value → Option Value → Type 0
  NotShrunk (some (str a)) (some (str b)) = (a ≡ b) ⊎ NotSmaller a b
  NotShrunk _ _ = Unit

  sizes-NotShrunk :
      (a b : String) (v : ImmutableViolation)
      → (size_bytes scaled b >>= λ n.
          size_bytes scaled a >>= λ m. ok (if less n m then v ∷ [] else []))
        ≡ ok []
      → NotSmaller a b
  sizes-NotShrunk a b v h =
      let (n, e, h1) = >>=-eq-ok (size_bytes scaled b) (λ _. size_bytes scaled a >>= λ _. ok _) h in
      let (m, e2, h2) = >>=-eq-ok (size_bytes scaled a) (λ _. ok _) h1 in
      (m, n, e2, e, not_less (less n m) (ok-injective _ _ h2))
    where
      not_less : (b : Bool) → (if b then v ∷ [] else []) ≡ [] → b ≡ false
      not_less true h = cc
      not_less false h = refl

  shrunk-NotShrunk : (v w : Option Value) → shrunk scaled v w ≡ ok [] → NotShrunk v w
  unfolding NotShrunk shrunk
  shrunk-NotShrunk (some (str a)) (some (str b)) e = go _ (a == b) (==-sound a b) e
    where
      go :
          (v : ImmutableViolation) (same : Bool)
          → (same ≡ true → a ≡ b)
          → (if same
              then ok []
              else (size_bytes scaled b >>= λ n.
                  size_bytes scaled a >>= λ m. ok (if less n m then v ∷ [] else [])))
            ≡ ok []
          → (a ≡ b) ⊎ NotSmaller a b
      go v true f h = inl (f refl)
      go v false f h = inr (sizes-NotShrunk a b v h)
  shrunk-NotShrunk (some (str a)) none e = tt
  shrunk-NotShrunk (some (str a)) (some null) e = tt
  shrunk-NotShrunk (some (str a)) (some (Value.bool b)) e = tt
  shrunk-NotShrunk (some (str a)) (some (Value.num b)) e = tt
  shrunk-NotShrunk (some (str a)) (some (Value.arr b)) e = tt
  shrunk-NotShrunk (some (str a)) (some (Value.obj b)) e = tt
  shrunk-NotShrunk none w e = tt
  shrunk-NotShrunk (some null) w e = tt
  shrunk-NotShrunk (some (Value.bool b)) w e = tt
  shrunk-NotShrunk (some (Value.num b)) w e = tt
  shrunk-NotShrunk (some (Value.arr b)) w e = tt
  shrunk-NotShrunk (some (Value.obj b)) w e = tt

  not_shrunk : (v w : Option Value) → NotShrunk v w → shrunk scaled v w ≡ ok []
  unfolding NotShrunk shrunk
  not_shrunk (some (str a)) (some (str b)) (inl p) = ground arith
  not_shrunk (some (str a)) (some (str b)) (inr (m, n, old, new, l)) = ground (arith, old, new, l)
  not_shrunk (some (str a)) none e = refl
  not_shrunk (some (str a)) (some null) e = refl
  not_shrunk (some (str a)) (some (Value.bool b)) e = refl
  not_shrunk (some (str a)) (some (Value.num b)) e = refl
  not_shrunk (some (str a)) (some (Value.arr b)) e = refl
  not_shrunk (some (str a)) (some (Value.obj b)) e = refl
  not_shrunk none w e = refl
  not_shrunk (some null) w e = refl
  not_shrunk (some (Value.bool b)) w e = refl
  not_shrunk (some (Value.num b)) w e = refl
  not_shrunk (some (Value.arr b)) w e = refl
  not_shrunk (some (Value.obj b)) w e = refl

  append-nil : (xs ys : List ImmutableViolation) → xs ++ ys ≡ [] → (xs ≡ []) × (ys ≡ [])
  append-nil [] ys h = (refl, h)
  append-nil (x ∷ xs) ys h = absurd cc

  -- What of the volume an update may not change.
  unfoldable pub VolumeIsKept : Fields → Fields → Type 0
  VolumeIsKept old new =
      SameAt "storageClassName" old new
      × SameAt "reclaimPolicy" old new
      × NotShrunk (get old "size") (get new "size")

  -- An update of a gateway has no violations exactly if it keeps the storage class and the reclaim
  -- policy of the volume, each where both specs give it, and where both specs give the size as a
  -- text, the new text is the same, or both are sizes and the new one is not smaller. A field that
  -- one of the specs leaves out is not compared.
  pub check_gateway_immutables-VolumeIsKept :
      (old new : Fields)
      → (check_gateway_immutables scaled old new ≡ ok [])
        ↔ VolumeIsKept
            (dict_or_empty (get old "persistence"))
            (dict_or_empty (get new "persistence"))
  unfolding check_gateway_immutables VolumeIsKept
  check_gateway_immutables-VolumeIsKept old new = (there, back)
    where
      old_p : Fields
      old_p = dict_or_empty (get old "persistence")

      new_p : Fields
      new_p = dict_or_empty (get new "persistence")

      there :
          check_gateway_immutables scaled old new ≡ ok []
          → SameAt "storageClassName" old_p new_p
            × SameAt "reclaimPolicy" old_p new_p
            × NotShrunk (get old_p "size") (get new_p "size")
      there h =
          let (sizes, e, h1) =
            >>=-eq-ok (shrunk scaled (get old_p "size") (get new_p "size")) (λ _. ok _) h in
          let (none_class, rest) = append-nil _ _ (ok-injective _ _ h1) in
          let (none_policy, none_size) = append-nil _ _ rest in
          (
            (changed_iff old_p new_p "storageClassName" "persistence.storageClassName").0
                none_class,
            (changed_iff old_p new_p "reclaimPolicy" "persistence.reclaimPolicy").0 none_policy,
            shrunk-NotShrunk (get old_p "size") (get new_p "size") (e ∙ ap ok none_size),
          )

      back :
          SameAt "storageClassName" old_p new_p
            × SameAt "reclaimPolicy" old_p new_p
            × NotShrunk (get old_p "size") (get new_p "size")
          → check_gateway_immutables scaled old new ≡ ok []
      back (same_class, same_policy, size) =
          rw
            (
              not_shrunk (get old_p "size") (get new_p "size") size,
              (changed_iff old_p new_p "storageClassName" "persistence.storageClassName").1
                  same_class,
              (changed_iff old_p new_p "reclaimPolicy" "persistence.reclaimPolicy").1 same_policy,
            )
            refl

-- An update of a server has no violations exactly if it keeps the name of its gateway, where both
-- specs give it.
pub check_mcp_immutables-SameAt :
    (old new : Fields)
    → (check_mcp_immutables old new ≡ [])
      ↔ SameAt "name" (dict_or_empty (get old "gatewayRef")) (dict_or_empty (get new "gatewayRef"))
unfolding check_mcp_immutables
check_mcp_immutables-SameAt old new = changed_iff _ _ "name" "gatewayRef.name"
