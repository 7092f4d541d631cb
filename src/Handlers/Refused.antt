-- ===== src/Handlers/Refused.antt =====
-- What a handler does with a spec that it refuses.
use vmcp_operator.Base.{
  String, some, List, [], ◌∷◌, ◌≡◌, refl, ap, ◌∙◌, Error, key_error, type_error, value_error,
  attribute_error, assertion_error, lookup_error, mcp_conflict_error, mcp_not_found_error,
  conflict_error, file_exists_error, duplicate_token_error, Result, ok, err,
}
use vmcp_operator.Json.Access.{repr_str}
use vmcp_operator.Base.Integer.{ℤ}
use vmcp_operator.Base.Exec.{Returns}
use vmcp_operator.Json.{str}
use vmcp_operator.Models.Mcp.{McpServerDesired}
use vmcp_operator.Status.{Outcome, generation_of}
use vmcp_operator.Mapping.McpSpec.{map_mcp}
use vmcp_operator.Immutable.{ImmutableViolation}
use vmcp_operator.Handlers.Runtime.{OperatorRuntime, Operator}
use vmcp_operator.Handlers.Events.{
  Event, mcp_violations, caught, immutable_outcome, invalid_outcome, set_status,
}
use vmcp_operator.Handlers.Servers.{mapped_mcp, checked_mcp, reconcile_mcp}
use vmcp_operator.Handlers.Waking.{phase_of, phase-set_status}

-- A missing key, a value of the wrong type or a value that is not allowed.
abbrev pub IsSpecError : Error → Type 0
IsSpecError (key_error key) = Unit
IsSpecError (type_error text) = Unit
IsSpecError (value_error text) = Unit
IsSpecError _ = ⊥

-- The handler catches such an error.
caught-IsSpecError : (e : Error) → IsSpecError e → (x : String × String) × (caught e ≡ some x)
caught-IsSpecError (key_error key) h = (("KeyError", repr_str key), refl)
caught-IsSpecError (type_error text) h = (("TypeError", text), refl)
caught-IsSpecError (value_error text) h = (("ValueError", text), refl)
caught-IsSpecError (attribute_error _) h = elim h [ ]
caught-IsSpecError (assertion_error _) h = elim h [ ]
caught-IsSpecError (lookup_error _) h = elim h [ ]
caught-IsSpecError (mcp_conflict_error _) h = elim h [ ]
caught-IsSpecError (mcp_not_found_error _) h = elim h [ ]
caught-IsSpecError (conflict_error _) h = elim h [ ]
caught-IsSpecError (file_exists_error _) h = elim h [ ]
caught-IsSpecError (duplicate_token_error _) h = elim h [ ]

-- A spec that changes an immutable field, or that is mapped to no model since a key is missing or a
-- value is wrong.
unfoldable pub IsRefused {ℓ} : {A : Type ℓ} → List ImmutableViolation → Result A → Type 0
IsRefused (v ∷ vs) mapped = Unit
IsRefused [] (err e) = IsSpecError e
IsRefused [] (ok a) = ⊥

module _ {S : Type 0} where
  -- The phase is "Invalid", and nothing but the status has changed.
  unfoldable pub IsInvalid : Operator S → Operator S → Type 0
  IsInvalid s t =
      (phase_of t ≡ some (str "Invalid"))
      × (t.cluster ≡ s.cluster)
      × (t.pending ≡ s.pending)
      × (t.fns ≡ s.fns)

  set_status-IsInvalid :
      (crd_skew : List String) (now : String) (o : Outcome) (s : Operator S)
      → o.phase ≡ "Invalid"
      → Returns (λ _ t. IsInvalid s t) (set_status crd_skew now o s)
  unfolding set_status IsInvalid
  set_status-IsInvalid crd_skew now o s h =
      (phase-set_status crd_skew now o s ∙ ap (λ p. some (str p)) h, refl, refl, refl)

module _ (runtime : OperatorRuntime) (crd_skew : List String) (now : String) where
  checked_mcp-IsInvalid :
      (event : Event) (generation : ℤ) (vs : List ImmutableViolation)
      (s : Operator runtime.apply.applier.State)
      → IsRefused vs (map_mcp event.namespace event.name event.spec)
      → Returns (λ _ t. IsInvalid s t) (checked_mcp runtime crd_skew now event generation vs s)
  unfolding checked_mcp IsRefused
  checked_mcp-IsInvalid event generation (v ∷ vs) s h =
      set_status-IsInvalid crd_skew now (immutable_outcome generation v) s refl
  checked_mcp-IsInvalid event generation [] s h =
      mapped (map_mcp event.namespace event.name event.spec) h
    where
      mapped :
          (m : Result McpServerDesired)
          → IsRefused [] m
          → Returns {A = Unit {0}}
              (λ _ t. IsInvalid s t)
              (mapped_mcp runtime crd_skew now event generation m s)
      mapped (err e) h =
          let (x, k) = caught-IsSpecError e h in
          rw (mapped_mcp, k)
            (set_status-IsInvalid crd_skew now (invalid_outcome generation x) s refl)
      mapped (ok a) h = absurd h

  -- An event on a server whose spec is refused is handled without an exception: the phase becomes
  -- "Invalid", and the cluster, the waiting gateways and the transforms are as before. The spec is
  -- refused if it changes an immutable field, or if a key is missing or a value wrong in it
  -- (KeyError, TypeError, ValueError). The generation and the comparison with the old spec must be
  -- readable.
  pub reconcile_mcp-IsInvalid :
      (event : Event) (generation : ℤ) (vs : List ImmutableViolation)
      (s : Operator runtime.apply.applier.State)
      → generation_of (some event.meta) event.body ≡ ok generation
      → mcp_violations event ≡ ok vs
      → IsRefused vs (map_mcp event.namespace event.name event.spec)
      → Returns (λ _ t. IsInvalid s t) (reconcile_mcp runtime crd_skew now event s)
  unfolding reconcile_mcp
  reconcile_mcp-IsInvalid event generation vs s g v h =
      rw (g, v) (checked_mcp-IsInvalid event generation vs s h)
