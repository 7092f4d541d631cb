-- ===== src/Handlers/Spared.antt =====
-- Which finalizers of a gateway object the transforms of `reconcile_gateway` spare.
use vmcp_operator.Base.{
  ℕ, String, Bool, true, false, ◌&&◌, ◌||◌, Option, some, List, [], ◌∷◌, length, ◌==◌, string_eq,
  ◌≡◌, contains, ltb, arith, if◌then◌else◌, Result-cases, Option-cases, suc, inl, inr, Result, ok,
  err,
}
use vmcp_operator.Base.Integer.{ℤ}
use vmcp_operator.Base.Exec.{continue, ◌>>◌}
use vmcp_operator.Json.{Fields}
use vmcp_operator.Models.Gateway.{GatewayDesired}
use vmcp_operator.Models.Mcp.{McpServerDesired}
use vmcp_operator.Status.{generation_of}
use vmcp_operator.Finalizers.{
  FinalizerDecision, plan_gateway_finalizer, gateway_finalizer, no_change,
}
use vmcp_operator.Finalizers.Patch.{
  Transform, drop_finalizer, ensure_finalizer, apply_fns_to_body, schedule_finalizer_adds,
  schedule_finalizer_removes, contains-drop_finalizer, contains-ensure_finalizer,
}
use vmcp_operator.Mapping.GatewaySpec.{map_gateway}
use vmcp_operator.Immutable.{ImmutableViolation}
use vmcp_operator.Reconcile.Passes as Passes
use vmcp_operator.Handlers.Runtime.{OperatorRuntime, Operator, gateway_reconcile, on_cluster}
use vmcp_operator.Handlers.Events.{
  Event, gateway_violations, is_deleting, finalizers_of, owner_body, caught, set_status,
  add_finalizers,
}
use vmcp_operator.Handlers.Gateways.{
  applied_gateway, decided_gateway, locked_gateway, mapped_gateway, checked_gateway,
  reconcile_gateway, applied_outcome,
}

-- A listing that returned and found no server.
abbrev is_empty_listing : Result (List McpServerDesired) → Bool
is_empty_listing (ok []) = true
is_empty_listing (ok (m ∷ ms)) = false
is_empty_listing (err e) = false

-- The transforms take none of the finalizers away, but for the gateway's own if the object is drained.
unfoldable pub Spares : List String → Bool → List Transform → Type 0
Spares finalizers drained fns =
    (a : String)
    → contains finalizers a ≡ true
    → (contains (apply_fns_to_body fns finalizers) a || (drained && a == gateway_finalizer)) ≡ true

none-Spares : (finalizers : List String) (drained : Bool) → Spares finalizers drained []
unfolding Spares apply_fns_to_body
none-Spares finalizers drained a h = ground arith

added-Spares :
    (finalizers : List String) (drained : Bool)
    → Spares finalizers drained (ensure_finalizer gateway_finalizer ∷ [])
unfolding Spares apply_fns_to_body
added-Spares finalizers drained a h =
    ground (arith, contains-ensure_finalizer gateway_finalizer a finalizers)

removed-Spares :
    (finalizers : List String) → Spares finalizers true (drop_finalizer gateway_finalizer ∷ [])
unfolding Spares apply_fns_to_body
removed-Spares finalizers a h =
    ground (arith, contains-drop_finalizer gateway_finalizer a finalizers)

one_or_more : (n : ℕ) → ltb 0 (suc n) ≡ true
one_or_more n = ground arith

-- The listing of the gateway's servers returns and is empty.
unfoldable pub is_drained :
    (runtime : OperatorRuntime) → runtime.apply.applier.State → Result GatewayDesired → Bool
is_drained runtime cluster (err e) = false
is_drained runtime cluster (ok gateway) = is_empty_listing (runtime.list_mcps gateway.key cluster).0

module _ (runtime : OperatorRuntime) (scaled : String → ℕ → Result ℤ) (crd_skew : List String)
    (now : String) where
  applied_gateway-fns :
      (P : List Transform → Type 0) (generation : ℤ) (gateway : GatewayDesired)
      (mcps : List McpServerDesired) (owner : Option Fields) (decision : FinalizerDecision)
      (s : Operator runtime.apply.applier.State)
      → P s.fns
      → P (schedule_finalizer_adds s.fns decision.add)
      → P
          (applied_gateway runtime scaled crd_skew now generation gateway mcps owner decision
            s).1.fns
  unfolding applied_gateway on_cluster
  applied_gateway-fns P generation gateway mcps owner decision s h k =
      go (Passes.reconcile_gateway (gateway_reconcile runtime) gateway mcps owner s.cluster).0
        (Passes.reconcile_gateway (gateway_reconcile runtime) gateway mcps owner s.cluster).1
    where
      go :
          (r : Result Passes.GatewayResult) (c : runtime.apply.applier.State)
          → P
              (continue {B = Unit {0}} r
                (λ result.
                  add_finalizers decision.add
                  >> set_status crd_skew now (applied_outcome generation result))
                (record s { cluster = c })).1.fns
      go (ok result) c = k
      go (err e) c = h

  decided_gateway-Spares :
      (generation : ℤ) (gateway : GatewayDesired) (mcps : List McpServerDesired)
      (owner : Option Fields) (deleting : Bool) (finalizers : List String)
      (s : Operator runtime.apply.applier.State)
      → s.fns ≡ []
      → Spares finalizers
          (deleting && is_empty_listing (ok mcps))
          (decided_gateway runtime scaled crd_skew now generation gateway mcps owner deleting
            (plan_gateway_finalizer finalizers deleting (if deleting then length mcps else 0))
            s).1.fns
  unfolding decided_gateway plan_gateway_finalizer schedule_finalizer_adds
      schedule_finalizer_removes
  decided_gateway-Spares generation gateway mcps owner false finalizers s e =
      go (contains finalizers gateway_finalizer)
    where
      go :
          (b : Bool)
          → Spares finalizers false
              (decided_gateway runtime scaled crd_skew now generation gateway mcps owner false
                (if b then no_change else record no_change { add = gateway_finalizer ∷ [] })
                s).1.fns
      go true =
          applied_gateway-fns (Spares finalizers false) generation gateway mcps owner no_change s
            (rw e (none-Spares finalizers false)) (rw e (none-Spares finalizers false))
      go false =
          applied_gateway-fns (Spares finalizers false) generation gateway mcps owner
            (record no_change { add = gateway_finalizer ∷ [] }) s
            (rw e (none-Spares finalizers false)) (rw e (added-Spares finalizers false))
  decided_gateway-Spares generation gateway (m ∷ ms) owner true finalizers s e =
      rw (one_or_more (length ms)) (rw e (none-Spares finalizers false))
  decided_gateway-Spares generation gateway [] owner true finalizers s e =
      go (contains finalizers gateway_finalizer)
    where
      go :
          (b : Bool)
          → Spares finalizers true
              (decided_gateway runtime scaled crd_skew now generation gateway [] owner true
                (if b
                  then record no_change {
                    remove = gateway_finalizer ∷ [];
                    reason = some "ready to finalize";
                  }
                  else no_change)
                s).1.fns
      go true = rw e (removed-Spares finalizers)
      go false =
          applied_gateway-fns (Spares finalizers true) generation gateway [] owner no_change s
            (rw e (none-Spares finalizers true)) (rw e (none-Spares finalizers true))

  locked_gateway-Spares :
      (event : Event) (generation : ℤ) (gateway : GatewayDesired) (finalizers : List String)
      (owner : Option Fields) (s : Operator runtime.apply.applier.State)
      → s.fns ≡ []
      → Spares finalizers
          (is_deleting event && is_drained runtime s.cluster (ok gateway))
          (locked_gateway runtime scaled crd_skew now event generation gateway finalizers owner
            s).1.fns
  unfolding locked_gateway on_cluster is_drained
  locked_gateway-Spares event generation gateway finalizers owner s e =
      go (runtime.list_mcps gateway.key s.cluster).0 (runtime.list_mcps gateway.key s.cluster).1
    where
      go :
          (r : Result (List McpServerDesired)) (c : runtime.apply.applier.State)
          → Spares finalizers
              (is_deleting event && is_empty_listing r)
              (continue {B = Unit {0}} r
                (λ mcps.
                  decided_gateway runtime scaled crd_skew now generation gateway mcps owner
                    (is_deleting event)
                    (plan_gateway_finalizer finalizers
                      (is_deleting event)
                      (if is_deleting event then length mcps else 0)))
                (record s { cluster = c })).1.fns
      go (ok mcps) c =
          decided_gateway-Spares generation gateway mcps owner (is_deleting event) finalizers
            (record s { cluster = c }) e
      go (err x) c = rw e (none-Spares finalizers _)

  mapped_gateway-Spares :
      (event : Event) (generation : ℤ) (mapped : Result GatewayDesired) (finalizers : List String)
      (s : Operator runtime.apply.applier.State)
      → s.fns ≡ []
      → finalizers_of event ≡ ok finalizers
      → Spares finalizers
          (is_deleting event && is_drained runtime s.cluster mapped)
          (mapped_gateway runtime scaled crd_skew now event generation mapped s).1.fns
  unfolding mapped_gateway set_status
  mapped_gateway-Spares event generation (err x) finalizers s e f = elim (Option-cases (caught x)) [
    | inl other ↦ rw (mapped_gateway, other, e) (none-Spares finalizers _)
    | inr (shown, same) ↦ rw (mapped_gateway, same, e) (none-Spares finalizers _)
  ]
  mapped_gateway-Spares event generation (ok gateway) finalizers s e f =
      elim (Result-cases (owner_body "VmcpGateway" event)) [
        | inl (owner, same) ↦
            rw (f, same) (locked_gateway-Spares event generation gateway finalizers owner s e)
        | inr (x, other) ↦ rw (f, other, e) (none-Spares finalizers _)
      ]

  checked_gateway-Spares :
      (event : Event) (generation : ℤ) (vs : List ImmutableViolation) (finalizers : List String)
      (s : Operator runtime.apply.applier.State)
      → s.fns ≡ []
      → finalizers_of event ≡ ok finalizers
      → Spares finalizers
          (is_deleting event
            && is_drained runtime s.cluster (map_gateway event.namespace event.name event.spec))
          (checked_gateway runtime scaled crd_skew now event generation vs s).1.fns
  unfolding checked_gateway set_status
  checked_gateway-Spares event generation (v ∷ vs) finalizers s e f =
      rw e (none-Spares finalizers _)
  checked_gateway-Spares event generation [] finalizers s e f =
      mapped_gateway-Spares event generation _ finalizers s e f

  -- What the handler leaves of an object's finalizers, whether it returns or raises: all, but for
  -- the operator's own if the object is being deleted and the gateway has no servers left.
  pub reconcile_gateway-Spares :
      (event : Event) (finalizers : List String) (s : Operator runtime.apply.applier.State)
      → s.fns ≡ []
      → finalizers_of event ≡ ok finalizers
      → Spares finalizers
          (is_deleting event
            && is_drained runtime s.cluster (map_gateway event.namespace event.name event.spec))
          (reconcile_gateway runtime scaled crd_skew now event s).1.fns
  unfolding reconcile_gateway
  reconcile_gateway-Spares event finalizers s e f =
      elim (Result-cases (generation_of (some event.meta) event.body)) [
        | inr (x, other) ↦ rw (other, e) (none-Spares finalizers _)
        | inl (generation, g) ↦ elim (Result-cases (gateway_violations scaled event)) [
          | inr (x, other) ↦ rw (g, other, e) (none-Spares finalizers _)
          | inl (vs, v) ↦ rw (g, v) (checked_gateway-Spares event generation vs finalizers s e f)
        ]
      ]
