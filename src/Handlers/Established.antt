-- ===== src/Handlers/Established.antt =====
-- A gateway gets its finalizer from the first pass of `reconcile_gateway` that is not refused.
use vmcp_operator.Base.{
  ℕ, String, Bool, true, false, Option, some, List, [], ◌∷◌, string_eq, ◌≡◌, refl, contains, arith,
  if◌then◌else◌, Result-cases, inl, inr, Result, ok, err,
}
use vmcp_operator.Base.Integer.{ℤ}
use vmcp_operator.Base.Exec.{continue, ◌>>◌, OnDone}
use vmcp_operator.Json.{Fields}
use vmcp_operator.Models.Gateway.{GatewayDesired}
use vmcp_operator.Models.Mcp.{McpServerDesired}
use vmcp_operator.Status.{generation_of}
use vmcp_operator.Finalizers.{
  FinalizerDecision, plan_gateway_finalizer, gateway_finalizer, no_change,
}
use vmcp_operator.Finalizers.Patch.{
  apply_fns_to_body, schedule_finalizer_adds, contains-ensure_finalizer,
}
use vmcp_operator.Mapping.GatewaySpec.{map_gateway}
use vmcp_operator.Reconcile.Passes as Passes
use vmcp_operator.Handlers.Runtime.{OperatorRuntime, Operator, gateway_reconcile, on_cluster}
use vmcp_operator.Handlers.Events.{
  Event, gateway_violations, is_deleting, finalizers_of, owner_body, set_status, add_finalizers,
}
use vmcp_operator.Handlers.Gateways.{
  applied_gateway, decided_gateway, locked_gateway, mapped_gateway, checked_gateway,
  reconcile_gateway, applied_outcome,
}

-- The object will have the operator's finalizer, once the transforms of the patch are applied.
unfoldable pub WillHold : {S : Type 0} → List String → Operator S → Type 0
WillHold finalizers t = contains (apply_fns_to_body t.fns finalizers) gateway_finalizer ≡ true

module _ (runtime : OperatorRuntime) (scaled : String → ℕ → Result ℤ) (crd_skew : List String)
    (now : String) where
  applied_gateway-WillHold :
      (finalizers : List String) (generation : ℤ) (gateway : GatewayDesired)
      (mcps : List McpServerDesired) (owner : Option Fields) (decision : FinalizerDecision)
      (s : Operator runtime.apply.applier.State)
      → contains
          (apply_fns_to_body (schedule_finalizer_adds s.fns decision.add) finalizers)
          gateway_finalizer
        ≡ true
      → OnDone
          (λ _ t. WillHold finalizers t)
          (applied_gateway runtime scaled crd_skew now generation gateway mcps owner decision s)
  unfolding applied_gateway on_cluster WillHold
  applied_gateway-WillHold finalizers generation gateway mcps owner decision s h =
      go (Passes.reconcile_gateway (gateway_reconcile runtime) gateway mcps owner s.cluster).0
        (Passes.reconcile_gateway (gateway_reconcile runtime) gateway mcps owner s.cluster).1
    where
      go :
          (r : Result Passes.GatewayResult) (c : runtime.apply.applier.State)
          → OnDone
              (λ _ t. WillHold finalizers t)
              (continue {B = Unit {0}} r
                (λ result.
                  add_finalizers decision.add
                  >> set_status crd_skew now (applied_outcome generation result))
                (record s { cluster = c }))
      go (ok result) c = h
      go (err e) c = tt

  decided_gateway-WillHold :
      (finalizers : List String) (generation : ℤ) (gateway : GatewayDesired)
      (mcps : List McpServerDesired) (owner : Option Fields)
      (s : Operator runtime.apply.applier.State)
      → s.fns ≡ []
      → OnDone
          (λ _ t. WillHold finalizers t)
          (decided_gateway runtime scaled crd_skew now generation gateway mcps owner false
            (plan_gateway_finalizer finalizers false 0)
            s)
  unfolding decided_gateway plan_gateway_finalizer schedule_finalizer_adds apply_fns_to_body
  decided_gateway-WillHold finalizers generation gateway mcps owner s e =
      go (contains finalizers gateway_finalizer) refl
    where
      go :
          (b : Bool)
          → contains finalizers gateway_finalizer ≡ b
          → OnDone
              (λ _ t. WillHold finalizers t)
              (decided_gateway runtime scaled crd_skew now generation gateway mcps owner false
                (if b then no_change else record no_change { add = gateway_finalizer ∷ [] })
                s)
      go true held =
          applied_gateway-WillHold finalizers generation gateway mcps owner no_change s
            (rw (e, held) refl)
      go false bare =
          applied_gateway-WillHold finalizers generation gateway mcps owner
            (record no_change { add = gateway_finalizer ∷ [] }) s
            (rw e (
              ground
                (arith, contains-ensure_finalizer gateway_finalizer gateway_finalizer finalizers)))

  locked_gateway-WillHold :
      (event : Event) (generation : ℤ) (gateway : GatewayDesired) (finalizers : List String)
      (owner : Option Fields) (s : Operator runtime.apply.applier.State)
      → s.fns ≡ []
      → is_deleting event ≡ false
      → OnDone
          (λ _ t. WillHold finalizers t)
          (locked_gateway runtime scaled crd_skew now event generation gateway finalizers owner s)
  unfolding locked_gateway on_cluster
  locked_gateway-WillHold event generation gateway finalizers owner s e alive =
      rw alive
        (go (runtime.list_mcps gateway.key s.cluster).0 (runtime.list_mcps gateway.key s.cluster).1)
    where
      go :
          (r : Result (List McpServerDesired)) (c : runtime.apply.applier.State)
          → OnDone
              (λ _ t. WillHold finalizers t)
              (continue {B = Unit {0}} r
                (λ mcps.
                  decided_gateway runtime scaled crd_skew now generation gateway mcps owner false
                    (plan_gateway_finalizer finalizers false 0))
                (record s { cluster = c }))
      go (ok mcps) c =
          decided_gateway-WillHold finalizers generation gateway mcps owner
            (record s { cluster = c }) e
      go (err x) c = tt

  -- An event on a gateway that is not being deleted, whose spec is accepted and changes no
  -- immutable field: where the handler returns, the object has the operator's finalizer once the
  -- transforms are applied, whether it had it before or not. The finalizers must be readable, and
  -- the patch comes without transforms.
  pub reconcile_gateway-WillHold :
      (event : Event) (gateway : GatewayDesired) (finalizers : List String)
      (s : Operator runtime.apply.applier.State)
      → gateway_violations scaled event ≡ ok []
      → map_gateway event.namespace event.name event.spec ≡ ok gateway
      → finalizers_of event ≡ ok finalizers
      → is_deleting event ≡ false
      → s.fns ≡ []
      → OnDone
          (λ _ t. WillHold finalizers t)
          (reconcile_gateway runtime scaled crd_skew now event s)
  unfolding reconcile_gateway checked_gateway mapped_gateway
  reconcile_gateway-WillHold event gateway finalizers s v m f alive e =
      elim (Result-cases (generation_of (some event.meta) event.body)) [
        | inr (x, other) ↦ rw other tt
        | inl (generation, g) ↦ elim (Result-cases (owner_body "VmcpGateway" event)) [
          | inr (x, other) ↦ rw (g, v, m, f, other) tt
          | inl (owner, o) ↦
              rw (g, v, m, f, o)
                (locked_gateway-WillHold event generation gateway finalizers owner s e alive)
        ]
      ]
