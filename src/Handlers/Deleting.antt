-- ===== src/Handlers/Deleting.antt =====
-- A gateway that is being deleted.
use vmcp_operator.Base.{
  ℕ, String, ◌<>◌, Bool, true, false, Option, some, List, [], ◌∷◌, ◌++◌, string_eq, ◌≡◌, refl,
  length, ltb, contains, if◌then◌else◌, show_ℕ, Result, ok,
}
use vmcp_operator.Base.Integer.{ℤ}
use vmcp_operator.Base.Exec.{Returns}
use vmcp_operator.Json.{str, Fields}
use vmcp_operator.Models.Gateway.{GatewayDesired}
use vmcp_operator.Models.Mcp.{McpServerDesired}
use vmcp_operator.Finalizers.{plan_gateway_finalizer, gateway_finalizer, no_change}
use vmcp_operator.Finalizers.Patch.{drop_finalizer, schedule_finalizer_removes}
use vmcp_operator.Handlers.Runtime.{OperatorRuntime, Operator, on_cluster}
use vmcp_operator.Status.{generation_of}
use vmcp_operator.Mapping.GatewaySpec.{map_gateway}
use vmcp_operator.Handlers.Events.{
  Event, gateway_violations, is_deleting, finalizers_of, owner_body, outcome, blocked_outcome,
}
use vmcp_operator.Handlers.Gateways.{
  decided_gateway, locked_gateway, mapped_gateway, checked_gateway, reconcile_gateway,
}
use vmcp_operator.Handlers.Waking.{phase_of, phase-set_status}

module _ {S : Type 0} where
  -- While children remain the object stays; without children its finalizer is taken away. The
  -- cluster is as it was.
  unfoldable pub IsReleased : Bool → Operator S → Operator S → Type 0
  IsReleased children s t =
      (t.cluster ≡ s.cluster)
      × (t.pending ≡ s.pending)
      × (t.fns ≡ (if children then s.fns else s.fns ++ drop_finalizer gateway_finalizer ∷ []))
      × (phase_of t ≡ some (str (if children then "Deleting" else "Finalized")))

module _ (runtime : OperatorRuntime) (scaled : String → ℕ → Result ℤ) (crd_skew : List String)
    (now : String) where
  decided_gateway-IsReleased :
      (generation : ℤ) (gateway : GatewayDesired) (mcps : List McpServerDesired)
      (owner : Option Fields) (finalizers : List String) (s : Operator runtime.apply.applier.State)
      → contains finalizers gateway_finalizer ≡ true
      → Returns
          (λ _ t. IsReleased (ltb 0 (length mcps)) s t)
          (decided_gateway runtime scaled crd_skew now generation gateway mcps owner true
            (plan_gateway_finalizer finalizers true (length mcps))
            s)
  unfolding decided_gateway plan_gateway_finalizer IsReleased schedule_finalizer_removes
  decided_gateway-IsReleased generation gateway mcps owner finalizers s h =
      rw h (go (ltb 0 (length mcps)))
    where
      go :
          (b : Bool)
          → Returns {A = Unit {0}}
              (λ _ t. IsReleased b s t)
              (decided_gateway runtime scaled crd_skew now generation gateway mcps owner true
                (if b
                  then record no_change {
                    block_delete = true;
                    reason = some (show_ℕ (length mcps) <> " child objects remain");
                  }
                  else record no_change {
                    remove = gateway_finalizer ∷ [];
                    reason = some "ready to finalize";
                  })
                s)
      go true = (
        refl,
        refl,
        refl,
        phase-set_status crd_skew now
            (blocked_outcome generation (some (show_ℕ (length mcps) <> " child objects remain"))) s,
      )
      go false = (
        refl,
        refl,
        refl,
        phase-set_status crd_skew now
            (outcome "Finalized" generation "ready to finalize" "finalizers removed" true)
            (record s { fns = s.fns ++ drop_finalizer gateway_finalizer ∷ [] }),
      )

  locked_gateway-IsReleased :
      (event : Event) (generation : ℤ) (gateway : GatewayDesired) (mcps : List McpServerDesired)
      (finalizers : List String) (owner : Option Fields) (s : Operator runtime.apply.applier.State)
      → is_deleting event ≡ true
      → contains finalizers gateway_finalizer ≡ true
      → runtime.list_mcps gateway.key s.cluster ≡ (ok mcps, s.cluster)
      → Returns
          (λ _ t. IsReleased (ltb 0 (length mcps)) s t)
          (locked_gateway runtime scaled crd_skew now event generation gateway finalizers owner s)
  unfolding locked_gateway on_cluster
  locked_gateway-IsReleased event generation gateway mcps finalizers owner s deleting h listed =
      rw (listed, deleting)
        (decided_gateway-IsReleased generation gateway mcps owner finalizers s h)

  -- An event on a gateway that is being deleted, with its finalizer in place and a spec that is
  -- accepted and changes no immutable field: the handler returns, nothing is applied to the
  -- cluster, and the finalizer is taken away exactly if no server of the gateway is left; the phase
  -- is "Deleting" or "Finalized" accordingly. The generation, the finalizers and the owner must be
  -- readable, and the listing must return and leave the cluster alone.
  pub reconcile_gateway-IsReleased :
      (event : Event) (generation : ℤ) (gateway : GatewayDesired) (mcps : List McpServerDesired)
      (finalizers : List String) (owner : Option Fields) (s : Operator runtime.apply.applier.State)
      → generation_of (some event.meta) event.body ≡ ok generation
      → gateway_violations scaled event ≡ ok []
      → map_gateway event.namespace event.name event.spec ≡ ok gateway
      → finalizers_of event ≡ ok finalizers
      → owner_body "VmcpGateway" event ≡ ok owner
      → is_deleting event ≡ true
      → contains finalizers gateway_finalizer ≡ true
      → runtime.list_mcps gateway.key s.cluster ≡ (ok mcps, s.cluster)
      → Returns
          (λ _ t. IsReleased (ltb 0 (length mcps)) s t)
          (reconcile_gateway runtime scaled crd_skew now event s)
  unfolding reconcile_gateway checked_gateway mapped_gateway
  reconcile_gateway-IsReleased event generation gateway mcps finalizers owner s g v m f o deleting h
        listed =
      rw (g, v, m, f, o)
        (locked_gateway-IsReleased event generation gateway mcps finalizers owner s deleting h
          listed)
