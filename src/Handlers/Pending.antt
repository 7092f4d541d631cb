-- ===== src/Handlers/Pending.antt =====
-- A server that comes before its gateway.
use mathlib.Core.Path.{subst}
use vmcp_operator.Base.{
  String, Bool, true, false, Option, none, some, List, [], ◌∷◌, ◌++◌, string_eq, ◌≡◌, refl, sym,
  contains, if◌then◌else◌, ok,
}
use vmcp_operator.Base.Integer.{ℤ}
use vmcp_operator.Base.Exec.{Exec, ◌>>◌, Returns, bind-Returns}
use vmcp_operator.Json.{str, Fields}
use vmcp_operator.Models.Gateway.{GatewayKey}
use vmcp_operator.Models.Mcp.{McpServerDesired}
use vmcp_operator.Finalizers.{FinalizerDecision, plan_mcp_finalizer, mcp_finalizer, no_change}
use vmcp_operator.Finalizers.Patch.{Transform, schedule_finalizer_adds, ensure_finalizer}
use vmcp_operator.Handlers.Runtime.{
  OperatorRuntime, Operator, on_cluster, enqueue, touch_with, touch_gateway,
}
use vmcp_operator.Status.{generation_of}
use vmcp_operator.Mapping.McpSpec.{map_mcp}
use vmcp_operator.Handlers.Events.{
  Event, mcp_violations, is_deleting, finalizers_of, owner_body, set_status, add_finalizers,
}
use vmcp_operator.Handlers.Servers.{
  unregistered, pending_mcp, pending_adds, pending_outcome, with_gateway, decided_mcp, locked_mcp,
  mapped_mcp, checked_mcp, reconcile_mcp,
}
use vmcp_operator.Handlers.Waking.{phase_of, Waits, phase-set_status, enqueue-Waits}

-- A toucher that returns; the source's passes over a gateway that is missing.
unfoldable pub TouchReturns {ℓ} : {S : Type ℓ} → Option (GatewayKey → Exec S (Unit {0})) → Type ℓ
TouchReturns {S = S} none = Unit
TouchReturns {S = S} (some touch) = (key : GatewayKey) (c : S) → (touch key c).0 ≡ ok tt

module _ {S : Type 0} where
  -- The gateway waits, and the transforms are those given.
  abbrev Kept : GatewayKey → List Transform → Operator S → Type 0
  Kept key fns t = Waits key t × (t.fns ≡ fns)

  touch_with-Kept :
      (touch : Option (GatewayKey → Exec S (Unit {0}))) (key : GatewayKey) (s : Operator S)
      → TouchReturns touch
      → Waits key s
      → Returns (λ _ t. Kept key s.fns t) (touch_with touch key s)
  unfolding touch_with on_cluster TouchReturns
  touch_with-Kept none key s h w = (w, refl)
  touch_with-Kept (some touch) key s h w =
      subst
        (λ r. Returns (λ _ t. Kept key s.fns t) (r, record s { cluster = (touch key s.cluster).1 }))
        (sym (h key s.cluster)) (w, refl)

module _ (runtime : OperatorRuntime) (crd_skew : List String) (now : String) where
  touch_gateway-Kept :
      (key : GatewayKey) (s : Operator runtime.apply.applier.State)
      → TouchReturns runtime.gateway_toucher
      → Returns (λ _ t. Kept key s.fns t) (touch_gateway runtime key s)
  unfolding touch_gateway enqueue
  touch_gateway-Kept key s h =
      bind-Returns (λ _ t. Kept key s.fns t) (λ _ t. Kept key s.fns t) (enqueue key s)
        (λ _. touch_with runtime.gateway_toucher key) (enqueue-Waits key s, refl)
        (λ done t (w, e).
          subst (λ fns. Returns (λ _ u. Kept key fns u) (touch_with runtime.gateway_toucher key t))
            e (touch_with-Kept runtime.gateway_toucher key t h w))

  -- How a server waits for its gateway: the gateway will have a pass, the phase says so, and the
  -- finalizer is the only transform.
  unfoldable pub IsPending :
      McpServerDesired → List Transform → Operator runtime.apply.applier.State → Type 0
  IsPending mcp fns t =
      Waits mcp.gateway_key t
      × (phase_of t ≡ some (str "PendingGateway"))
      × (t.fns ≡ fns ++ ensure_finalizer mcp_finalizer ∷ [])

  pending_mcp-IsPending :
      (generation : ℤ) (mcp : McpServerDesired) (decision : FinalizerDecision)
      (s : Operator runtime.apply.applier.State)
      → TouchReturns runtime.gateway_toucher
      → pending_adds decision.add ≡ mcp_finalizer ∷ []
      → Returns
          (λ _ t. IsPending mcp s.fns t)
          (pending_mcp runtime crd_skew now generation mcp decision s)
  unfolding pending_mcp add_finalizers set_status IsPending schedule_finalizer_adds
  pending_mcp-IsPending generation mcp decision s h e =
      bind-Returns (λ _ t. Kept mcp.gateway_key (s.fns ++ ensure_finalizer mcp_finalizer ∷ []) t)
        (λ _ t. IsPending mcp s.fns t)
        ((add_finalizers (pending_adds decision.add) >> touch_gateway runtime mcp.gateway_key) s)
        (λ _. set_status crd_skew now (pending_outcome generation mcp))
        (rw e (
          touch_gateway-Kept mcp.gateway_key
            (record s { fns = s.fns ++ ensure_finalizer mcp_finalizer ∷ [] }) h))
        (λ done t (w, f). (w, phase-set_status crd_skew now (pending_outcome generation mcp) t, f))

  pending_adds-plan :
      (finalizers : List String)
      → pending_adds (plan_mcp_finalizer finalizers false false).add ≡ mcp_finalizer ∷ []
  unfolding plan_mcp_finalizer
  pending_adds-plan finalizers = go (contains finalizers mcp_finalizer)
    where
      go :
          (b : Bool)
          → pending_adds
              (if b then no_change else record no_change { add = mcp_finalizer ∷ [] }).add
            ≡ mcp_finalizer ∷ []
      go true = refl
      go false = refl

  unblocked :
      (finalizers : List String) → (plan_mcp_finalizer finalizers false false).block_delete ≡ false
  unfolding plan_mcp_finalizer
  unblocked finalizers = go (contains finalizers mcp_finalizer)
    where
      go :
          (b : Bool)
          → (if b then no_change else record no_change { add = mcp_finalizer ∷ [] }).block_delete
            ≡ false
      go true = refl
      go false = refl

  not_deleting-IsPending :
      (generation : ℤ) (mcp : McpServerDesired) (owner : Option Fields) (finalizers : List String)
      (s : Operator runtime.apply.applier.State)
      → TouchReturns runtime.gateway_toucher
      → Returns
          (λ _ t. IsPending mcp s.fns t)
          (decided_mcp runtime crd_skew now generation mcp none owner false
            (plan_mcp_finalizer finalizers false false)
            s)
  unfolding decided_mcp with_gateway
  not_deleting-IsPending generation mcp owner finalizers s h = rw (unblocked finalizers) (
      pending_mcp-IsPending generation mcp (plan_mcp_finalizer finalizers false false) s h
        (pending_adds-plan finalizers))

  locked_mcp-IsPending :
      (event : Event) (generation : ℤ) (mcp : McpServerDesired) (finalizers : List String)
      (owner : Option Fields) (s : Operator runtime.apply.applier.State)
      → TouchReturns runtime.gateway_toucher
      → is_deleting event ≡ false
      → (runtime.get_gateway mcp.gateway_key s.cluster).0 ≡ ok none
      → Returns
          (λ _ t. IsPending mcp s.fns t)
          (locked_mcp runtime crd_skew now event generation mcp finalizers owner s)
  unfolding locked_mcp on_cluster unregistered
  locked_mcp-IsPending event generation mcp finalizers owner s h alive missing =
      rw (missing, alive) (not_deleting-IsPending generation mcp owner finalizers _ h)

  -- An event on a server that is not being deleted, whose spec is accepted and changes no immutable
  -- field, and whose gateway is not there: the handler returns, the phase is "PendingGateway", the
  -- gateway's key waits for a pass, and the one transform added to the patch is the server's
  -- finalizer. The generation, the finalizers and the owner must be readable, and the toucher must
  -- return.
  pub reconcile_mcp-IsPending :
      (event : Event) (generation : ℤ) (mcp : McpServerDesired) (finalizers : List String)
      (owner : Option Fields) (s : Operator runtime.apply.applier.State)
      → generation_of (some event.meta) event.body ≡ ok generation
      → mcp_violations event ≡ ok []
      → map_mcp event.namespace event.name event.spec ≡ ok mcp
      → finalizers_of event ≡ ok finalizers
      → owner_body "VmcpMcpServer" event ≡ ok owner
      → TouchReturns runtime.gateway_toucher
      → is_deleting event ≡ false
      → (runtime.get_gateway mcp.gateway_key s.cluster).0 ≡ ok none
      → Returns (λ _ t. IsPending mcp s.fns t) (reconcile_mcp runtime crd_skew now event s)
  unfolding reconcile_mcp checked_mcp mapped_mcp
  reconcile_mcp-IsPending event generation mcp finalizers owner s g v m f o h alive missing =
      rw (g, v, m, f, o)
        (locked_mcp-IsPending event generation mcp finalizers owner s h alive missing)
