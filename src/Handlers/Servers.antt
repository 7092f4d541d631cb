-- ===== src/Handlers/Servers.antt =====
-- `reconcile_mcp`
use vmcp_operator.Base.{
  String, ◌<>◌, Bool, true, false, ◌&&◌, Option, none, some, List, [], ◌∷◌, if◌then◌else◌, show_ℕ,
  Result, ok, err,
}
use vmcp_operator.Base.Integer.{ℤ}
use vmcp_operator.Base.Exec.{Exec, pure, raise, lift, ◌>>=◌, ◌>>◌}
use vmcp_operator.Json.{Fields}
use vmcp_operator.Models.Gateway.{GatewayDesired, GatewayKey, as_str}
use vmcp_operator.Models.Mcp.{McpServerDesired}
use vmcp_operator.Status.{Outcome, generation_of}
use vmcp_operator.Finalizers.{FinalizerDecision, plan_mcp_finalizer, mcp_finalizer}
use vmcp_operator.Mapping.McpSpec.{map_mcp}
use vmcp_operator.Immutable.{ImmutableViolation}
use vmcp_operator.Reconcile.Passes as Passes
use vmcp_operator.Reconcile.Passes.{McpResult}
use vmcp_operator.Handlers.Runtime.{
  OperatorRuntime, Operator, gateway_reconcile, mcp_reconcile, on_cluster, touch_gateway,
}
use vmcp_operator.Handlers.Events.{
  Event, mcp_violations, is_deleting, finalizers_of, owner_body, caught, outcome, immutable_outcome,
  invalid_outcome, blocked_outcome, set_status, add_finalizers, remove_finalizers, not_empty,
}

-- What `_status` writes after a pass, and for a server whose gateway is not there.
abbrev pub applied_outcome : ℤ → McpServerDesired → McpResult → Outcome
applied_outcome generation mcp result =
    outcome result.phase generation "Applied"
      ("gateway=" <> (as_str mcp.gateway_key <> (" objects=" <> show_ℕ result.objects))) true

abbrev pub pending_outcome : ℤ → McpServerDesired → Outcome
pending_outcome generation mcp =
    outcome "PendingGateway" generation "PendingGateway"
      ("gateway " <> (as_str mcp.gateway_key <> " not found")) false

-- `decision.add if decision.add else (MCP_FINALIZER,)`
abbrev pub pending_adds : List String → List String
pending_adds [] = mcp_finalizer ∷ []
pending_adds (name ∷ names) = name ∷ names

module _ (runtime : OperatorRuntime) (crd_skew : List String) (now : String) where
  abbrev Handler : Type 0
  Handler = Exec (Operator runtime.apply.applier.State) (Unit {0})

  -- `unregistered`: without a way to unregister, as in a dry run, the removal counts as done.
  unfoldable pub unregistered :
      Bool → GatewayKey → String → Exec (Operator runtime.apply.applier.State) Bool
  unfolding on_cluster
  unregistered deleting key name =
      if deleting
      then elim runtime.unregister_upstream [
        | some unregister ↦ on_cluster (unregister key name)
        | none ↦ pure true
      ]
      else pure false

  -- A server whose gateway is not there waits for it.
  unfoldable pub pending_mcp : ℤ → McpServerDesired → FinalizerDecision → Handler
  unfolding add_finalizers touch_gateway set_status
  pending_mcp generation mcp decision =
      add_finalizers (pending_adds decision.add)
      >> touch_gateway runtime mcp.gateway_key
      >> set_status crd_skew now (pending_outcome generation mcp)

  -- The passes over the server and over its gateway; the latter sets no owner.
  unfoldable pub applied_mcp :
      ℤ → McpServerDesired → GatewayDesired → Option Fields → FinalizerDecision → Handler
  unfolding on_cluster add_finalizers touch_gateway set_status
  applied_mcp generation mcp gateway owner decision = do
    result ← on_cluster (Passes.reconcile_mcp (mcp_reconcile runtime) gateway mcp owner)
    mcps ← on_cluster (runtime.list_mcps mcp.gateway_key)
    applied ← on_cluster (Passes.reconcile_gateway (gateway_reconcile runtime) gateway mcps none)
    added ← add_finalizers decision.add
    touched ← touch_gateway runtime mcp.gateway_key
    set_status crd_skew now (applied_outcome generation mcp result)

  unfoldable pub with_gateway :
      ℤ → McpServerDesired → Option GatewayDesired → Option Fields → FinalizerDecision → Handler
  unfolding pending_mcp applied_mcp
  with_gateway generation mcp none owner decision = pending_mcp generation mcp decision
  with_gateway generation mcp (some gateway) owner decision =
      applied_mcp generation mcp gateway owner decision

  -- What follows the decision on the finalizer.
  unfoldable pub decided_mcp :
      ℤ
      → McpServerDesired
      → Option GatewayDesired
      → Option Fields
      → Bool
      → FinalizerDecision
      → Handler
  unfolding with_gateway remove_finalizers touch_gateway set_status
  decided_mcp generation mcp gateway owner deleting decision =
      if decision.block_delete
      then set_status crd_skew now (blocked_outcome generation decision.reason)
      else if deleting && not_empty decision.remove
      then remove_finalizers decision.remove
        >> touch_gateway runtime mcp.gateway_key
        >> set_status crd_skew now
            (outcome "Finalized" generation "unregistered" "finalizers removed" true)
      else with_gateway generation mcp gateway owner decision

  -- What is done under the gateway's lock.
  unfoldable pub locked_mcp : Event → ℤ → McpServerDesired → List String → Option Fields → Handler
  unfolding decided_mcp on_cluster unregistered
  locked_mcp event generation mcp finalizers owner =
      on_cluster (runtime.get_gateway mcp.gateway_key) >>= λ gateway.
      unregistered (is_deleting event) mcp.gateway_key mcp.name >>= λ gone.
      decided_mcp generation mcp gateway owner (is_deleting event)
        (plan_mcp_finalizer finalizers (is_deleting event) gone)

  -- What follows `map_mcp`.
  unfoldable pub mapped_mcp : Event → ℤ → Result McpServerDesired → Handler
  unfolding locked_mcp set_status
  mapped_mcp event generation (err e) = elim (caught e) [
    | none ↦ raise e
    | some exception ↦ set_status crd_skew now (invalid_outcome generation exception)
  ]
  mapped_mcp event generation (ok mcp) = do
    finalizers ← lift (finalizers_of event)
    owner ← lift (owner_body "VmcpMcpServer" event)
    locked_mcp event generation mcp finalizers owner

  -- What follows the check of the immutable fields.
  unfoldable pub checked_mcp : Event → ℤ → List ImmutableViolation → Handler
  unfolding mapped_mcp set_status
  checked_mcp event generation (v ∷ vs) = set_status crd_skew now (immutable_outcome generation v)
  checked_mcp event generation [] =
      mapped_mcp event generation (map_mcp event.namespace event.name event.spec)

  -- `reconcile_mcp`
  unfoldable pub reconcile_mcp : Event → Handler
  unfolding checked_mcp
  reconcile_mcp event = do
    generation ← lift (generation_of (some event.meta) event.body)
    violations ← lift (mcp_violations event)
    checked_mcp event generation violations
