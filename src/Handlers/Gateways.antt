-- ===== src/Handlers/Gateways.antt =====
-- `reconcile_gateway`
use vmcp_operator.Base.{
  ℕ, String, ◌<>◌, Bool, true, false, ◌&&◌, Option, none, some, List, [], ◌∷◌, length,
  if◌then◌else◌, truthy, show_ℕ, Result, ok, err,
}
use vmcp_operator.Base.Integer.{ℤ}
use vmcp_operator.Base.Exec.{Exec, raise, lift, ◌>>=◌, ◌>>◌}
use vmcp_operator.Json.{str, Fields, fields}
use vmcp_operator.Models.Gateway.{GatewayDesired}
use vmcp_operator.Models.Mcp.{McpServerDesired}
use vmcp_operator.Status.{Outcome, generation_of}
use vmcp_operator.Finalizers.{FinalizerDecision, plan_gateway_finalizer}
use vmcp_operator.Mapping.GatewaySpec.{map_gateway}
use vmcp_operator.Immutable.{ImmutableViolation}
use vmcp_operator.Reconcile.Passes as Passes
use vmcp_operator.Reconcile.Passes.{GatewayResult}
use vmcp_operator.Handlers.Runtime.{OperatorRuntime, Operator, gateway_reconcile, on_cluster}
use vmcp_operator.Handlers.Events.{
  Event, gateway_violations, is_deleting, finalizers_of, owner_body, caught, outcome,
  immutable_outcome, invalid_outcome, blocked_outcome, set_status, add_finalizers,
  remove_finalizers, not_empty,
}

abbrev pub show_bool : Bool → String
show_bool true = "True"
show_bool false = "False"

-- `text or default`
abbrev pub text_or_default : String → String → String
text_or_default text default = if truthy text then text else default

-- What `_status` writes after a pass.
abbrev pub applied_outcome : ℤ → GatewayResult → Outcome
applied_outcome generation result =
    record (outcome result.phase generation "Applied"
      ("objects="
        <> (show_ℕ result.objects
            <> (" adminHopHeaderInjected="
                <> (show_bool result.admin_hop_header_injected
                    <> (" listenerPolicy=" <> result.listener_policy)))))
      true) {
        artifact_sha256 = if truthy result.bundle_sha256 then some result.bundle_sha256 else none;
        listener_policy = some (
            fields (
              ("phase", str (text_or_default result.listener_policy "Disabled"))
              ∷ ("message", str result.listener_policy_message)
              ∷ []));
      }

module _ (runtime : OperatorRuntime) (scaled : String → ℕ → Result ℤ) (crd_skew : List String)
    (now : String) where
  abbrev Handler : Type 0
  Handler = Exec (Operator runtime.apply.applier.State) (Unit {0})

  -- The pass itself, when the finalizer does not stand in its way.
  unfoldable pub applied_gateway :
      ℤ → GatewayDesired → List McpServerDesired → Option Fields → FinalizerDecision → Handler
  unfolding on_cluster add_finalizers set_status
  applied_gateway generation gateway mcps owner decision =
      on_cluster (Passes.reconcile_gateway (gateway_reconcile runtime) gateway mcps owner)
      >>= λ result.
          add_finalizers decision.add >> set_status crd_skew now (applied_outcome generation result)

  -- What follows the decision on the finalizer.
  unfoldable pub decided_gateway :
      ℤ
      → GatewayDesired
      → List McpServerDesired
      → Option Fields
      → Bool
      → FinalizerDecision
      → Handler
  unfolding applied_gateway remove_finalizers set_status
  decided_gateway generation gateway mcps owner deleting decision =
      if decision.block_delete
      then set_status crd_skew now (blocked_outcome generation decision.reason)
      else if deleting && not_empty decision.remove
      then remove_finalizers decision.remove
        >> set_status crd_skew now
            (outcome "Finalized" generation "ready to finalize" "finalizers removed" true)
      else applied_gateway generation gateway mcps owner decision

  -- What is done under the gateway's lock.
  unfoldable pub locked_gateway : Event → ℤ → GatewayDesired → List String → Option Fields → Handler
  unfolding decided_gateway on_cluster
  locked_gateway event generation gateway finalizers owner =
      on_cluster (runtime.list_mcps gateway.key) >>= λ mcps.
      decided_gateway generation gateway mcps owner (is_deleting event) (
        plan_gateway_finalizer finalizers (is_deleting event)
          (if is_deleting event then length mcps else 0))

  -- What follows `map_gateway`.
  unfoldable pub mapped_gateway : Event → ℤ → Result GatewayDesired → Handler
  unfolding locked_gateway set_status
  mapped_gateway event generation (err e) = elim (caught e) [
    | none ↦ raise e
    | some exception ↦ set_status crd_skew now (invalid_outcome generation exception)
  ]
  mapped_gateway event generation (ok gateway) = do
    finalizers ← lift (finalizers_of event)
    owner ← lift (owner_body "VmcpGateway" event)
    locked_gateway event generation gateway finalizers owner

  -- What follows the check of the immutable fields.
  unfoldable pub checked_gateway : Event → ℤ → List ImmutableViolation → Handler
  unfolding mapped_gateway set_status
  checked_gateway event generation (v ∷ vs) =
      set_status crd_skew now (immutable_outcome generation v)
  checked_gateway event generation [] =
      mapped_gateway event generation (map_gateway event.namespace event.name event.spec)

  -- `reconcile_gateway`
  unfoldable pub reconcile_gateway : Event → Handler
  unfolding checked_gateway
  reconcile_gateway event = do
    generation ← lift (generation_of (some event.meta) event.body)
    violations ← lift (gateway_violations scaled event)
    checked_gateway event generation violations
