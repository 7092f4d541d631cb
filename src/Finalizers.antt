-- ===== src/Finalizers.antt =====
-- python/vmcp_operator/domain/usecases/finalizers.py, and the transforms that deliver its
-- decisions (python/vmcp_operator/adapters/driving/k8s/finalizer_patch.py).
pub mod Patch
pub mod Lifecycle
use vmcp_operator.Base.{
  ℕ, zero, String, ◌<>◌, Bool, true, false, not, Option, none, some, List, [], ◌∷◌, ◌==◌, string_eq,
  if◌then◌else◌, ltb, contains, show_ℕ, value_error, Result, raise_if,
}
use vmcp_operator.Models.Gateway.{GatewayKey}

abbrev pub gateway_finalizer : String
gateway_finalizer = "vmcp.io/gateway-protection"

abbrev pub mcp_finalizer : String
mcp_finalizer = "vmcp.io/unregister-before-gc"

pub record FinalizerDecision : Type 0 where
  pub add : List String
  pub remove : List String
  pub block_delete : Bool
  pub reason : Option String

abbrev pub no_change : FinalizerDecision
no_change = record { add = []; remove = []; block_delete = false; reason = none }

-- `ensure_same_namespace`
unfoldable pub ensure_same_namespace : GatewayKey → String → String → Result (Unit {0})
ensure_same_namespace gateway namespace kind = raise_if (not (gateway.namespace == namespace)) (
    value_error (
      kind
      <> (" namespace `"
          <> (namespace
              <> ("` must equal gateway namespace `"
                  <> (gateway.namespace <> "` (cross-namespace refs forbidden)"))))))

-- `plan_gateway_finalizer`
unfoldable pub plan_gateway_finalizer : List String → Bool → ℕ → FinalizerDecision
plan_gateway_finalizer existing deleting children_remaining =
    if not deleting
    then if contains existing gateway_finalizer
      then no_change
      else record no_change { add = gateway_finalizer ∷ [] }
    else if ltb 0 children_remaining
    then record no_change {
      block_delete = true;
      reason = some (show_ℕ children_remaining <> " child objects remain");
    }
    else if contains existing gateway_finalizer
    then record no_change { remove = gateway_finalizer ∷ []; reason = some "ready to finalize" }
    else no_change

-- `plan_mcp_finalizer`
unfoldable pub plan_mcp_finalizer : List String → Bool → Bool → FinalizerDecision
plan_mcp_finalizer existing deleting unregistered_from_vmcp =
    if not deleting
    then if contains existing mcp_finalizer
      then no_change
      else record no_change { add = mcp_finalizer ∷ [] }
    else if not unregistered_from_vmcp
    then record no_change {
      block_delete = true;
      reason = some "waiting for upstream unregister before GC";
    }
    else if contains existing mcp_finalizer
    then record no_change { remove = mcp_finalizer ∷ []; reason = some "unregistered; allow GC" }
    else no_change
