-- ===== src/Handlers/Runtime.antt =====
-- python/vmcp_operator/adapters/driving/k8s/runtime.py: the operator's parts, and the state that its
-- handlers change.
use vmcp_operator.Base.{
  String, Bool, Option, none, some, List, [], ◌∷◌, ◌++◌, string_eq, if◌then◌else◌, contains, ok,
}
use vmcp_operator.Base.Exec.{Exec, pure, ◌>>◌}
use vmcp_operator.Json.{Value, Fields}
use vmcp_operator.Models.Gateway.{GatewayKey, GatewayDesired, as_str}
use vmcp_operator.Models.Mcp.{McpServerDesired}
use vmcp_operator.Artifacts.{ReconcileGatewayArtifacts}
use vmcp_operator.Apply.{ServerSideApply}
use vmcp_operator.Reconcile.{SecretValueLoader}
use vmcp_operator.Reconcile.Passes.{GatewayReconcile, McpReconcile}
use vmcp_operator.Finalizers.Patch.{Transform}

-- `OperatorRuntime`: both reconcilers apply through one `ServerSideApply`. The catalogs, the
-- upstream's removal and the toucher act on the cluster.
pub record OperatorRuntime : Type 1 where
  pub apply : ServerSideApply
  pub artifacts : ReconcileGatewayArtifacts
  pub secrets : Option SecretValueLoader
  pub sha256 : Value → String
  pub list_mcps : GatewayKey → Exec apply.applier.State (List McpServerDesired)
  pub get_gateway : GatewayKey → Exec apply.applier.State (Option GatewayDesired)
  pub unregister_upstream : Option (GatewayKey → String → Exec apply.applier.State Bool)
  pub gateway_toucher : Option (GatewayKey → Exec apply.applier.State (Unit {0}))

-- `gateway_reconcile` and `mcp_reconcile`
abbrev pub gateway_reconcile : (runtime : OperatorRuntime) → GatewayReconcile
gateway_reconcile runtime = record {
  artifacts = runtime.artifacts;
  apply = runtime.apply;
  secrets = runtime.secrets;
}

abbrev pub mcp_reconcile : (runtime : OperatorRuntime) → McpReconcile
mcp_reconcile runtime = record { apply = runtime.apply; sha256 = runtime.sha256 }

-- The cluster, the gateways that wait for a pass, and the patch of the handled object: its status
-- and its transforms.
pub record Operator (S : Type 0) : Type 0 where
  pub cluster : S
  pub pending : List String
  pub status : Fields
  pub fns : List Transform

module _ {S : Type 0} where
  -- A call that changes the cluster only.
  unfoldable pub on_cluster {ℓ} : {A : Type ℓ} → Exec S A → Exec (Operator S) A
  on_cluster call s = ((call s.cluster).0, record s { cluster = (call s.cluster).1 })

  -- `OperatorRuntime.enqueue`
  unfoldable pub enqueue : GatewayKey → Exec (Operator S) (Unit {0})
  enqueue key s =
      let k = as_str key in
      (
        ok tt,
        record s { pending = if contains s.pending k then s.pending else s.pending ++ k ∷ [] },
      )

  -- What `touch_gateway` does with the toucher, if there is one.
  unfoldable pub touch_with :
      Option (GatewayKey → Exec S (Unit {0})) → GatewayKey → Exec (Operator S) (Unit {0})
  unfolding on_cluster
  touch_with none key = pure tt
  touch_with (some touch) key = on_cluster (touch key)

-- `OperatorRuntime.touch_gateway`
unfoldable pub touch_gateway :
    (runtime : OperatorRuntime)
    → GatewayKey
    → Exec (Operator runtime.apply.applier.State) (Unit {0})
unfolding enqueue touch_with
touch_gateway runtime key = enqueue key >> touch_with runtime.gateway_toucher key
