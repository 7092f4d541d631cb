-- ===== src/Reconcile/Passes.antt =====
-- python/vmcp_operator/adapters/driving/k8s/reconcile.py: a pass over a gateway and one over an MCP
-- server. The state is the applier's.
pub mod Applied
use vmcp_operator.Base.{
  ℕ, ◌+◌, String, Bool, true, false, ◌&&◌, Option, none, some, List, [], ◌∷◌, ◌++◌, map, length,
  if◌then◌else◌, truthy, Result, ok, err,
}
use vmcp_operator.Base.Exec.{Exec, pure, lift, continue, ◌>>=◌, ◌>>◌}
use vmcp_operator.Json.{Value, obj, Fields}
use vmcp_operator.Models.Gateway.{GatewayDesired, as_str}
use vmcp_operator.Models.Mcp.{McpServerDesired}
use vmcp_operator.Artifacts as Artifacts
use vmcp_operator.Artifacts.{ReconcileGatewayArtifacts}
use vmcp_operator.Apply.{ServerSideApply, apply}
use vmcp_operator.Ownership.{attach_owner}
use vmcp_operator.Gateway.EarlyStrip.{EarlyStripPlan, plan_early_identity_strip}
use vmcp_operator.Gateway.Manifests as GatewayManifests
use vmcp_operator.McpManifests as McpManifests
use vmcp_operator.Reconcile.{
  SecretValueLoader, load_hop_secret, wants_admin_hop_inject, materialize_attachment, as_dict,
}

-- `GatewayReconcile`; its manifests are `Gateway.Manifests.execute`.
pub record GatewayReconcile : Type 1 where
  pub artifacts : ReconcileGatewayArtifacts
  pub apply : ServerSideApply
  pub secrets : Option SecretValueLoader

-- `McpReconcile`; its manifests are `McpManifests.execute`, with the hash that they use.
pub record McpReconcile : Type 1 where
  pub apply : ServerSideApply
  pub sha256 : Value → String

-- The dict that a pass over a gateway returns.
pub record GatewayResult : Type 0 where
  pub phase : String
  pub gateway : String
  pub bundle_sha256 : String
  pub objects : ℕ
  pub admin_hop_header_injected : Bool
  pub listener_policy : String
  pub listener_policy_message : String

-- The dict that a pass over a server returns.
pub record McpResult : Type 0 where
  pub phase : String
  pub gateway : String
  pub mcp : String
  pub objects : ℕ

-- `if owner is not None: attach_owner(obj, owner)`
unfoldable pub owned : Option Fields → Fields → Result Fields
unfolding attach_owner
owned none object = ok object
owned (some owner) object = attach_owner object owner

module _ (ssa : ServerSideApply) where
  -- The body of the loops over the objects.
  unfoldable pub apply_object : Option Fields → Fields → Exec ssa.applier.State (Unit {0})
  unfolding owned apply
  apply_object owner object =
      lift (owned owner object) >>= λ body. apply ssa (obj body) >>= λ stored. pure tt

  unfoldable pub apply_objects : Option Fields → List Fields → Exec ssa.applier.State (Unit {0})
  unfolding apply_object
  apply_objects owner [] = pure tt
  apply_objects owner (object ∷ objects) = apply_object owner object >> apply_objects owner objects

  -- The objects of the plan against forged identity headers.
  unfoldable pub apply_values : Option Fields → List Value → Exec ssa.applier.State (Unit {0})
  unfolding apply_object as_dict
  apply_values owner [] = pure tt
  apply_values owner (value ∷ values) =
      lift (as_dict value) >>= λ object. apply_object owner object >> apply_values owner values

  -- The loop over the attachments.
  unfoldable pub apply_attachments :
      Option Fields → GatewayDesired → List Fields → Exec ssa.applier.State (Unit {0})
  unfolding apply_object materialize_attachment
  apply_attachments owner gateway [] = pure tt
  apply_attachments owner gateway (attachment ∷ attachments) =
      lift (materialize_attachment attachment gateway) >>= λ body.
      apply_object owner body >> apply_attachments owner gateway attachments

abbrev pub is_true_text : Option String → Bool
is_true_text none = false
is_true_text (some s) = truthy s

abbrev pub gateway_result :
    GatewayDesired → String → Option String → List Fields → EarlyStripPlan → GatewayResult
gateway_result gateway bundle_sha256 hop_value objects strip = record {
  phase = "Applied";
  gateway = as_str gateway.key;
  bundle_sha256 = bundle_sha256;
  objects = length objects + length strip.objects + length gateway.attachments;
  admin_hop_header_injected = is_true_text hop_value && wants_admin_hop_inject gateway;
  listener_policy = strip.phase;
  listener_policy_message = strip.message;
}

-- `GatewayReconcile.execute`
unfoldable pub reconcile_gateway :
    (self : GatewayReconcile)
    → GatewayDesired
    → List McpServerDesired
    → Option Fields
    → Exec self.apply.applier.State GatewayResult
unfolding load_hop_secret apply_objects apply_values apply_attachments plan_early_identity_strip
reconcile_gateway self gateway mcps owner = do
  bundle ← lift (Artifacts.execute self.artifacts gateway mcps)
  let hop_value = load_hop_secret self.secrets gateway
  objects ← lift (GatewayManifests.execute gateway bundle mcps hop_value)
  let strip = plan_early_identity_strip gateway
  applied ← apply_objects self.apply owner objects
  stripped ← apply_values self.apply owner strip.objects
  attached ← apply_attachments self.apply owner gateway gateway.attachments
  pure (gateway_result gateway bundle.bundle_sha256 hop_value objects strip)

abbrev pub mcp_phase : List Fields → String
mcp_phase [] = "Registered"
mcp_phase (o ∷ os) = "Applied"

-- `McpReconcile.execute`
unfoldable pub reconcile_mcp :
    (self : McpReconcile)
    → GatewayDesired
    → McpServerDesired
    → Option Fields
    → Exec self.apply.applier.State McpResult
unfolding apply_objects
reconcile_mcp self gateway mcp owner = do
  objects ← lift (McpManifests.execute self.sha256 gateway mcp)
  applied ← apply_objects self.apply owner objects
  pure (record {
    phase = mcp_phase objects;
    gateway = as_str gateway.key;
    mcp = mcp.name;
    objects = length objects;
  })
