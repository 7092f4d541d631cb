-- ===== src/Gateway/Deployment.antt =====
-- python/vmcp_operator/domain/usecases/render_gateway_manifests.py: the Deployment of a gateway.
use vmcp_operator.Base.{String, ◌<>◌, Bool, false, List, [], ◌∷◌, if◌then◌else◌}
use vmcp_operator.Base.Integer.{pos}
use vmcp_operator.Json.{Value, bool, num, str, Fields, dict, list}
use vmcp_operator.Models.Gateway.{GatewayDesired}
use vmcp_operator.Models.Mcp.{McpServerDesired}
use vmcp_operator.Models.Artifacts.{ArtifactBundle}
use vmcp_operator.Gateway.EarlyStrip.{gateway_labels}
use vmcp_operator.Gateway.Env.{gateway_env}
use vmcp_operator.Gateway.Workload.{object, metadata, volumes, volume_mounts, init_volume_mounts}

-- `expand_script`: it turns the keys of the ConfigMap into paths again and, where the gateway may
-- write its tokens, seeds them once.
unfoldable pub expand_script : Bool → String
expand_script tokens_writable =
    "set -eu; mkdir -p /config; for f in /config-raw/*; do   base=$(basename \"$f\"); "
    <> ("  rel=$(printf '%s' \"$base\" | sed 's#__#/#g');   mkdir -p \"/config/$(dirname \"$rel\")\"; "
        <> ("  cp \"$f\" \"/config/$rel\"; done"
            <> (if tokens_writable
                then "; if [ ! -f /state/tokens.json ]; then cp /secrets-bootstrap/tokens.json /state/tokens.json; fi"
                else "")))

abbrev pub init_container : GatewayDesired → Value
init_container gateway =
    let tokens_writable = gateway.admin_token_secret_ref.writable in
    dict (
      ("name", str "expand-artifacts")
      ∷ ("image", str gateway.image)
      ∷ ("command", list (str "sh" ∷ str "-c" ∷ []))
      ∷ ("args", list (str (expand_script tokens_writable) ∷ []))
      ∷ ("volumeMounts", list (init_volume_mounts tokens_writable))
      ∷ [])

abbrev pub container : GatewayDesired → List McpServerDesired → Value
container gateway mcps = dict (
    ("name", str "vmcp")
    ∷ ("image", str gateway.image)
    ∷ ("ports", list (dict (("name", str "http") ∷ ("containerPort", num (pos 8080)) ∷ []) ∷ []))
    ∷ ("env", list (gateway_env gateway mcps))
    ∷ ("volumeMounts", list (volume_mounts gateway.admin_token_secret_ref.writable))
    ∷ [])

-- The spec of the pods.
abbrev pub pod_spec : GatewayDesired → List McpServerDesired → Value
pod_spec gateway mcps = dict (
    ("enableServiceLinks", bool false)
    ∷ ("initContainers", list (init_container gateway ∷ []))
    ∷ ("containers", list (container gateway mcps ∷ []))
    ∷ ("volumes", list (volumes gateway))
    ∷ [])

abbrev pub pod_template : GatewayDesired → ArtifactBundle → List McpServerDesired → Value
pod_template gateway artifacts mcps = dict (
    (
      "metadata",
      dict (
          ("labels", dict (gateway_labels gateway.key.name))
          ∷ ("annotations", dict (("vmcp.io/bundle-sha256", str artifacts.bundle_sha256) ∷ []))
          ∷ []),
    )
    ∷ ("spec", pod_spec gateway mcps)
    ∷ [])

-- `deployment`
unfoldable pub deployment : GatewayDesired → ArtifactBundle → List McpServerDesired → Fields
unfolding gateway_env volumes volume_mounts init_volume_mounts expand_script
deployment gateway artifacts mcps =
    object "apps/v1" "Deployment" (metadata gateway gateway.key.name) (
      (
        "spec",
        dict (
            ("replicas", num (pos 1))
            ∷ ("selector", dict (("matchLabels", dict (gateway_labels gateway.key.name)) ∷ []))
            ∷ ("template", pod_template gateway artifacts mcps)
            ∷ []),
      )
      ∷ [])
