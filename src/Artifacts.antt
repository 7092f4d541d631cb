-- ===== src/Artifacts.antt =====
-- python/vmcp_operator/domain/usecases/reconcile_artifacts.py: the MCP servers of a gateway as the
-- upstreams of its registry. The renderer and the skill loader are the ports that the use case is
-- given.
pub mod Upstreams
use vmcp_operator.Base.{
  String, ◌<>◌, Bool, true, false, ◌&&◌, Option, none, some, List, [], ◌∷◌, map, ◌==◌, string_eq,
  if◌then◌else◌, select, upper, replace_char, value_error, Result, ok, err, ◌>>=◌, ◌>>◌, raise_if,
  traverse,
}
use vmcp_operator.Base.Integer.{show_ℤ}
use vmcp_operator.Base.Sorting.{sort_by}
use vmcp_operator.Models.Gateway.{GatewayDesired, SecretRef, gateway_key_eq}
use vmcp_operator.Models.Mcp.{
  McpServerDesired, McpSource, container_image, remote_http, vmcp_proxy, NamedPort,
  ToolOverrideDesired, cluster_url,
}
use vmcp_operator.Models.Artifacts.{
  UpstreamDesired, ToolOverrideArtifact, UpstreamArtifactsDesired, SkillDesired, ArtifactBundle,
}

-- The environment variable that carries the bearer of an upstream, for a source with a bearer.
unfoldable pub bearer_env : String → Option SecretRef → Option String
bearer_env name none = none
bearer_env name (some ref) = some ("VMCP_BEARER_" <> replace_char 45 "_" (upper name))

-- The first port with the name of the endpoint.
unfoldable pub find_port : String → List NamedPort → Option NamedPort
find_port name [] = none
find_port name (p ∷ ps) = let rest = find_port name ps in if p.name == name then some p else rest

-- The upstream of a server, from the parts in which the kinds of source differ.
abbrev pub upstream : McpServerDesired → String → Option String → UpstreamDesired
upstream mcp url bearer = record {
  name = mcp.name;
  url = url;
  bearer_env = bearer;
  description = mcp.description;
  sidecar_relpath = none;
  enabled = true;
  forward_identity = mcp.forward_identity;
}

unfoldable pub container_upstream :
    GatewayDesired → McpServerDesired → String → Option NamedPort → Result UpstreamDesired
container_upstream gateway mcp path none =
    err (value_error ("mcp `" <> (mcp.name <> "` mcpEndpoint.portName not found in ports")))
container_upstream gateway mcp path (some port) = ok (
    upstream mcp
      ("http://"
        <> (gateway.key.name
            <> ("-"
                <> (mcp.name
                    <> ("."
                        <> (gateway.key.namespace
                            <> (".svc:" <> (show_ℤ port.container_port <> path))))))))
      none)

unfoldable pub upstream_of : GatewayDesired → McpServerDesired → McpSource → Result UpstreamDesired
unfolding bearer_env find_port container_upstream
upstream_of gateway mcp (remote_http source) =
    ok (upstream mcp source.url (bearer_env mcp.name source.bearer_secret_ref))
upstream_of gateway mcp (vmcp_proxy source) =
    raise_if (source.peer == gateway.key)
      (value_error ("mcp `" <> (mcp.name <> "` cannot peer a gateway to itself via VmcpProxy")))
    >> ok (upstream mcp (cluster_url source) (bearer_env mcp.name source.bearer_secret_ref))
upstream_of gateway mcp (container_image source) =
    container_upstream gateway mcp source.mcp_endpoint.path
      (find_port source.mcp_endpoint.port_name source.ports)

-- `_to_upstream`
abbrev pub to_upstream : GatewayDesired → McpServerDesired → Result UpstreamDesired
to_upstream gateway mcp = upstream_of gateway mcp mcp.source

abbrev pub override_artifact : ToolOverrideDesired → ToolOverrideArtifact
override_artifact ov = record {
  name = ov.name;
  read_only = ov.read_only;
  task_support = ov.task_support;
}

-- The body of the loop over the servers.
abbrev pub artifacts_of : GatewayDesired → McpServerDesired → Result UpstreamArtifactsDesired
artifacts_of gateway mcp = to_upstream gateway mcp >>= λ u.
    ok (record { upstream = u; tool_overrides = map override_artifact mcp.tool_overrides })

-- `enabled`
unfoldable pub enabled_mcps : GatewayDesired → List McpServerDesired → List McpServerDesired
enabled_mcps gateway = select (λ m. m.enabled && m.gateway_key == gateway.key)

-- `upstreams`, when the loop ends
unfoldable pub upstreams :
    GatewayDesired → List McpServerDesired → Result (List UpstreamArtifactsDesired)
unfolding upstream_of enabled_mcps
upstreams gateway mcps =
    traverse (artifacts_of gateway) (sort_by (λ m. m.name) (enabled_mcps gateway mcps))

-- `ReconcileGatewayArtifacts`
pub record ReconcileGatewayArtifacts : Type 0 where
  pub render_bundle : List UpstreamArtifactsDesired → List SkillDesired → Result ArtifactBundle
  pub load_skills : GatewayDesired → List McpServerDesired → Result (List SkillDesired)

-- `ReconcileGatewayArtifacts.execute`
unfoldable pub execute :
    ReconcileGatewayArtifacts → GatewayDesired → List McpServerDesired → Result ArtifactBundle
unfolding upstreams
execute self gateway mcps = upstreams gateway mcps >>= λ us.
    self.load_skills gateway (enabled_mcps gateway mcps) >>= λ skills. self.render_bundle us skills
