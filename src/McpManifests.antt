-- ===== src/McpManifests.antt =====
-- python/vmcp_operator/domain/usecases/render_mcp_manifests.py, with the checksum of
-- python/vmcp_operator/domain/usecases/checksum_rollout.py. The hash of a payload, `sha256` over
-- its JSON text, is a parameter.
pub mod Objects
pub mod Exposed
use vmcp_operator.Base.{
  String, ◌<>◌, Bool, true, false, not, ◌&&◌, ◌||◌, Option, none, some, List, [], ◌∷◌, ◌++◌, map,
  ◌==◌, string_eq, if◌then◌else◌, truthy, value_error, Result, ok, err, ◌>>=◌, ◌>>◌, raise_if,
  traverse,
}
use vmcp_operator.Base.Integer.{ℤ}
use vmcp_operator.Json.{Value, Fields}
use vmcp_operator.Models.Gateway.{GatewayDesired, GatewayParentRef, gateway_key_eq, as_str}
use vmcp_operator.Models.Mcp.{
  McpServerDesired, McpSource, container_image, remote_http, vmcp_proxy, ContainerImageSource,
  NamedPort, WebExposureDesired,
}
use vmcp_operator.McpManifests.Objects.{
  child_name, deployment, service, web_route, env_with, managed_workload_checksum,
}

-- `_port_number`
unfoldable pub port_number : List NamedPort → String → Result ℤ
port_number [] port_name =
    err (value_error ("webExposure portName `" <> (port_name <> "` not found in ports")))
port_number (port ∷ ports) port_name =
    let rest = port_number ports port_name in
    if port.name == port_name then ok port.container_port else rest

-- `exposure.gateway_ref or gateway.public_route.gateway_ref`
abbrev pub parent_of : GatewayDesired → Option GatewayParentRef → GatewayParentRef
parent_of gateway none = gateway.public_route.gateway_ref
parent_of gateway (some ref) = ref

-- The body of the loop over the exposures.
unfoldable pub exposed :
    GatewayDesired → McpServerDesired → ContainerImageSource → WebExposureDesired → Result Fields
unfolding port_number web_route
exposed gateway mcp source exposure = port_number source.ports exposure.port_name >>= λ port.
    ok (web_route gateway mcp exposure (parent_of gateway exposure.gateway_ref) port)

module _ (sha256 : Value → String) where
  -- The manifests of a server that runs as a container.
  unfoldable pub container_manifests :
      GatewayDesired → McpServerDesired → ContainerImageSource → Result (List Fields)
  unfolding deployment service exposed env_with managed_workload_checksum
  container_manifests gateway mcp source =
      let env = env_with source.env mcp.web_exposures in
      let checksum =
        managed_workload_checksum sha256 source.image env
          (map (λ (p : NamedPort). (p.name, p.container_port)) source.ports)
          source.mcp_endpoint.path in
      deployment gateway mcp source env checksum >>= λ workload.
      traverse (exposed gateway mcp source) mcp.web_exposures >>= λ routes.
      ok (workload ∷ service gateway mcp source ∷ routes)

  abbrev pub source_manifests : GatewayDesired → McpServerDesired → McpSource → Result (List Fields)
  source_manifests gateway mcp (container_image source) = container_manifests gateway mcp source
  source_manifests gateway mcp (remote_http source) = ok []
  source_manifests gateway mcp (vmcp_proxy source) = ok []

  -- `RenderMcpManifests.execute`
  unfoldable pub execute : GatewayDesired → McpServerDesired → Result (List Fields)
  unfolding container_manifests
  execute gateway mcp =
      raise_if (not (mcp.gateway_key == gateway.key)) (
        value_error (
          "mcp `"
          <> (mcp.name
              <> ("` gatewayRef `"
                  <> (as_str mcp.gateway_key
                      <> ("` must match gateway `"
                          <> (as_str gateway.key <> "` (same-namespace only)")))))))
      >> source_manifests gateway mcp mcp.source
