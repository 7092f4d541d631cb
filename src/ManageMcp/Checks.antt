-- ===== src/ManageMcp/Checks.antt =====
-- python/vmcp_operator/domain/usecases/manage_mcp.py: the checks that the writing use cases share.
use vmcp_operator.Base.{
  String, ◌<>◌, not, ◌||◌, Option, none, some, ◌==◌, string_eq, if◌then◌else◌, truthy, strip,
  value_error, lookup_error, Result, ok, err, ◌>>=◌, ◌>>◌, raise_if,
}
use vmcp_operator.Base.Integer.{in_range}
use vmcp_operator.Models.Gateway.{GatewayKey, as_str, gateway_key_eq, GatewayDesired}
use vmcp_operator.Models.Mcp.{
  McpServerDesired, McpSource, VmcpProxySource, remote_http, container_image, vmcp_proxy,
}
use vmcp_operator.Ports.{GatewayRepository}

-- The branch of `_validate_mcp` for the kind of source.
unfoldable pub validate_source : GatewayKey → McpSource → Result (Unit {0})
validate_source key (remote_http s) =
    raise_if (not (truthy (strip s.url))) (value_error "RemoteHttp url must be non-empty")
validate_source key (container_image s) =
    raise_if (not (truthy (strip s.image))) (value_error "ContainerImage image must be non-empty")
validate_source key (vmcp_proxy s) = do
  raise_if (s.peer == key) (value_error "cannot attach a gateway to itself via VmcpProxy")
  raise_if (not (truthy (strip s.path))) (value_error "VmcpProxy path must be non-empty")
  raise_if (not (in_range 1 65535 s.port)) (value_error "VmcpProxy port out of range")

-- `_validate_mcp`
unfoldable pub validate_mcp : McpServerDesired → Result (Unit {0})
unfolding validate_source
validate_mcp mcp = do
  raise_if (not (mcp.gateway_key.namespace == mcp.namespace))
      (value_error "mcp must live in the same namespace as its gateway")
  raise_if (not (truthy mcp.name) || not (mcp.name == strip mcp.name))
      (value_error "mcp name must be non-empty")
  validate_source mcp.gateway_key mcp.source

-- `_require_gateway`
unfoldable pub require_gateway : GatewayRepository → GatewayKey → Result (Unit {0})
require_gateway gateways key = elim (gateways.get key) [
  | none ↦ err (lookup_error ("gateway `" <> (as_str key <> "` not found")))
  | some g ↦ ok tt
]

-- `path in {"", "/mcp-proxy"} and peer.proxy.path`: the caller left the default.
unfoldable pub inherit_path : GatewayDesired → String → String
inherit_path peer path =
    if path == "" || path == "/mcp-proxy"
    then if truthy peer.proxy.path then peer.proxy.path else path
    else path

unfoldable pub resolve_peer :
    GatewayKey → Option GatewayDesired → VmcpProxySource → Result VmcpProxySource
unfolding inherit_path
resolve_peer key none s = err (lookup_error ("peer gateway `" <> (as_str key <> "` not found")))
resolve_peer key (some peer) s =
    if peer.proxy.enabled
    then ok (record s { path = inherit_path peer s.path })
    else err (
        value_error (
          "peer gateway `"
          <> (as_str key <> "` must have proxy.enabled=true (vmcp-proxy surface)")))

unfoldable pub resolve_source : GatewayRepository → McpSource → Result McpSource
unfolding resolve_peer
resolve_source gateways (remote_http s) = ok (remote_http s)
resolve_source gateways (container_image s) = ok (container_image s)
resolve_source gateways (vmcp_proxy s) = do
  t ← resolve_peer s.peer (gateways.get s.peer) s
  ok (vmcp_proxy t)

-- `_resolve_vmcp_proxy`
unfoldable pub resolve_vmcp_proxy : GatewayRepository → McpServerDesired → Result McpServerDesired
unfolding resolve_source
resolve_vmcp_proxy gateways mcp = do
  source ← resolve_source gateways mcp.source
  ok (record mcp { source = source })
