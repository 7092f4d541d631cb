-- ===== src/Models/Mcp.antt =====
-- python/vmcp_operator/domain/models/mcp.py
use vmcp_operator.Base.{String, ◌<>◌, Bool, Option, List, starts_with, if◌then◌else◌}
use vmcp_operator.Base.Integer.{ℤ, show_ℤ}
use vmcp_operator.Models.Gateway.{GatewayKey, GatewayParentRef, SecretRef, SkillRef}

pub record NamedPort : Type 0 where
  pub name : String
  pub container_port : ℤ
  pub protocol : String

pub record McpEndpoint : Type 0 where
  pub port_name : String
  pub path : String

pub record WebExposureDesired : Type 0 where
  pub name : String
  pub port_name : String
  pub hostname : String
  pub paths : List String
  pub gateway_ref : Option GatewayParentRef
  pub annotations : List (String × String)
  pub public_base_url_env : Option String

pub record ToolOverrideDesired : Type 0 where
  pub name : String
  pub read_only : Bool
  pub task_support : Option String

pub record ContainerImageSource : Type 0 where
  pub image : String
  pub ports : List NamedPort
  pub mcp_endpoint : McpEndpoint
  pub env : List (String × String)

pub record RemoteHttpSource : Type 0 where
  pub url : String
  pub bearer_secret_ref : Option SecretRef

pub record VmcpProxySource : Type 0 where
  pub peer : GatewayKey
  pub path : String
  pub port : ℤ
  pub bearer_secret_ref : Option SecretRef

-- `VmcpProxySource.cluster_url`
unfoldable pub cluster_url : VmcpProxySource → String
cluster_url s =
    let path = if starts_with s.path "/" then s.path else "/" <> s.path in
    "http://"
    <> (s.peer.name <> ("." <> (s.peer.namespace <> (".svc:" <> (show_ℤ s.port <> path)))))

-- `ContainerImageSource | RemoteHttpSource | VmcpProxySource`
pub data McpSource : Type 0 where
  container_image : ContainerImageSource → McpSource
  remote_http : RemoteHttpSource → McpSource
  vmcp_proxy : VmcpProxySource → McpSource

pub record McpServerDesired : Type 0 where
  pub namespace : String
  pub name : String
  pub gateway_key : GatewayKey
  pub enabled : Bool
  pub description : Option String
  pub source : McpSource
  pub tool_overrides : List ToolOverrideDesired
  pub skill_refs : List SkillRef
  pub web_exposures : List WebExposureDesired
  pub forward_identity : Bool
