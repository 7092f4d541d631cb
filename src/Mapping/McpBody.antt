-- ===== src/Mapping/McpBody.antt =====
-- `mcp_to_crd` and `mcp_to_public_dict`
pub mod Source
pub mod Lists
pub mod Exposures
pub mod RoundTrip
use vmcp_operator.Base.{
  String, ◌<>◌, Bool, true, false, not, Option, none, some, List, [], ◌∷◌, ◌++◌, map, ◌==◌,
  string_eq, if◌then◌else◌, truthy, value_error, Result, ok, ◌>>◌, raise_if,
}
use vmcp_operator.Json.{Value, null, bool, num, str, Fields, fields, dict, list}
use vmcp_operator.Models.Gateway.{SecretRef, SkillRef, GatewayKey, GatewayParentRef, as_str}
use vmcp_operator.Models.Mcp.{
  McpServerDesired, McpSource, remote_http, container_image, vmcp_proxy, NamedPort,
  ToolOverrideDesired, WebExposureDesired, ContainerImageSource, cluster_url,
}
use vmcp_operator.Gateway.EarlyStrip.{given_text, section_entry}
use vmcp_operator.Gateway.Routes.{annotations_entry, namespace_entry}
use vmcp_operator.McpManifests.Objects.{container_port, env_var}

-- `source["bearerSecretRef"] = …`, for a source that has one.
abbrev pub bearer_entry : Option SecretRef → List (String × Value)
bearer_entry none = []
bearer_entry (some ref) =
    ("bearerSecretRef", dict (("name", str ref.name) ∷ ("key", str ref.key) ∷ [])) ∷ []

-- An entry whose value is a list, where the list is not empty.
abbrev pub list_entry : String → List Value → List (String × Value)
list_entry key [] = []
list_entry key (v ∷ vs) = (key, list (v ∷ vs)) ∷ []

-- The entries of a container's source up to its variables.
abbrev pub container_entries : ContainerImageSource → List (String × Value)
container_entries source =
    ("type", str "ContainerImage")
    ∷ ("image", str source.image)
    ∷ ("ports", list (map container_port source.ports))
    ∷ (
      "mcpEndpoint",
      dict (
          ("portName", str source.mcp_endpoint.port_name)
          ∷ ("path", str source.mcp_endpoint.path)
          ∷ []),
    )
    ∷ []

-- The peer, with its namespace if that is another.
abbrev pub peer_entries : String → GatewayKey → List (String × Value)
peer_entries namespace peer =
    ("name", str peer.name)
    ∷ (if not (peer.namespace == namespace) then ("namespace", str peer.namespace) ∷ [] else [])

-- `source`
unfoldable pub source_fields : String → McpSource → Fields
source_fields namespace (remote_http source) =
    fields
      (("type", str "RemoteHttp") ∷ ("url", str source.url) ∷ bearer_entry source.bearer_secret_ref)
source_fields namespace (container_image source) =
    fields (container_entries source ++ list_entry "env" (map env_var source.env))
source_fields namespace (vmcp_proxy source) = fields (
    ("type", str "VmcpProxy")
    ∷ ("peerGatewayRef", dict (peer_entries namespace source.peer))
    ∷ ("path", str source.path)
    ∷ ("port", num source.port)
    ∷ bearer_entry source.bearer_secret_ref)

-- An entry for a text that is given and not empty.
abbrev pub text_entry : String → List String → List (String × Value)
text_entry key [] = []
text_entry key (s ∷ ss) = (key, str s) ∷ []

unfoldable pub override_value : ToolOverrideDesired → Value
override_value ov = dict (
    ("name", str ov.name)
    ∷ ("readOnly", bool ov.read_only)
    ∷ text_entry "taskSupport" (given_text ov.task_support))

unfoldable pub skill_value : SkillRef → Value
skill_value ref = dict (("name", str ref.name) ∷ text_entry "key" (given_text ref.key))

abbrev pub ref_entry : Option GatewayParentRef → List (String × Value)
ref_entry none = []
ref_entry (some ref) =
    (
      "gatewayRef",
      dict (
          (("name", str ref.name) ∷ namespace_entry (given_text ref.namespace))
          ++ section_entry ref.section_name),
    )
    ∷ []

unfoldable pub exposure_value : WebExposureDesired → Value
exposure_value exp = dict (
    (("name", str exp.name)
      ∷ ("portName", str exp.port_name)
      ∷ ("hostname", str exp.hostname)
      ∷ ("paths", list (map str exp.paths))
      ∷ [])
    ++ (ref_entry exp.gateway_ref
        ++ (annotations_entry exp.annotations
            ++ text_entry "publicBaseUrlEnv" (given_text exp.public_base_url_env))))

abbrev pub description_entry : Option String → List (String × Value)
description_entry none = []
description_entry (some s) = ("description", str s) ∷ []

-- `spec`
unfoldable pub spec_fields : McpServerDesired → Fields
unfolding source_fields override_value skill_value exposure_value
spec_fields mcp = fields (
    (("enabled", bool mcp.enabled)
      ∷ ("gatewayRef", dict (("name", str mcp.gateway_key.name) ∷ []))
      ∷ ("source", Value.obj (source_fields mcp.namespace mcp.source))
      ∷ ("forwardIdentity", bool mcp.forward_identity)
      ∷ [])
    ++ (description_entry mcp.description
        ++ (list_entry "toolOverrides" (map override_value mcp.tool_overrides)
            ++ (list_entry "skillRefs" (map skill_value mcp.skill_refs)
                ++ list_entry "webExposures" (map exposure_value mcp.web_exposures)))))

-- `mcp_to_crd`
unfoldable pub mcp_to_crd : McpServerDesired → Result Fields
unfolding spec_fields
mcp_to_crd mcp =
    raise_if (not (mcp.gateway_key.namespace == mcp.namespace))
      (value_error "mcp namespace must match gateway namespace")
    >> ok (
        fields (
          ("apiVersion", str "vmcp.io/v1alpha1")
          ∷ ("kind", str "VmcpMcpServer")
          ∷ ("metadata", dict (("name", str mcp.name) ∷ ("namespace", str mcp.namespace) ∷ []))
          ∷ ("spec", Value.obj (spec_fields mcp))
          ∷ []))

-- `source` of the public summary
unfoldable pub public_source : McpSource → Value
unfolding cluster_url
public_source (remote_http source) =
    dict
      (("type", str "RemoteHttp") ∷ ("url", str source.url) ∷ bearer_entry source.bearer_secret_ref)
public_source (vmcp_proxy source) = dict (
    ("type", str "VmcpProxy")
    ∷ ("peerGateway", str (as_str source.peer))
    ∷ ("path", str source.path)
    ∷ ("port", num source.port)
    ∷ ("clusterUrl", str (cluster_url source))
    ∷ bearer_entry source.bearer_secret_ref)
public_source (container_image source) = dict (container_entries source)

abbrev pub optional_str : Option String → Value
optional_str none = null
optional_str (some s) = str s

-- `mcp_to_public_dict`
unfoldable pub mcp_to_public_dict : McpServerDesired → Fields
unfolding public_source
mcp_to_public_dict mcp = fields (
    ("namespace", str mcp.namespace)
    ∷ ("name", str mcp.name)
    ∷ ("gateway", str (as_str mcp.gateway_key))
    ∷ ("enabled", bool mcp.enabled)
    ∷ ("description", optional_str mcp.description)
    ∷ ("forwardIdentity", bool mcp.forward_identity)
    ∷ ("source", public_source mcp.source)
    ∷ [])
