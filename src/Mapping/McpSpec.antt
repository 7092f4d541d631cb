-- ===== src/Mapping/McpSpec.antt =====
-- `map_mcp`
use vmcp_operator.Base.{
  String, ◌<>◌, Bool, true, false, ◌||◌, Option, none, some, List, [], ◌∷◌, map, ◌==◌, string_eq,
  if◌then◌else◌, starts_with, any, value_error, type_error, Result, ok, err, ◌>>=◌, ◌>>◌, raise_if,
  traverse,
}
use vmcp_operator.Base.Integer.{pos}
use vmcp_operator.Json.{Value, num, str, obj, arr, end, Fields, get, to_list}
use vmcp_operator.Json.Access.{truth, to_str, to_int, item, item_of, or_value, to_text?}
use vmcp_operator.Models.Gateway.{GatewayParentRef}
use vmcp_operator.Models.Mcp.{
  McpServerDesired, McpSource, remote_http, container_image, vmcp_proxy, ToolOverrideDesired,
  WebExposureDesired,
}
use vmcp_operator.ManageMcp.Body.{named_port}
use vmcp_operator.Ports.{is_some}
use vmcp_operator.Ownership.{missing}
use vmcp_operator.Gateway.Filters.{is_text}
use vmcp_operator.Mapping.Values.{
  fields_of, section, text_of, text_at, bool_at, elements, sorted_entries, optional_secret_ref,
  skill_ref,
}

-- `t in s` on texts
unfoldable pub occurs : String → String → Bool
occurs t String.[] = String.[] == t
occurs t (String.◌∷◌ c s) = starts_with (String.◌∷◌ c s) t || occurs t s

-- `key in v`
unfoldable pub has_item : Value → String → Result Bool
unfolding occurs
has_item (obj d) key = ok (is_some (get d key))
has_item (str s) key = ok (occurs key s)
has_item (arr vs) key = ok (any (λ v. is_text (some v) key) (to_list vs))
has_item v key = err (type_error "argument is not iterable")

abbrev pub env_entry : Value → Result (String × String)
env_entry v = do name ← text_of v "name"; d ← fields_of v; ok (name, text_at d "value" "")

-- The comprehension that fills `env`: items without a name are passed over.
unfoldable pub env_entries : List Value → Result (List (String × String))
unfolding has_item
env_entries [] = ok []
env_entries (v ∷ vs) = has_item v "name" >>= λ named.
    let rest = env_entries vs in
    if named then env_entry v >>= (λ e. rest >>= λ es. ok (e ∷ es)) else rest

unfoldable pub remote_source : Value → Result McpSource
unfolding optional_secret_ref
remote_source source = do
  url ← text_of source "url"
  raw ← fields_of source
  bearer ← optional_secret_ref (get raw "bearerSecretRef") "token"
  ok (remote_http (record { url = url; bearer_secret_ref = bearer }))

unfoldable pub container_source : Value → Result McpSource
unfolding named_port env_entries
container_source source = do
  raw ← fields_of source
  ports_raw ← elements raw "ports"
  ports ← traverse named_port ports_raw
  let endpoint_raw = or_value (get raw "mcpEndpoint") (obj end)
  image ← text_of source "image"
  endpoint ← fields_of endpoint_raw
  env_raw ← elements raw "env"
  env ← env_entries env_raw
  ok (
      container_image (record {
        image = image;
        ports = ports;
        mcp_endpoint = record {
          port_name = text_at endpoint "portName" "http";
          path = text_at endpoint "path" "/mcp";
        };
        env = env;
      }))

unfoldable pub proxy_source : String → Value → Result McpSource
unfolding optional_secret_ref
proxy_source namespace source = do
  raw ← fields_of source
  peer_raw ← section raw "peerGatewayRef"
  raise_if (missing (get peer_raw "name"))
      (value_error "VmcpProxy source requires peerGatewayRef.name")
  port ← to_int (or_value (get raw "port") (num (pos 8080)))
  bearer ← optional_secret_ref (get raw "bearerSecretRef") "token"
  ok (
      vmcp_proxy (record {
        peer = record {
          namespace = to_str (or_value (get peer_raw "namespace") (str namespace));
          name = text_at peer_raw "name" "";
        };
        path = to_str (or_value (get raw "path") (str "/mcp-proxy"));
        port = port;
        bearer_secret_ref = bearer;
      }))

-- The source, by its type.
unfoldable pub source_of : String → Value → Value → Result McpSource
unfolding remote_source container_source proxy_source
source_of namespace source source_type =
    if is_text (some source_type) "RemoteHttp"
    then remote_source source
    else if is_text (some source_type) "ContainerImage"
    then container_source source
    else if is_text (some source_type) "VmcpProxy"
    then proxy_source namespace source
    else err (value_error ("unsupported source.type `" <> (to_str source_type <> "`")))

unfoldable pub tool_override : Value → Result ToolOverrideDesired
tool_override v = do
  name ← text_of v "name"
  read_only ← item_of v "readOnly"
  d ← fields_of v
  task_support ← to_text? (get d "taskSupport")
  ok (record { name = name; read_only = truth read_only; task_support = task_support })

abbrev exposure_ref : Value → Result (Option GatewayParentRef)
exposure_ref ref = do
  name ← text_of ref "name"
  d ← fields_of ref
  namespace ← to_text? (get d "namespace")
  section_name ← to_text? (get d "sectionName")
  ok (some (record { name = name; namespace = namespace; section_name = section_name }))

-- `GatewayParentRef(...) if ref else None`
unfoldable pub optional_ref : Option Value → Result (Option GatewayParentRef)
optional_ref none = ok none
optional_ref (some ref) = if truth ref then exposure_ref ref else ok none

-- `_web_exposure`
unfoldable pub web_exposure : Value → Result WebExposureDesired
unfolding optional_ref sorted_entries
web_exposure v = do
  raw ← fields_of v
  name ← text_of v "name"
  port_name ← text_of v "portName"
  hostname ← text_of v "hostname"
  paths ← elements raw "paths"
  gateway_ref ← optional_ref (get raw "gatewayRef")
  annotations ← sorted_entries raw "annotations"
  public_base_url_env ← to_text? (get raw "publicBaseUrlEnv")
  ok (record {
    name = name;
    port_name = port_name;
    hostname = hostname;
    paths = map to_str paths;
    gateway_ref = gateway_ref;
    annotations = annotations;
    public_base_url_env = public_base_url_env;
  })

-- `map_mcp`
unfoldable pub map_mcp : String → String → Fields → Result McpServerDesired
unfolding source_of tool_override skill_ref web_exposure
map_mcp namespace name spec = do
  source_raw ← item spec "source"
  source_type ← item_of source_raw "type"
  source ← source_of namespace source_raw source_type
  ref ← item spec "gatewayRef"
  gateway_name ← text_of ref "name"
  description ← to_text? (get spec "description")
  overrides_raw ← elements spec "toolOverrides"
  tool_overrides ← traverse tool_override overrides_raw
  skills_raw ← elements spec "skillRefs"
  skill_refs ← traverse skill_ref skills_raw
  exposures_raw ← elements spec "webExposures"
  web_exposures ← traverse web_exposure exposures_raw
  ok (record {
    namespace = namespace;
    name = name;
    gateway_key = record { namespace = namespace; name = gateway_name };
    enabled = bool_at spec "enabled" true;
    description = description;
    source = source;
    tool_overrides = tool_overrides;
    skill_refs = skill_refs;
    web_exposures = web_exposures;
    forward_identity = bool_at spec "forwardIdentity" false;
  })
