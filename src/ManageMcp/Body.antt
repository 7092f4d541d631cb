-- ===== src/ManageMcp/Body.antt =====
-- python/vmcp_operator/domain/usecases/manage_mcp.py: `mcp_from_add_body`
use vmcp_operator.Base.{
  String, ◌<>◌, Bool, true, false, not, ◌||◌, Option, none, some, [], ◌∷◌, ◌==◌, string_eq,
  if◌then◌else◌, truthy, strip, lower, has_char, split_once, value_error, Result, ok, err, ◌>>=◌,
  ◌>>◌, raise_if, traverse, ◌≡◌, refl, OnOk, bind-OnOk,
}
use vmcp_operator.Base.Integer.{pos}
use vmcp_operator.Json.{Value, null, bool, num, str, obj, Fields, end, get, list, dict}
use vmcp_operator.Json.Access.{
  truth, to_str, to_int, to_iter, item_of, get_of, or_value, or_default, to_text?,
}
use vmcp_operator.Models.Gateway.{GatewayKey, SecretRef}
use vmcp_operator.Models.Mcp.{
  McpServerDesired, McpSource, NamedPort, remote_http, container_image, vmcp_proxy,
}
use vmcp_operator.ManageMcp.Patch.{bearer_ref}

-- `NamedPort(...)` from one item of `ports`; `map_mcp` builds its ports alike.
unfoldable pub named_port : Value → Result NamedPort
named_port p = do
  name ← item_of p "name"
  number ← item_of p "containerPort"
  port ← to_int number
  protocol ← get_of p "protocol"
  ok (record {
    name = to_str name;
    container_port = port;
    protocol = to_str (or_default protocol (str "TCP"));
  })

optional_bearer : Value → Result (Option SecretRef)
unfolding bearer_ref
optional_bearer v = if truth v then bearer_ref v >>= (λ ref. ok (some ref)) else ok none

remote_http_source : Fields → Value → Option SecretRef → Result McpSource
remote_http_source body raw bearer = do
  own ← get_of raw "url"
  let url = strip (to_str (or_value own (or_value (get body "url") (str ""))))
  raise_if (not (truthy url)) (value_error "RemoteHttp source requires url")
  ok (remote_http (record { url = url; bearer_secret_ref = bearer }))

container_source : Fields → Value → Result McpSource
unfolding named_port
container_source body raw = do
  own ← get_of raw "image"
  let image = strip (to_str (or_value own (or_value (get body "image") (str ""))))
  raise_if (not (truthy image)) (value_error "ContainerImage source requires image")
  given ← get_of raw "ports"
  ports_raw ← to_iter (
      or_value given
        (list (dict (("name", str "http") ∷ ("containerPort", num (pos 8080)) ∷ []) ∷ [])))
  ports ← traverse named_port ports_raw
  given_endpoint ← get_of raw "mcpEndpoint"
  let endpoint = or_value given_endpoint (obj end)
  port_name ← get_of endpoint "portName"
  path ← get_of endpoint "path"
  ok (
      container_image (record {
        image = image;
        ports = ports;
        mcp_endpoint = record {
          port_name = to_str (or_default port_name (str "http"));
          path = to_str (or_default path (str "/mcp"));
        };
        env = [];
      }))

-- The peer's key: `namespace/name`, or a name with a namespace given beside it.
peer_key : GatewayKey → Value → String → Result GatewayKey
peer_key gateway peer_raw peer_name = elim (split_once 47 peer_name) [
  | some (namespace, name) ↦ ok (record { namespace = namespace; name = name })
  | none ↦ get_of peer_raw "namespace" >>= λ namespace.
      ok (record {
        namespace = to_str (or_value namespace (str gateway.namespace));
        name = peer_name;
      })
]

proxy_source : GatewayKey → Fields → Value → Option SecretRef → Result McpSource
unfolding peer_key
proxy_source gateway body raw bearer = do
  given ← get_of raw "peerGatewayRef"
  let peer_raw = or_value given (obj end)
  n1 ← get_of peer_raw "name"
  n2 ← get_of raw "peer"
  n3 ← get_of raw "peerGateway"
  let peer_name = strip (
      to_str (or_value n1 (or_value n2 (or_value n3 (or_value (get body "peerGateway") (str ""))))))
  raise_if (not (truthy peer_name)) (value_error "VmcpProxy source requires peerGatewayRef.name")
  peer ← peer_key gateway peer_raw peer_name
  path ← get_of raw "path"
  port ← get_of raw "port"
  number ← to_int (or_value port (or_value (get body "port") (num (pos 8080))))
  ok (
      vmcp_proxy (record {
        peer = peer;
        path = to_str (or_value path (or_value (get body "path") (str "/mcp-proxy")));
        port = number;
        bearer_secret_ref = bearer;
      }))

source_of_type : GatewayKey → Fields → Value → Option SecretRef → String → Result McpSource
unfolding remote_http_source container_source proxy_source
source_of_type gateway body raw bearer source_type =
    if source_type == "RemoteHttp"
    then remote_http_source body raw bearer
    else if source_type == "ContainerImage"
    then container_source body raw
    else if source_type == "VmcpProxy"
    then proxy_source gateway body raw bearer
    else err (value_error ("unsupported source.type `" <> (source_type <> "`")))

-- The test that rejects a name.
unfoldable pub bad_name : String → Bool
bad_name name =
    not (truthy name) || not (name == strip name) || has_char 47 name || not (name == lower name)

-- `mcp_from_add_body`
unfoldable pub mcp_from_add_body : GatewayKey → String → Fields → Result McpServerDesired
unfolding bad_name optional_bearer source_of_type
mcp_from_add_body gateway name body = do
  raise_if (bad_name name) (value_error "mcp name must be a lowercase DNS label without '/'")
  let raw = or_value (get body "source") (obj end)
  given_type ← get_of raw "type"
  own_bearer ← get_of raw "bearerSecretRef"
  bearer ← optional_bearer (or_value own_bearer (or_default (get body "bearerSecretRef") null))
  source ←
      source_of_type gateway body raw bearer (to_str (or_default given_type (str "RemoteHttp")))
  description ← to_text? (get body "description")
  ok (record {
    namespace = gateway.namespace;
    name = name;
    gateway_key = gateway;
    enabled = truth (or_default (get body "enabled") (bool true));
    description = description;
    source = source;
    tool_overrides = [];
    skill_refs = [];
    web_exposures = [];
    forward_identity = truth (or_default (get body "forwardIdentity") (bool false));
  })

-- A server of a gateway, under a name.
pub record IsNamed (g : GatewayKey) (n : String) (m : McpServerDesired) : Type 0 where
  pub gateway_key : m.gateway_key ≡ g
  pub name : m.name ≡ n

pub mcp_from_add_body-IsNamed :
    (g : GatewayKey) (n : String) (body : Fields) → OnOk (IsNamed g n) (mcp_from_add_body g n body)
unfolding mcp_from_add_body
mcp_from_add_body-IsNamed g n body =
    let P = IsNamed g n in
    let raw = or_value (get body "source") (obj end) in
    bind-OnOk P (raise_if (bad_name n) _) _ (λ done.
      bind-OnOk P (get_of raw "type") _ (λ given_type.
        let kind = to_str (or_default given_type (str "RemoteHttp")) in
        bind-OnOk P (get_of raw "bearerSecretRef") _ (λ own.
          bind-OnOk P
            (optional_bearer (or_value own (or_default (get body "bearerSecretRef") null))) _
            (λ bearer. bind-OnOk P (source_of_type g body raw bearer kind) _ (λ source.
              bind-OnOk P (to_text? (get body "description")) _
                (λ description. record { gateway_key = refl; name = refl }))))))
