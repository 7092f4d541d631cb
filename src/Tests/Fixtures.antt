-- ===== src/Tests/Fixtures.antt =====
-- A gateway, its route and its servers.
use vmcp_operator.Base.{true, false, none, some, [], ◌∷◌, ◌==◌, if◌then◌else◌}
use vmcp_operator.Base.Integer.{pos}
use vmcp_operator.Models.Gateway.{
  GatewayKey, GatewayDesired, GatewayParentRef, RouteDesired, SecretRef, gateway_key_eq,
  default_persistence, default_tasks, default_proxy, default_gql, default_auth,
}
use vmcp_operator.Models.Mcp.{McpServerDesired, McpSource, remote_http}
use vmcp_operator.Ports.{GatewayRepository}

abbrev pub prod : GatewayKey
prod = record { namespace = "ns"; name = "prod" }

abbrev pub peer_key : GatewayKey
peer_key = record { namespace = "ns"; name = "peer" }

abbrev pub edge : GatewayParentRef
edge = record { name = "edge"; namespace = none; section_name = some "https" }

abbrev pub secret : SecretRef
secret = record { name = "tokens"; key = "tokens.json"; writable = false }

abbrev pub public_route : RouteDesired
public_route = record {
  hostname = "mcp.example.org";
  gateway_ref = edge;
  annotations = [];
  strip_client_identity_headers = true;
  inject_forward_auth_header = none;
  manage = true;
  extra_filters = [];
  path = "/";
  route_name = none;
}

abbrev pub gateway : GatewayDesired
gateway = record {
  key = prod;
  image = "vmcp:1.3";
  admin_token_secret_ref = secret;
  master_password_secret_ref = secret;
  public_route = public_route;
  admin_route = none;
  extra_routes = [];
  persistence = default_persistence;
  tasks = default_tasks;
  proxy = default_proxy;
  gql = default_gql;
  auth = default_auth;
  skill_refs = [];
  identity_strip = record { manage_listener_policy = true };
  public_base_url = none;
  generation = pos 0;
  attachments = [];
}

abbrev pub peer : GatewayDesired
peer = record gateway {
  key = peer_key;
  proxy = record { enabled = true; path = "/peer"; gcf = false };
}

abbrev pub gateways : GatewayRepository
gateways = record {
  get = λ key. if key == prod then some gateway else if key == peer_key then some peer else none;
  list_all = gateway ∷ peer ∷ [];
}

abbrev pub docs_source : McpSource
docs_source =
    remote_http (record { url = "https://docs.example.org/mcp"; bearer_secret_ref = none })

abbrev pub docs : McpServerDesired
docs = record {
  namespace = "ns";
  name = "docs";
  gateway_key = prod;
  enabled = true;
  description = none;
  source = docs_source;
  tool_overrides = [];
  skill_refs = [];
  web_exposures = [];
  forward_identity = false;
}
