-- ===== src/Mapping/GatewaySpec.antt =====
-- `map_gateway`
pub mod AcceptedRoutes
pub mod Accepted
use vmcp_operator.Base.{
  String, Bool, true, false, Option, none, some, List, [], ◌∷◌, map, if◌then◌else◌, strip,
  value_error, Result, ok, err, ◌>>=◌, traverse,
}
use vmcp_operator.Base.Integer.{pos}
use vmcp_operator.Json.{Value, Fields, get, list}
use vmcp_operator.Json.Access.{truth, to_str, item, or_value, to_text?}
use vmcp_operator.Models.Gateway.{
  GatewayDesired, PersistenceDesired, TasksDesired, ProxyDesired, GqlDesired, RouteDesired,
}
use vmcp_operator.Gateway.Filters.{only_dicts}
use vmcp_operator.Mapping.Values.{
  fields_of, section, text_at, bool_at, int_at, elements, secret_ref, skill_ref,
}
use vmcp_operator.Mapping.Routes.{Role, public_role, admin_role, route, extra_routes}
use vmcp_operator.Mapping.Auth.{map_auth}

-- A route that need not be there.
unfoldable pub optional_route : Option Value → RouteDesired → Result (Option RouteDesired)
unfolding route
optional_route none inherit_from = ok none
optional_route (some raw) inherit_from =
    if truth raw then route raw admin_role (some inherit_from) >>= (λ r. ok (some r)) else ok none

unfoldable pub public_route_of : Option Value → Result RouteDesired
unfolding route
public_route_of none = err (value_error "publicRoute is required")
public_route_of (some raw) =
    if truth raw then route raw public_role none else err (value_error "publicRoute is required")

unfoldable pub persistence_of : Value → Result PersistenceDesired
persistence_of raw = do
  persistence ← fields_of raw
  storage_class_name ← to_text? (get persistence "storageClassName")
  ok (record {
    size = text_at persistence "size" "5Gi";
    storage_class_name = storage_class_name;
    reclaim_policy = text_at persistence "reclaimPolicy" "Retain";
  })

unfoldable pub tasks_of : Value → Result TasksDesired
tasks_of raw = do
  tasks ← fields_of raw
  max_concurrent ← int_at tasks "maxConcurrent" (pos 1)
  ok (record { enabled = bool_at tasks "enabled" false; max_concurrent = max_concurrent })

unfoldable pub proxy_of : Value → Result ProxyDesired
proxy_of raw = do
  proxy ← fields_of raw
  ok (record {
    enabled = bool_at proxy "enabled" false;
    path = text_at proxy "path" "/mcp-proxy";
    gcf = bool_at proxy "gcf" false;
  })

unfoldable pub gql_of : Value → Result GqlDesired
gql_of raw = do
  gql ← fields_of raw
  max_complexity ← int_at gql "maxComplexity" (pos 1000)
  max_depth ← int_at gql "maxDepth" (pos 10)
  ok (record {
    max_complexity = max_complexity;
    max_depth = max_depth;
    gcf = bool_at gql "gcf" false;
  })

-- `d.get(key) or {}`
abbrev pub part_at : Fields → String → Value
part_at d key = or_value (get d key) (Value.obj Fields.end)

abbrev base_url : Option Value → Option String
base_url none = none
base_url (some v) = if truth v then some (strip (to_str v)) else none

-- The routes of the spec: the public one, the admin one and the extra ones.
unfoldable pub routes_of : Fields → Result (RouteDesired × Option RouteDesired × List RouteDesired)
unfolding public_route_of optional_route extra_routes
routes_of spec = do
  public ← public_route_of (get spec "publicRoute")
  admin ← optional_route (get spec "adminRoute") public
  extras ← extra_routes (or_value (get spec "extraRoutes") (list [])) public
  ok (public, admin, extras)

-- `map_gateway`
unfoldable pub map_gateway : String → String → Fields → Result GatewayDesired
unfolding routes_of secret_ref persistence_of tasks_of proxy_of gql_of map_auth skill_ref
map_gateway namespace name spec = do
  routes ← routes_of spec
  image ← item spec "image"
  admin_raw ← item spec "adminTokenSecretRef"
  admin_token ← secret_ref admin_raw "token"
  master_raw ← item spec "masterPasswordSecretRef"
  master_password ← secret_ref master_raw "password"
  persistence ← persistence_of (part_at spec "persistence")
  tasks ← tasks_of (part_at spec "tasks")
  proxy ← proxy_of (part_at spec "proxy")
  gql ← gql_of (part_at spec "gql")
  identity ← section spec "identityStrip"
  auth_raw ← section spec "auth"
  auth ← map_auth auth_raw
  skill_raw ← elements spec "skillRefs"
  skill_refs ← traverse skill_ref skill_raw
  attachments ← elements spec "attachments"
  ok (record {
    key = record { namespace = namespace; name = name };
    image = to_str image;
    admin_token_secret_ref = admin_token;
    master_password_secret_ref = master_password;
    public_route = routes.0;
    admin_route = routes.1;
    extra_routes = routes.2;
    persistence = persistence;
    tasks = tasks;
    proxy = proxy;
    gql = gql;
    auth = auth;
    skill_refs = skill_refs;
    identity_strip = record {
      manage_listener_policy = bool_at identity "manageListenerPolicy" true;
    };
    public_base_url = base_url (get spec "publicBaseUrl");
    generation = pos 1;
    attachments = only_dicts attachments;
  })
