-- ===== src/Tests/Specs.antt =====
-- Specs that are mapped, stored and compared.
use vmcp_operator.Base.{
  ℕ, String, Bool, true, false, Option, none, some, List, [], ◌∷◌, ◌++◌, ◌≡◌, ◌↔◌, refl, ◌>>=◌,
  Result, ok, err, value_error,
}
use vmcp_operator.Base.Integer.{ℤ, pos}
use vmcp_operator.Json.{Value, str, bool, num, obj, Fields, fields, dict, list, get}
use vmcp_operator.Models.Gateway.{GatewayDesired}
use vmcp_operator.Models.Mcp.{McpServerDesired, vmcp_proxy}
use vmcp_operator.Gateway.Filters.{dict_or_empty}
use vmcp_operator.Mapping.GatewaySpec.{map_gateway}
use vmcp_operator.Mapping.GatewaySpec.Accepted.{IsAccepted, map_gateway-IsAccepted}
use vmcp_operator.Mapping.McpBody.{mcp_to_crd}
use vmcp_operator.Mapping.McpBody.RoundTrip.{ServerIsStorable, read_crd, read_crd-mcp_to_crd}
use vmcp_operator.Immutable.{check_gateway_immutables}
use vmcp_operator.Immutable.Kept.{VolumeIsKept, check_gateway_immutables-VolumeIsKept}
use vmcp_operator.Tests.Fixtures.{gateway, peer_key}
use vmcp_operator.Tests.Objects.{contained, value_or}

abbrev route_spec : String → String → Value
route_spec name path = dict (("name", str name) ∷ ("path", str path) ∷ ("manage", bool true) ∷ [])

abbrev pub gateway_spec : Fields
gateway_spec = fields (
    (
      "publicRoute",
      dict (
          ("hostname", str "mcp.example.org")
          ∷ ("gatewayRef", dict (("name", str "edge") ∷ []))
          ∷ ("injectForwardAuthHeader", bool true)
          ∷ []),
    )
    ∷ ("adminRoute", dict (("stripClientIdentityHeaders", bool false) ∷ []))
    ∷ ("extraRoutes", list (route_spec "mcp-b" "/b" ∷ route_spec " c " "/c" ∷ []))
    ∷ ("image", str "vmcp:1.3")
    ∷ ("adminTokenSecretRef", dict (("name", str "tokens") ∷ []))
    ∷ ("masterPasswordSecretRef", dict (("name", str "master") ∷ []))
    ∷ ("persistence", dict (("size", str "5Gi") ∷ ("storageClassName", str "fast") ∷ []))
    ∷ [])

abbrev pub mapped : GatewayDesired
mapped = value_or (map_gateway "ns" "prod" gateway_spec) gateway

pub mapped_run : map_gateway "ns" "prod" gateway_spec ≡ ok mapped
unfolding map_gateway vmcp_operator.Base.string_eq vmcp_operator.Base.strip
    vmcp_operator.Json.Access.to_iter vmcp_operator.Base.starts_with vmcp_operator.Base.traverse
mapped_run = refl

map_gateway-IsAccepted_example : IsAccepted mapped
map_gateway-IsAccepted_example = map_gateway-IsAccepted "ns" "prod" gateway_spec mapped mapped_run

-- A server with every kind of entry.
abbrev stored : McpServerDesired
stored = record contained {
  description = some "docs";
  source = vmcp_proxy (record {
    peer = peer_key;
    path = "/peer";
    port = pos 8080;
    bearer_secret_ref = some (record { name = "peer-token"; key = "token"; writable = false });
  });
  tool_overrides =
      record { name = "search"; read_only = true; task_support = some "optional" } ∷ [];
  skill_refs = record { name = "skill"; key = none } ∷ [];
  web_exposures =
      record {
        name = "ui";
        port_name = "http";
        hostname = "web.example.org";
        paths = "/" ∷ [];
        gateway_ref = none;
        annotations = ("a", "1") ∷ ("b", "2") ∷ [];
        public_base_url_env = some "BASE_URL";
      }
      ∷ [];
}

stored-ServerIsStorable : ServerIsStorable stored
unfolding ServerIsStorable vmcp_operator.Mapping.McpBody.Source.IsStorable
    vmcp_operator.McpManifests.Objects.sort_pairs vmcp_operator.Base.string_eq
stored-ServerIsStorable = (
  refl,
  (refl, refl, refl, refl, refl),
  (refl, tt),
  (tt, tt),
  ((tt, refl, (refl, (refl, tt)), refl), tt),
)

read_crd-mcp_to_crd_example : (mcp_to_crd stored >>= read_crd) ≡ ok stored
read_crd-mcp_to_crd_example = read_crd-mcp_to_crd stored stored-ServerIsStorable

-- Whole numbers only.
abbrev pub scaled : String → ℕ → Result ℤ
scaled text factor = err (value_error "no fractions here")

abbrev volume : String → Fields
volume size = fields (
    (
      "persistence",
      dict (
          ("size", str size)
          ∷ ("storageClassName", str "fast")
          ∷ ("reclaimPolicy", str "Retain")
          ∷ []),
    )
    ∷ [])

grown_run : check_gateway_immutables scaled (volume "1000") (volume "2000") ≡ ok []
unfolding check_gateway_immutables vmcp_operator.Base.string_eq vmcp_operator.Base.ends_with
    vmcp_operator.Base.upper vmcp_operator.Base.strip vmcp_operator.Json.Access.int_of_str
grown_run = refl

check_gateway_immutables-VolumeIsKept_example :
    (check_gateway_immutables scaled (volume "1000") (volume "2000") ≡ ok [])
    ↔ VolumeIsKept scaled
        (dict_or_empty (get (volume "1000") "persistence"))
        (dict_or_empty (get (volume "2000") "persistence"))
check_gateway_immutables-VolumeIsKept_example =
    check_gateway_immutables-VolumeIsKept scaled (volume "1000") (volume "2000")
