-- ===== src/Tests/Objects.antt =====
-- What the passes render and apply.
use vmcp_operator.Base.{
  ◌||◌, String, Bool, true, false, Option, none, some, List, [], ◌∷◌, ◌++◌, map, ◌≡◌, refl, any,
  length, ◌+◌, Result, ok, err, string_eq, traverse,
}
use vmcp_operator.Base.Sorting.{sort_by}
use vmcp_operator.Base.Integer.{pos}
use vmcp_operator.Json.{str, Fields, fields, dict}
use vmcp_operator.Models.Gateway.{GatewayDesired, SecretRef, gateway_key_eq}
use vmcp_operator.Models.Mcp.{McpServerDesired, remote_http, container_image}
use vmcp_operator.Models.Artifacts.{ArtifactBundle, ArtifactFile, UpstreamArtifactsDesired}
use vmcp_operator.Artifacts.{upstreams, upstream, ReconcileGatewayArtifacts}
use vmcp_operator.Apply.{InMemoryApplier}
use vmcp_operator.Gateway.Env.{gateway_env}
use vmcp_operator.Gateway.Env.Bearers.{sets, is_own_var, names_bearer, any-names_bearer}
use vmcp_operator.Gateway.Manifests as Manifests
use vmcp_operator.Gateway.Manifests.Placement.{identity, expected, execute-identity}
use vmcp_operator.Gateway.Workload.{configmap}
use vmcp_operator.Gateway.Workload.Files.{Holds, configmap-Holds}
use vmcp_operator.McpManifests as McpManifests
use vmcp_operator.McpManifests.Exposed as Exposed
use vmcp_operator.McpManifests.Exposed.{identities, identities-execute}
use vmcp_operator.Reconcile.Passes.{GatewayResult, reconcile_gateway}
use vmcp_operator.Reconcile.Passes.Applied.{gateway_pass, reconcile_gateway-applied}
use vmcp_operator.Tests.Fixtures.{gateway, docs}

-- The value of a call, or another one.
abbrev pub value_or {ℓ} : {A : Type ℓ} → Result A → A → A
value_or (ok a) default = a
value_or (err e) default = default

abbrev token : SecretRef
token = record { name = "docs-token"; key = "token"; writable = false }

-- A server with a bearer, and one that runs as a container.
abbrev guarded : McpServerDesired
guarded = record docs {
  name = "docs-api";
  source =
      remote_http (record { url = "https://docs.example.org/mcp"; bearer_secret_ref = some token });
}

abbrev pub contained : McpServerDesired
contained = record docs {
  name = "web";
  source = container_image (record {
    image = "web:1";
    ports = record { name = "http"; container_port = pos 8080; protocol = "TCP" } ∷ [];
    mcp_endpoint = record { port_name = "http"; path = "/mcp" };
    env = ("MODE", "prod") ∷ [];
  });
  web_exposures =
      record {
        name = "ui";
        port_name = "http";
        hostname = "web.example.org";
        paths = "/" ∷ [];
        gateway_ref = none;
        annotations = [];
        public_base_url_env = some "BASE_URL";
      }
      ∷ [];
}

abbrev registry : ArtifactFile
registry = record { path = "registry.json"; content = "{}"; sha256 = "0" }

abbrev bundle : ArtifactBundle
bundle = record {
  files = ("registry.json", registry) ∷ ("skills/a.md", registry) ∷ [];
  registry_sha256 = "1";
  bundle_sha256 = "2";
  total_bytes = 4;
}

abbrev guarded_artifacts : List UpstreamArtifactsDesired
guarded_artifacts =
    record {
      upstream = upstream guarded "https://docs.example.org/mcp" (some "VMCP_BEARER_DOCS_API");
      tool_overrides = [];
    }
    ∷ []

guarded_run : upstreams gateway (guarded ∷ []) ≡ ok guarded_artifacts
unfolding upstreams traverse sort_by gateway_key_eq vmcp_operator.Base.String-discrete
    vmcp_operator.Base.replace_char vmcp_operator.Base.upper
guarded_run = refl

any-names_bearer_example :
    any (sets "VMCP_BEARER_DOCS_API") (gateway_env gateway (guarded ∷ [])) ≡ (
      is_own_var gateway.auth.authentik.forward_auth_secret_ref "VMCP_BEARER_DOCS_API"
      || any (names_bearer "VMCP_BEARER_DOCS_API") guarded_artifacts)
any-names_bearer_example =
    any-names_bearer gateway (guarded ∷ []) guarded_artifacts "VMCP_BEARER_DOCS_API" guarded_run

abbrev manifests : List Fields
manifests = value_or (Manifests.execute gateway bundle [] none) []

manifests_run : Manifests.execute gateway bundle [] none ≡ ok manifests
unfolding Manifests.execute string_eq vmcp_operator.Base.strip traverse
    vmcp_operator.Gateway.Filters.route_filters
manifests_run = refl

execute-identity_example : map identity manifests ≡ expected gateway
execute-identity_example = execute-identity gateway bundle [] none manifests manifests_run

configmap-Holds_example : Holds gateway bundle (configmap gateway bundle)
configmap-Holds_example = configmap-Holds gateway bundle

identities-execute_example :
    identities (McpManifests.execute (λ payload. "hash") gateway contained)
    ≡ Exposed.expected gateway contained
identities-execute_example = identities-execute (λ payload. "hash") gateway contained

abbrev pub renderer : ReconcileGatewayArtifacts
renderer = record { render_bundle = λ us skills. ok bundle; load_skills = λ g mcps. ok [] }

abbrev pub empty_cluster : InMemoryApplier
empty_cluster = record { conflicts_before_success = 1; applied = []; seen = 0 }

abbrev attached : GatewayDesired
attached = record gateway {
  attachments =
      fields (
        ("apiVersion", str "v1")
        ∷ ("kind", str "ConfigMap")
        ∷ ("metadata", dict (("name", str "extra") ∷ []))
        ∷ [])
      ∷ [];
}

abbrev after : Result GatewayResult × InMemoryApplier
after =
    reconcile_gateway (gateway_pass "vmcp-operator" 5 renderer none) attached [] none empty_cluster

abbrev counted : GatewayResult
counted = record {
  phase = "Applied";
  gateway = "ns/prod";
  bundle_sha256 = "2";
  objects = 7;
  admin_hop_header_injected = false;
  listener_policy = "Applied";
  listener_policy_message = "applied prod-identity-strip-edge-https";
}

pass_run :
    reconcile_gateway (gateway_pass "vmcp-operator" 5 renderer none) attached [] none empty_cluster
    ≡ (ok counted, after.1)
unfolding reconcile_gateway vmcp_operator.Artifacts.execute traverse sort_by Manifests.execute
    string_eq vmcp_operator.Base.strip vmcp_operator.Gateway.Filters.route_filters
    vmcp_operator.Apply.server_side_apply vmcp_operator.Base.lower
pass_run = refl

reconcile_gateway-applied_example :
    length (after.1).applied ≡ length empty_cluster.applied + counted.objects
reconcile_gateway-applied_example =
    reconcile_gateway-applied "vmcp-operator" 5 renderer none attached [] none empty_cluster after.1
      counted pass_run
