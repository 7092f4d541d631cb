-- ===== src/Tests/Text.antt =====
-- Headers, filters and texts that the operator renders.
use vmcp_operator.Base.{
  ℕ, ◌≤◌, String, ◌<>◌, Bool, true, false, not, ◌&&◌, ◌||◌, Option, none, some, List, [], ◌∷◌, ◌++◌,
  map, ◌≡◌, ◌≢◌, refl, ok, err, contains, any, NoDuplicates, length, select, lower, string_eq,
  has_char, ◌==◌,
}
use vmcp_operator.Base.Dict.{Dict, lookup}
use vmcp_operator.Json.{str, Fields, fields, dict, list}
use vmcp_operator.Models.Gateway.{gateway_key_eq, parent_ref_eq, public_strip_identity_headers}
use vmcp_operator.Gateway.Headers.{
  identity_remove_headers, strip_headers_for_route, wants_hop_inject,
}
use vmcp_operator.Gateway.Headers.Coverage.{
  removes, identity_key, hop_key, removes-strip_headers_for_route,
}
use vmcp_operator.Gateway.Filters.{route_filters}
use vmcp_operator.Gateway.Filters.Single.{modifiers, others, route_filters_single}
use vmcp_operator.Gateway.EarlyStrip.{
  plan_early_identity_strip, listener_policy, listener_policy_name,
}
use vmcp_operator.Gateway.EarlyStrip.Parents.{
  local_parents, is_stripped, stays_in, objects-plan_early_identity_strip,
}
use vmcp_operator.Gateway.EarlyStrip.Names.{listener_policy_name_collision}
use vmcp_operator.Artifacts.{upstreams, upstream}
use vmcp_operator.Models.Artifacts.{UpstreamArtifactsDesired}
use vmcp_operator.Config.{toml_str}
use vmcp_operator.Config.Quoting.{read_basic, read_basic-toml_str}
use vmcp_operator.Enqueue.{gateway_key_from_owner}
use vmcp_operator.Enqueue.Keys.{gateway_key_from_owner-as_str}
use vmcp_operator.Tests.Fixtures.{prod, gateway, public_route, edge, docs}

removes-strip_headers_for_route_example :
    removes (strip_headers_for_route gateway public_route true (some "X-Hop")) "x-authentik-uid" ≡ (
      public_route.strip_client_identity_headers
      && removes (identity_remove_headers gateway) "x-authentik-uid"
      && not (
          true
          && wants_hop_inject public_route gateway
          && (identity_key gateway "x-authentik-uid" || hop_key (some "X-Hop") "x-authentik-uid")))
removes-strip_headers_for_route_example =
    removes-strip_headers_for_route gateway public_route true (some "X-Hop") "x-authentik-uid"

objects-plan_early_identity_strip_example :
    ((plan_early_identity_strip gateway).objects
      ≡ map (listener_policy gateway) (local_parents gateway))
    × (contains (local_parents gateway) edge
        ≡ (is_stripped gateway edge && stays_in gateway.key.namespace edge.namespace))
    × NoDuplicates (local_parents gateway)
objects-plan_early_identity_strip_example = objects-plan_early_identity_strip gateway edge refl

listener_policy_name_collision_example :
    listener_policy_name "prod" (record { name = "a"; namespace = none; section_name = some "b" })
    ≡ listener_policy_name "prod"
        (record { name = "a" <> ("-" <> "b"); namespace = none; section_name = none })
listener_policy_name_collision_example =
    listener_policy_name_collision "prod" "a" "b" none none refl

read_basic-toml_str_example :
    read_basic false (toml_str "a\"b\\" <> ("\"" <> "\nx = 1")) ≡ some ("a\"b\\", "\nx = 1")
read_basic-toml_str_example = read_basic-toml_str "a\"b\\" "\nx = 1"

abbrev annotations : Dict String
annotations = ("vmcp.io/gateway-key", "ns/prod") ∷ []

annotated : lookup "vmcp.io/gateway-key" annotations ≡ some "ns/prod"
unfolding lookup string_eq
annotated = refl

no_slash : has_char 47 "ns" ≡ false
unfolding has_char
no_slash = refl

no_label : lookup {V = String} "vmcp.io/gateway" [] ≡ none
unfolding lookup
no_label = refl

gateway_key_from_owner-as_str_example : gateway_key_from_owner "other" annotations [] ≡ some prod
gateway_key_from_owner-as_str_example =
    gateway_key_from_owner-as_str "other" prod annotations [] no_label annotated no_slash

abbrev docs_artifacts : UpstreamArtifactsDesired
docs_artifacts = record {
  upstream = upstream docs "https://docs.example.org/mcp" none;
  tool_overrides = [];
}

upstreams_run : upstreams gateway (docs ∷ []) ≡ ok (docs_artifacts ∷ [])
unfolding upstreams vmcp_operator.Base.traverse vmcp_operator.Base.Sorting.sort_by gateway_key_eq
    vmcp_operator.Base.String-discrete
upstreams_run = refl

abbrev strip_filter : Fields
strip_filter = fields (
    ("type", str "RequestHeaderModifier")
    ∷ (
      "requestHeaderModifier",
      dict (("remove", list (map str public_strip_identity_headers)) ∷ []),
    )
    ∷ [])

filters_run : route_filters gateway public_route none false ≡ ok (strip_filter ∷ [])
unfolding route_filters strip_headers_for_route string_eq lower vmcp_operator.Base.Dict.values
filters_run = refl

route_filters_single_example :
    (length (modifiers (strip_filter ∷ [])) ≤ 1)
    × (others (strip_filter ∷ []) ≡ others public_route.extra_filters)
route_filters_single_example =
    route_filters_single gateway public_route none false (strip_filter ∷ []) filters_run
