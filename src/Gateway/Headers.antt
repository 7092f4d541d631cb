-- ===== src/Gateway/Headers.antt =====
-- python/vmcp_operator/domain/usecases/render_gateway_manifests.py: which request headers a route
-- removes.
pub mod Coverage
use vmcp_operator.Base.{
  String, Bool, true, false, not, ◌&&◌, ◌||◌, Option, none, some, List, [], ◌∷◌, ◌++◌, ◌==◌,
  string_eq, if◌then◌else◌, any, contains, select, lower, starts_with, truthy,
}
use vmcp_operator.Models.Gateway.{
  GatewayDesired, RouteDesired, SecretRef, public_strip_identity_headers,
}

-- The loops that drop a header whose name, in lower case, was seen before: `_dedupe_header_names`,
-- and the second loop of `_identity_remove_headers`.
unfoldable pub dedupe_from : List String → List String → List String
dedupe_from seen [] = []
dedupe_from seen (name ∷ names) =
    let key = lower name in
    let rest = dedupe_from (if contains seen key then seen else key ∷ seen) names in
    if contains seen key then rest else name ∷ rest

-- `_dedupe_header_names`
unfoldable pub dedupe_header_names : List String → List String
unfolding dedupe_from
dedupe_header_names names = dedupe_from [] names

-- The first loop of `_identity_remove_headers`: a custom header joins unless it is listed.
unfoldable pub add_custom : List String → List String → List String
add_custom headers [] = headers
add_custom headers (custom ∷ customs) =
    add_custom
      (if any (λ h. lower h == lower custom) headers then headers else headers ++ custom ∷ [])
      customs

-- `_identity_remove_headers`
unfoldable pub identity_remove_headers : GatewayDesired → List String
unfolding add_custom dedupe_from
identity_remove_headers gateway =
    let ak = gateway.auth.authentik in
    dedupe_from [] (
      add_custom public_strip_identity_headers
        (ak.username_header ∷ ak.groups_header ∷ ak.forward_auth_secret_header ∷ []))

abbrev pub is_given {ℓ} : {A : Type ℓ} → Option A → Bool
is_given none = false
is_given (some a) = true

-- `wants_hop_inject`
unfoldable pub wants_hop_inject : RouteDesired → GatewayDesired → Bool
wants_hop_inject route gateway = elim route.inject_forward_auth_header [
  | none ↦ is_given gateway.auth.authentik.forward_auth_secret_ref
  | some want ↦ want
]

-- `_is_forward_auth_identity_header`
unfoldable pub is_forward_auth_identity_header : GatewayDesired → String → Bool
is_forward_auth_identity_header gateway header =
    let key = lower header in
    let ak = gateway.auth.authentik in
    starts_with key "x-authentik-"
    || key == lower ak.username_header
    || key == lower ak.groups_header

-- `if hop_header: …`
unfoldable pub without_hop : Option String → List String → List String
without_hop none headers = headers
without_hop (some hop) headers =
    if truthy hop then select (λ h. not (lower h == lower hop)) headers else headers

-- `_strip_headers_for_route`
unfoldable pub strip_headers_for_route :
    GatewayDesired → RouteDesired → Bool → Option String → List String
unfolding identity_remove_headers without_hop
strip_headers_for_route gateway route inject hop_header =
    if not route.strip_client_identity_headers
    then []
    else if inject && wants_hop_inject route gateway
    then without_hop hop_header (
        select (λ h. not (is_forward_auth_identity_header gateway h))
          (identity_remove_headers gateway))
    else identity_remove_headers gateway
