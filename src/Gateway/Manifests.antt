-- ===== src/Gateway/Manifests.antt =====
-- python/vmcp_operator/domain/usecases/render_gateway_manifests.py: RenderGatewayManifests.
pub mod Placement
use vmcp_operator.Base.{
  String, Bool, true, false, Option, none, some, List, [], ◌∷◌, ◌++◌, if◌then◌else◌, truthy, Result,
  ok, ◌>>=◌, traverse,
}
use vmcp_operator.Json.{Fields}
use vmcp_operator.Models.Gateway.{GatewayDesired, RouteDesired}
use vmcp_operator.Models.Mcp.{McpServerDesired}
use vmcp_operator.Models.Artifacts.{ArtifactBundle}
use vmcp_operator.Gateway.EarlyStrip.{gateway_labels}
use vmcp_operator.Gateway.Routes.{httproute}
use vmcp_operator.Gateway.Workload.{volume_claim, configmap, service}
use vmcp_operator.Gateway.Deployment.{deployment}

-- A route with what `execute` passes to `_httproute` beside it.
pub record Placed : Type 0 where
  pub route : RouteDesired
  pub suffix : String
  pub inject : Bool

-- `if route.manage`
abbrev pub if_managed : Placed → List Placed
if_managed placed = if placed.route.manage then placed ∷ [] else []

abbrev pub admin_placed : Option RouteDesired → List Placed
admin_placed none = []
admin_placed (some route) = if_managed (record { route = route; suffix = "admin"; inject = true })

-- `extra.route_name or "extra"`
abbrev pub extra_suffix : Option String → String
extra_suffix none = "extra"
extra_suffix (some name) = if truthy name then name else "extra"

unfoldable pub extras_placed : List RouteDesired → List Placed
extras_placed [] = []
extras_placed (extra ∷ extras) =
    if_managed (record { route = extra; suffix = extra_suffix extra.route_name; inject = true })
    ++ extras_placed extras

-- The routes that get an HTTPRoute, in their order.
unfoldable pub placed_routes : GatewayDesired → List Placed
unfolding extras_placed
placed_routes gateway =
    if_managed (record { route = gateway.public_route; suffix = "public"; inject = false })
    ++ (admin_placed gateway.admin_route ++ extras_placed gateway.extra_routes)

-- The HTTPRoute of one of them: the value of the hop header goes only where it may be injected.
unfoldable pub placed_route : GatewayDesired → Option String → Placed → Result Fields
unfolding httproute
placed_route gateway value placed =
    httproute gateway placed.route placed.suffix (gateway_labels gateway.key.name) placed.inject
      (if placed.inject then value else none)

-- `RenderGatewayManifests.execute`
unfoldable pub execute :
    GatewayDesired → ArtifactBundle → List McpServerDesired → Option String → Result (List Fields)
unfolding volume_claim configmap service deployment placed_routes placed_route
execute gateway artifacts mcps forward_auth_header_value = do
  cm ← configmap gateway artifacts
  routes ← traverse (placed_route gateway forward_auth_header_value) (placed_routes gateway)
  ok (volume_claim gateway ∷ cm ∷ service gateway ∷ deployment gateway artifacts mcps ∷ routes)
