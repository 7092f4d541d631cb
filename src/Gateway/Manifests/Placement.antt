-- ===== src/Gateway/Manifests/Placement.antt =====
-- Which objects a gateway gets, under which names.
use vmcp_operator.Base.{
  String, ◌<>◌, Bool, true, false, Option, none, some, List, [], ◌∷◌, ◌++◌, map, ◌≡◌, refl, sym, ap,
  ◌∙◌, select, ok, ◌>>=◌, >>=-eq-ok, ok-injective, traverse, string_eq, if◌then◌else◌,
}
use vmcp_operator.Json.{Value, str, Fields, get}
use vmcp_operator.Models.Gateway.{GatewayDesired, RouteDesired}
use vmcp_operator.Models.Mcp.{McpServerDesired}
use vmcp_operator.Models.Artifacts.{ArtifactBundle}
use vmcp_operator.Gateway.Filters.{dict_or_empty, route_filters}
use vmcp_operator.Gateway.Routes.{httproute}
use vmcp_operator.Gateway.Workload.{volume_claim, configmap, service, flatten_files}
use vmcp_operator.Gateway.Deployment.{deployment}
use vmcp_operator.Gateway.Manifests.{
  Placed, if_managed, admin_placed, extra_suffix, extras_placed, placed_routes, placed_route,
  execute,
}

-- What tells an object of a cluster from the others.
pub record Identity : Type 0 where
  pub kind : Option Value
  pub namespace : Option Value
  pub name : Option Value

unfoldable pub identity : Fields → Identity
identity object = record {
  kind = get object "kind";
  namespace = get (dict_or_empty (get object "metadata")) "namespace";
  name = get (dict_or_empty (get object "metadata")) "name";
}

-- An object in the gateway's namespace whose name starts with the gateway's.
abbrev pub in_gateway : GatewayDesired → String → String → Identity
in_gateway g kind ending = record {
  kind = some (str kind);
  namespace = some (str g.key.namespace);
  name = some (str (g.key.name <> ending));
}

abbrev of_gateway : GatewayDesired → String → Identity
of_gateway g kind = record {
  kind = some (str kind);
  namespace = some (str g.key.namespace);
  name = some (str g.key.name);
}

abbrev pub admin_route : Option RouteDesired → List (String × RouteDesired)
admin_route none = []
admin_route (some route) = ("admin", route) ∷ []

abbrev pub named_extra : RouteDesired → String × RouteDesired
named_extra r = (extra_suffix r.route_name, r)

-- All routes of a gateway with their names.
abbrev pub named_routes : GatewayDesired → List (String × RouteDesired)
named_routes g =
    ("public", g.public_route) ∷ (admin_route g.admin_route ++ map named_extra g.extra_routes)

abbrev pub route_identity : GatewayDesired → String × RouteDesired → Identity
route_identity g (suffix, route) = in_gateway g "HTTPRoute" ("-" <> suffix)

abbrev objects : GatewayDesired → Identity → List Identity → List Identity
objects g cm routes =
    in_gateway g "PersistentVolumeClaim" "-state"
    ∷ cm
    ∷ of_gateway g "Service"
    ∷ of_gateway g "Deployment"
    ∷ routes

-- The objects of a gateway: four, and an HTTPRoute for each managed route.
unfoldable pub expected : GatewayDesired → List Identity
expected g =
    objects g (in_gateway g "ConfigMap" "-artifacts")
      (map (route_identity g) (select (λ r. r.1.manage) (named_routes g)))

placed_identity : GatewayDesired → Placed → Identity
placed_identity g p = in_gateway g "HTTPRoute" ("-" <> p.suffix)

placed_route-identity :
    (g : GatewayDesired) (v : Option String) (p : Placed) (o : Fields)
    → placed_route g v p ≡ ok o
    → identity o ≡ placed_identity g p
unfolding placed_route httproute identity string_eq placed_identity
placed_route-identity g v p o h =
    let (fs, e, h2) =
      >>=-eq-ok (route_filters g p.route (if p.inject then v else none) p.inject) (λ _. ok _) h in
    ap identity (sym (ok-injective _ _ h2))

traverse-placed_route :
    (g : GatewayDesired) (v : Option String) (ps : List Placed) (os : List Fields)
    → traverse (placed_route g v) ps ≡ ok os
    → map identity os ≡ map (placed_identity g) ps
unfolding traverse
traverse-placed_route g v [] os h = ap (map identity) (sym (ok-injective _ _ h))
traverse-placed_route g v (p ∷ ps) os h =
    let (o, e, h2) =
      >>=-eq-ok (placed_route g v p) (λ _. traverse (placed_route g v) ps >>= λ _. ok _) h in
    let (rest, e2, h3) = >>=-eq-ok (traverse (placed_route g v) ps) (λ _. ok _) h2 in
    ap (map identity) (sym (ok-injective _ _ h3))
    ∙ ap (λ i. i ∷ map identity rest) (placed_route-identity g v p o e)
    ∙ ap (λ is. placed_identity g p ∷ is) (traverse-placed_route g v ps rest e2)

map-if_managed :
    (g : GatewayDesired) (r : RouteDesired) (suffix : String) (inject : Bool) (ps : List Placed)
    (rs : List (String × RouteDesired))
    → map (placed_identity g) ps ≡ map (route_identity g) (select (λ r. r.1.manage) rs)
    → map
        (placed_identity g)
        (if_managed (record { route = r; suffix = suffix; inject = inject }) ++ ps)
      ≡ map (route_identity g) (select (λ r. r.1.manage) ((suffix, r) ∷ rs))
unfolding placed_identity
map-if_managed g r suffix inject ps rs h = go r.manage
  where
    go :
        (b : Bool)
        → map
            (placed_identity g)
            ((if b then record { route = r; suffix = suffix; inject = inject } ∷ [] else []) ++ ps)
          ≡ map
              (route_identity g)
              (if b then (suffix, r) ∷ select (λ r. r.1.manage) rs else select (λ r. r.1.manage) rs)
    go true = ap (λ is. route_identity g (suffix, r) ∷ is) h
    go false = h

map-extras_placed :
    (g : GatewayDesired) (rs : List RouteDesired)
    → map (placed_identity g) (extras_placed rs)
      ≡ map (route_identity g) (select (λ r. r.1.manage) (map named_extra rs))
unfolding extras_placed
map-extras_placed g [] = refl
map-extras_placed g (r ∷ rs) =
    map-if_managed g r _ true _ (map named_extra rs) (map-extras_placed g rs)

map-placed_routes :
    (g : GatewayDesired)
    → map (placed_identity g) (placed_routes g)
      ≡ map (route_identity g) (select (λ r. r.1.manage) (named_routes g))
unfolding placed_routes
map-placed_routes g =
    map-if_managed g g.public_route "public" false _
      (admin_route g.admin_route ++ map named_extra g.extra_routes) (go g.admin_route)
  where
    go :
        (o : Option RouteDesired)
        → map (placed_identity g) (admin_placed o ++ extras_placed g.extra_routes)
          ≡ map
              (route_identity g)
              (select (λ r. r.1.manage) (admin_route o ++ map named_extra g.extra_routes))
    go none = map-extras_placed g g.extra_routes
    go (some r) =
        map-if_managed g r "admin" true _ (map named_extra g.extra_routes)
          (map-extras_placed g g.extra_routes)

configmap-identity :
    (g : GatewayDesired) (a : ArtifactBundle) (cm : Fields)
    → configmap g a ≡ ok cm
    → identity cm ≡ in_gateway g "ConfigMap" "-artifacts"
unfolding configmap identity string_eq
configmap-identity g a cm h =
    let (d, e, h2) = >>=-eq-ok (flatten_files [] a.files) (λ _. ok _) h in
    ap identity (sym (ok-injective _ _ h2))

-- The manifests of a gateway, where there are some, are a volume claim, a ConfigMap, a Service, a
-- Deployment and one HTTPRoute for each managed route, in this order, all in the gateway's
-- namespace and with the names that the gateway and the route give them.
pub execute-identity :
    (g : GatewayDesired) (a : ArtifactBundle) (ms : List McpServerDesired) (v : Option String)
    (os : List Fields)
    → execute g a ms v ≡ ok os
    → map identity os ≡ expected g
unfolding execute expected identity string_eq volume_claim service deployment
execute-identity g a ms v os h =
    let (cm, e, h2) =
      >>=-eq-ok (configmap g a) (λ _. traverse (placed_route g v) (placed_routes g) >>= λ _. ok _)
        h in
    let (routes, e2, h3) =
      >>=-eq-ok (traverse (placed_route g v) (placed_routes g)) (λ _. ok _) h2 in
    ap (map identity) (sym (ok-injective _ _ h3))
    ∙ ap (λ c. objects g c (map identity routes)) (configmap-identity g a cm e)
    ∙ ap (objects g (in_gateway g "ConfigMap" "-artifacts"))
        (traverse-placed_route g v (placed_routes g) routes e2 ∙ map-placed_routes g)
