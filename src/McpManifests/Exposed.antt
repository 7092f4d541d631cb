-- ===== src/McpManifests/Exposed.antt =====
-- Which objects a server gets, and when it gets none.
use vmcp_operator.Base.{
  String, ◌<>◌, Bool, true, false, not, ◌||◌, Option, none, some, List, [], ◌∷◌, map, ◌==◌,
  string_eq, ◌≡◌, refl, sym, ap, ◌∙◌, any, if◌then◌else◌, Error, Result, ok, err, ◌>>=◌, ◌>>◌,
  raise_if, traverse,
}
use vmcp_operator.Json.{Value, str, Fields}
use vmcp_operator.Models.Gateway.{GatewayDesired, gateway_key_eq}
use vmcp_operator.Models.Mcp.{
  McpServerDesired, McpSource, container_image, remote_http, vmcp_proxy, ContainerImageSource,
  NamedPort, WebExposureDesired,
}
use vmcp_operator.Gateway.Manifests.Placement.{Identity, identity}
use vmcp_operator.Reconcile.{as_dict}
use vmcp_operator.Json.{set}
use vmcp_operator.McpManifests.Objects.{
  annotate_checksum, child_name, deployment, service, web_route,
}
use vmcp_operator.McpManifests.{
  port_number, parent_of, exposed, container_manifests, source_manifests, execute,
}

-- The identities of the objects, where there are objects.
unfoldable pub identities : Result (List Fields) → Option (List Identity)
identities (ok os) = some (map identity os)
identities (err e) = none

abbrev of_server : GatewayDesired → McpServerDesired → String → String → Identity
of_server g m kind ending = record {
  kind = some (str kind);
  namespace = some (str g.key.namespace);
  name = some (str ending);
}

abbrev pub has_port : List NamedPort → String → Bool
has_port ports name = any (λ (p : NamedPort). p.name == name) ports

abbrev route_identity : GatewayDesired → McpServerDesired → WebExposureDesired → Identity
route_identity g m e = of_server g m "HTTPRoute" (child_name g m <> ("-" <> e.name))

-- The routes of the exposures, if each names a port.
unfoldable pub expected_routes :
    GatewayDesired
    → McpServerDesired
    → List NamedPort
    → List WebExposureDesired
    → Option (List Identity)
expected_routes g m ports exposures =
    if any (λ (e : WebExposureDesired). not (has_port ports e.port_name)) exposures
    then none
    else some (map (route_identity g m) exposures)

abbrev with_workload :
    GatewayDesired → McpServerDesired → Option (List Identity) → Option (List Identity)
with_workload g m none = none
with_workload g m (some routes) = some (
    of_server g m "Deployment" (child_name g m) ∷ of_server g m "Service" (child_name g m) ∷ routes)

abbrev expected_source : GatewayDesired → McpServerDesired → McpSource → Option (List Identity)
expected_source g m (container_image s) =
    with_workload g m (expected_routes g m s.ports m.web_exposures)
expected_source g m (remote_http s) = some []
expected_source g m (vmcp_proxy s) = some []

-- The objects that a server gets from a gateway, or none at all.
unfoldable pub expected : GatewayDesired → McpServerDesired → Option (List Identity)
unfolding expected_routes
expected g m = if m.gateway_key == g.key then expected_source g m m.source else none

exposed_route :
    (g : GatewayDesired) (m : McpServerDesired) (s : ContainerImageSource) (e : WebExposureDesired)
    (ports : List NamedPort) (rest : Result (List Fields)) (more : Option (List Identity))
    → identities rest ≡ more
    → identities (
        (port_number ports e.port_name >>= λ port.
        ok (web_route g m e (parent_of g e.gateway_ref) port))
        >>= λ o. rest >>= λ os. ok (o ∷ os))
      ≡ (if has_port ports e.port_name
          then elim more [ none ↦ none | some is ↦ some (route_identity g m e ∷ is) ]
          else none)
unfolding port_number identities identity web_route string_eq
exposed_route g m s e [] rest more h = refl
exposed_route g m s e (p ∷ ps) rest more h =
    go (p.name == e.port_name) rest h (exposed_route g m s e ps rest more h)
  where
    go :
        (b : Bool) (r : Result (List Fields))
        → identities r ≡ more
        → identities (
            (port_number ps e.port_name >>= λ port.
            ok (web_route g m e (parent_of g e.gateway_ref) port))
            >>= λ o. r >>= λ os. ok (o ∷ os))
          ≡ (if has_port ps e.port_name
              then elim more [ none ↦ none | some is ↦ some (route_identity g m e ∷ is) ]
              else none)
        → identities (
            ((if b then ok p.container_port else port_number ps e.port_name) >>= λ port.
            ok (web_route g m e (parent_of g e.gateway_ref) port))
            >>= λ o. r >>= λ os. ok (o ∷ os))
          ≡ (if b || has_port ps e.port_name
              then elim more [ none ↦ none | some is ↦ some (route_identity g m e ∷ is) ]
              else none)
    go true (ok os) h h2 = rw (sym h) refl
    go true (err x) h h2 = rw (sym h) refl
    go false r h h2 = h2

routes-traverse-exposed :
    (g : GatewayDesired) (m : McpServerDesired) (s : ContainerImageSource)
    (es : List WebExposureDesired)
    → identities (traverse (exposed g m s) es) ≡ expected_routes g m s.ports es
unfolding traverse exposed expected_routes identities
routes-traverse-exposed g m s [] = refl
routes-traverse-exposed g m s (e ∷ es) =
    exposed_route g m s e s.ports (traverse (exposed g m s) es)
      (if any (λ (x : WebExposureDesired). not (has_port s.ports x.port_name)) es
        then none
        else some (map (route_identity g m) es))
      (routes-traverse-exposed g m s es)
    ∙ go (has_port s.ports e.port_name)
        (any (λ (x : WebExposureDesired). not (has_port s.ports x.port_name)) es)
  where
    go :
        (b c : Bool)
        → (if b
            then elim (if c then none else some (map (route_identity g m) es)) [
              | none ↦ none
              | some is ↦ some (route_identity g m e ∷ is)
            ]
            else none)
          ≡ (if not b || c then none else some (map (route_identity g m) (e ∷ es)))
    go true true = refl
    go true false = refl
    go false c = refl

identities-deployment :
    (g : GatewayDesired) (m : McpServerDesired) (s : ContainerImageSource)
    (env : List (String × String)) (checksum : String) (r : Result (List Fields))
    → identities (
        deployment g m s env checksum >>= λ workload.
        r >>= λ routes. ok (workload ∷ service g m s ∷ routes))
      ≡ with_workload g m (identities r)
unfolding deployment service identities identity string_eq annotate_checksum as_dict set
identities-deployment g m s env checksum (ok os) = refl
identities-deployment g m s env checksum (err x) = refl

identities-source_manifests :
    (sha256 : Value → String) (g : GatewayDesired) (m : McpServerDesired) (s : McpSource)
    → identities (source_manifests sha256 g m s) ≡ expected_source g m s
unfolding container_manifests identities
identities-source_manifests sha256 g m (container_image s) =
    identities-deployment g m s _ _ (traverse (exposed g m s) m.web_exposures)
    ∙ ap (with_workload g m) (routes-traverse-exposed g m s m.web_exposures)
identities-source_manifests sha256 g m (remote_http s) = refl
identities-source_manifests sha256 g m (vmcp_proxy s) = refl

-- The objects of a server, with their kinds, names and namespaces: none at all, but an error, if
-- the server names another gateway or a container lacks the port of an exposure; no object for a
-- server that is reached by URL; and for a container a Deployment, a Service and one HTTPRoute
-- for each exposure, in the gateway's namespace.
pub identities-execute :
    (sha256 : Value → String) (g : GatewayDesired) (m : McpServerDesired)
    → identities (execute sha256 g m) ≡ expected g m
unfolding execute expected identities
identities-execute sha256 g m = go (m.gateway_key == g.key) _
  where
    go :
        (b : Bool) (e : Error)
        → identities (raise_if (not b) e >> source_manifests sha256 g m m.source)
          ≡ (if b then expected_source g m m.source else none)
    go true e = identities-source_manifests sha256 g m m.source
    go false e = refl
