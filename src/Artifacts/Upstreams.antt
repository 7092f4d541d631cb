-- ===== src/Artifacts/Upstreams.antt =====
-- Which upstreams the registry of a gateway gets.
use vmcp_operator.Base.{
  String, Bool, true, false, not, ◌&&◌, Option, none, some, List, [], ◌∷◌, map, ◌==◌, string_eq,
  ◌≡◌, refl, ap, sym, ◌∙◌, contains, any, arith, Result, ok, err, ◌>>=◌, Error, raise_if, ◌>>◌, All,
  traverse,
}
use vmcp_operator.Base.Sorting.{sort_by, contains-sort_by}
use vmcp_operator.Models.Gateway.{GatewayDesired, gateway_key_eq}
use vmcp_operator.Models.Mcp.{
  McpServerDesired, McpSource, container_image, remote_http, vmcp_proxy, NamedPort, cluster_url,
}
use vmcp_operator.Models.Artifacts.{UpstreamDesired, UpstreamArtifactsDesired}
use vmcp_operator.Artifacts.{
  upstream_of, artifacts_of, upstreams, enabled_mcps, find_port, upstream, container_upstream,
  bearer_env, override_artifact,
}
use vmcp_operator.Ports.{is_some}

-- A source that can become an upstream of the gateway: no proxy to the gateway itself, and an
-- endpoint whose port is declared.
unfoldable pub is_routable : GatewayDesired → McpSource → Bool
is_routable g (remote_http s) = true
is_routable g (vmcp_proxy s) = not (s.peer == g.key)
is_routable g (container_image s) = is_some (find_port s.mcp_endpoint.port_name s.ports)

-- The parts of an upstream that do not depend on the kind of source.
unfoldable pub Describes : UpstreamDesired → McpServerDesired → Type 0
Describes u m =
    (u.name ≡ m.name)
    × (u.enabled ≡ true)
    × (u.description ≡ m.description)
    × (u.forward_identity ≡ m.forward_identity)

-- A test decides whether a result is a value, and the value describes the server.
unfoldable pub Outcome : Bool → Result UpstreamDesired → McpServerDesired → Type 0
Outcome true (ok u) m = Describes u m
Outcome false (err e) m = Unit
Outcome _ _ m = ⊥

upstream-Describes :
    (m : McpServerDesired) (url : String) (bearer : Option String)
    → Describes (upstream m url bearer) m
unfolding Describes
upstream-Describes m url bearer = (refl, refl, refl, refl)

-- A server becomes an upstream exactly if its source is routable, and otherwise an error; the
-- upstream has the server's name, description and identity forwarding, and is enabled.
pub upstream_of-Outcome :
    (g : GatewayDesired) (m : McpServerDesired) (s : McpSource)
    → Outcome (is_routable g s) (upstream_of g m s) m
unfolding upstream_of is_routable Outcome container_upstream
upstream_of-Outcome g m (remote_http s) = upstream-Describes m _ _
upstream_of-Outcome g m (vmcp_proxy s) = go (s.peer == g.key) _
  where
    go :
        (b : Bool) (e : Error)
        → Outcome
            (not b)
            (raise_if b e
              >> ok (upstream m (cluster_url s) (bearer_env m.name s.bearer_secret_ref)))
            m
    go true e = tt
    go false e = upstream-Describes m _ _
upstream_of-Outcome g m (container_image s) = go (find_port s.mcp_endpoint.port_name s.ports)
  where
    go :
        (o : Option NamedPort)
        → Outcome (is_some o) (container_upstream g m s.mcp_endpoint.path o) m
    go none = tt
    go (some p) = upstream-Describes m _ _

unfoldable pub names : List UpstreamArtifactsDesired → List String
names [] = []
names (a ∷ artifacts) = a.upstream.name ∷ names artifacts

-- Either every server is routable and the result lists their names, or one is not and the result is an error.
unfoldable pub ListsAll :
    GatewayDesired → List McpServerDesired → Result (List UpstreamArtifactsDesired) → Type 0
ListsAll g ms (ok us) =
    All (λ m. is_routable g m.source ≡ true) ms × (names us ≡ map (λ m. m.name) ms)
ListsAll g ms (err e) = any (λ m. not (is_routable g m.source)) ms ≡ true

traverse-ListsAll :
    (g : GatewayDesired) (ms : List McpServerDesired) → ListsAll g ms (traverse (artifacts_of g) ms)
unfolding traverse ListsAll names Outcome Describes
traverse-ListsAll g [] = (tt, refl)
traverse-ListsAll g (m ∷ ms) =
    go (is_routable g m.source) refl (upstream_of g m m.source) (upstream_of-Outcome g m m.source)
      (traverse (artifacts_of g) ms) (traverse-ListsAll g ms)
  where
    go :
        (b : Bool) (_ : is_routable g m.source ≡ b) (r : Result UpstreamDesired) (_ : Outcome b r m)
        (rest : Result (List UpstreamArtifactsDesired)) (_ : ListsAll g ms rest)
        → ListsAll g (m ∷ ms) (
            (r >>= λ u.
            ok (record { upstream = u; tool_overrides = map override_artifact m.tool_overrides }))
            >>= λ a. rest >>= λ us. ok (a ∷ us))
    go true e (ok u) o (ok us) (all, h) = ((e, all), cc)
    go true e (ok u) o (err x) h = rw e h
    go false e (err x) o _ _ = rw e refl
    go true e (err x) o _ _ = absurd o
    go false e (ok u) o _ _ = absurd o

any-enabled_mcps_lem :
    (g : GatewayDesired) (mcps : List McpServerDesired) (p : McpServerDesired → Bool)
    → any p (enabled_mcps g mcps) ≡ any (λ m. m.enabled && m.gateway_key == g.key && p m) mcps
unfolding enabled_mcps
any-enabled_mcps_lem g [] p = refl
any-enabled_mcps_lem g (m ∷ ms) p = ground (arith, any-enabled_mcps_lem g ms p)

-- Of the servers of a registry, in the order of their names, all become upstreams with those names
-- if each is routable; if one is not, there is an error and no list. These servers are those that
-- are enabled and belong to the gateway: whatever a test asks, one of them passes it exactly if a
-- server passes it that is enabled and names the gateway.
pub upstreams-ListsAll :
    (g : GatewayDesired) (mcps : List McpServerDesired) (p : McpServerDesired → Bool)
    → ListsAll g (sort_by (λ m. m.name) (enabled_mcps g mcps)) (upstreams g mcps)
      × (any p (enabled_mcps g mcps) ≡ any (λ m. m.enabled && m.gateway_key == g.key && p m) mcps)
unfolding upstreams
upstreams-ListsAll g mcps p = (traverse-ListsAll g _, any-enabled_mcps_lem g mcps p)

ListsAll-names :
    (g : GatewayDesired) (ms : List McpServerDesired) (us : List UpstreamArtifactsDesired)
    → ListsAll g ms (ok us)
    → names us ≡ map (λ m. m.name) ms
unfolding ListsAll
ListsAll-names g ms us l = l.1

contains-names_enabled :
    (g : GatewayDesired) (mcps : List McpServerDesired) (a : String)
    → contains (map (λ m. m.name) (enabled_mcps g mcps)) a
      ≡ any (λ m. m.enabled && m.gateway_key == g.key && a == m.name) mcps
unfolding enabled_mcps
contains-names_enabled g [] a = refl
contains-names_enabled g (m ∷ ms) a = ground (arith, contains-names_enabled g ms a)

-- When there is a list of upstreams, a name stands in it exactly if an enabled server of the
-- gateway has it.
pub contains-names :
    (g : GatewayDesired) (mcps : List McpServerDesired) (us : List UpstreamArtifactsDesired)
    (a : String)
    → upstreams g mcps ≡ ok us
    → contains (names us) a ≡ any (λ m. m.enabled && m.gateway_key == g.key && a == m.name) mcps
contains-names g mcps us a h =
    ap (λ ns. contains ns a)
      (ListsAll-names g _ us (rw (sym h) (upstreams-ListsAll g mcps (λ m. true)).0))
    ∙ contains-sort_by (λ m. m.name) (enabled_mcps g mcps) a
    ∙ contains-names_enabled g mcps a
