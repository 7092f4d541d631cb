-- ===== src/Gateway/Env/Bearers.antt =====
-- The container's bearer variables are those that the registry names.
use vmcp_operator.Base.{
  String, Bool, false, ◌&&◌, ◌||◌, Option, none, some, List, [], ◌∷◌, ◌++◌, ◌==◌, string_eq, ◌≡◌,
  refl, ap, sym, ◌∙◌, any, contains, arith, ok, ◌>>=◌, >>=-eq-ok, ok-injective, traverse, raise_if,
}
use vmcp_operator.Base.Sorting.{sort_by, any-sort_by}
use vmcp_operator.Json.{Value, obj}
use vmcp_operator.Models.Gateway.{GatewayDesired, GatewayKey, SecretRef, gateway_key_eq}
use vmcp_operator.Models.Mcp.{
  McpServerDesired, McpSource, container_image, remote_http, vmcp_proxy, NamedPort,
}
use vmcp_operator.Models.Artifacts.{UpstreamArtifactsDesired, UpstreamDesired}
use vmcp_operator.Artifacts.{
  upstreams, artifacts_of, upstream_of, bearer_env, enabled_mcps, container_upstream, find_port,
}
use vmcp_operator.Json.{get}
use vmcp_operator.Gateway.Filters.{is_text}
use vmcp_operator.Gateway.Env.{
  bearer_vars, bearer_ref, bearer_var, bearer_name, gateway_env, fixed_vars, forward_auth_var,
}
use vmcp_operator.Ports.{is_some}

-- A variable of an environment has the name.
abbrev pub sets : String → Value → Bool
sets a (obj d) = is_text (get d "name") a
sets a v = false

abbrev pub is_named : String → Option String → Bool
is_named a none = false
is_named a (some b) = b == a

-- The server needs a bearer in the variable.
abbrev carries : String → McpServerDesired → Bool
carries a m = is_named a (bearer_env m.name (bearer_ref m.source))

any-sets-bearer_var :
    (a : String) (m : McpServerDesired) (rest : List Value)
    → any (sets a) (bearer_var m (bearer_ref m.source) ++ rest) ≡ (carries a m || any (sets a) rest)
unfolding bearer_env bearer_name string_eq
any-sets-bearer_var a m rest = go (bearer_ref m.source)
  where
    go :
        (o : Option SecretRef)
        → any (sets a) (bearer_var m o ++ rest)
          ≡ (is_named a (bearer_env m.name o) || any (sets a) rest)
    go none = refl
    go (some ref) = refl

any-sets-bearer_vars :
    (a : String) (key : GatewayKey) (ms : List McpServerDesired)
    → any (sets a) (bearer_vars key ms)
      ≡ any (λ m. m.enabled && m.gateway_key == key && carries a m) ms
unfolding bearer_vars
any-sets-bearer_vars a key [] = refl
any-sets-bearer_vars a key (m ∷ ms) =
    ground (arith, any-sets-bearer_var a m (bearer_vars key ms), any-sets-bearer_vars a key ms)

upstream_of-bearer_env :
    (g : GatewayDesired) (m : McpServerDesired) (s : McpSource) (u : UpstreamDesired)
    → upstream_of g m s ≡ ok u
    → u.bearer_env ≡ bearer_env m.name (bearer_ref s)
unfolding upstream_of container_upstream bearer_env
upstream_of-bearer_env g m (remote_http s) u h =
    sym (ap (λ (x : UpstreamDesired). x.bearer_env) (ok-injective _ _ h))
upstream_of-bearer_env g m (vmcp_proxy s) u h =
    let (d, e, h2) = >>=-eq-ok (raise_if (s.peer == g.key) _) (λ _. ok _) h in
    sym (ap (λ (x : UpstreamDesired). x.bearer_env) (ok-injective _ _ h2))
upstream_of-bearer_env g m (container_image s) u h =
    go (find_port s.mcp_endpoint.port_name s.ports) h
  where
    go :
        (o : Option NamedPort)
        → container_upstream g m s.mcp_endpoint.path o ≡ ok u
        → u.bearer_env ≡ bearer_env m.name none
    go none h = cc
    go (some p) h = sym (ap (λ (x : UpstreamDesired). x.bearer_env) (ok-injective _ _ h))

-- An artifact of the registry names the variable.
abbrev pub names_bearer : String → UpstreamArtifactsDesired → Bool
names_bearer a u = is_named a u.upstream.bearer_env

artifacts_of-names_bearer :
    (g : GatewayDesired) (m : McpServerDesired) (u : UpstreamArtifactsDesired) (a : String)
    → artifacts_of g m ≡ ok u
    → names_bearer a u ≡ carries a m
artifacts_of-names_bearer g m u a h =
    let (d, e, h2) = >>=-eq-ok (upstream_of g m m.source) (λ _. ok _) h in
    ap (λ (x : UpstreamArtifactsDesired). names_bearer a x) (sym (ok-injective _ _ h2))
    ∙ ap (is_named a) (upstream_of-bearer_env g m m.source d e)

any-names_bearer-traverse :
    (g : GatewayDesired) (a : String) (ms : List McpServerDesired)
    (us : List UpstreamArtifactsDesired)
    → traverse (artifacts_of g) ms ≡ ok us
    → any (names_bearer a) us ≡ any (carries a) ms
unfolding traverse
any-names_bearer-traverse g a [] us h = ap (any (names_bearer a)) (sym (ok-injective _ _ h))
any-names_bearer-traverse g a (m ∷ ms) us h =
    let (u, e, h2) =
      >>=-eq-ok (artifacts_of g m) (λ _. traverse (artifacts_of g) ms >>= λ _. ok _) h in
    let (vs, e2, h3) = >>=-eq-ok (traverse (artifacts_of g) ms) (λ _. ok _) h2 in
    ap (any (names_bearer a)) (sym (ok-injective _ _ h3))
    ∙ ground (arith, artifacts_of-names_bearer g m u a e, any-names_bearer-traverse g a ms vs e2)

any-enabled_mcps :
    (g : GatewayDesired) (a : String) (ms : List McpServerDesired)
    → any (carries a) (enabled_mcps g ms)
      ≡ any (λ m. m.enabled && m.gateway_key == g.key && carries a m) ms
unfolding enabled_mcps
any-enabled_mcps g a [] = refl
any-enabled_mcps g a (m ∷ ms) = ground (arith, any-enabled_mcps g a ms)

bearers-names_bearer :
    (g : GatewayDesired) (mcps : List McpServerDesired) (us : List UpstreamArtifactsDesired)
    (a : String)
    → upstreams g mcps ≡ ok us
    → any (sets a) (bearer_vars g.key (sort_by (λ m. m.name) mcps)) ≡ any (names_bearer a) us
unfolding upstreams
bearers-names_bearer g mcps us a h =
    any-sets-bearer_vars a g.key _
    ∙ any-sort_by (λ m. m.name) _ mcps
    ∙ sym (any-enabled_mcps g a mcps)
    ∙ sym (any-sort_by (λ m. m.name) (carries a) (enabled_mcps g mcps))
    ∙ sym (any-names_bearer-traverse g a _ us h)

-- The variables that a gateway's container has whatever its servers are.
abbrev pub is_own_var : Option SecretRef → String → Bool
is_own_var forward_auth a =
    contains
      ("VMCP_CONFIG" ∷ "VMCP_REGISTRY_PATH" ∷ "VMCP_SKILLS_DIR"
        ∷ "VMCP_AUTH__MASTER_PASSWORD_ARGON2" ∷ [])
      a
    || (is_some forward_auth && "VMCP_AUTH__AUTHENTIK__FORWARD_AUTH_SECRET" == a)

any-sets-own_vars :
    (g : GatewayDesired) (o : Option SecretRef) (rest : List Value) (a : String)
    → any (sets a) ((fixed_vars g ++ forward_auth_var o) ++ rest)
      ≡ (is_own_var o a || any (sets a) rest)
any-sets-own_vars g none rest a = ground arith
any-sets-own_vars g (some ref) rest a = ground arith

-- When there is a list of upstreams, a variable is set in the gateway's container exactly if it is
-- one of the gateway's own four, or that of the secret for forward authentication and the gateway
-- has such a secret, or an upstream of the registry names it as its bearer.
pub any-names_bearer :
    (g : GatewayDesired) (mcps : List McpServerDesired) (us : List UpstreamArtifactsDesired)
    (a : String)
    → upstreams g mcps ≡ ok us
    → any (sets a) (gateway_env g mcps)
      ≡ (is_own_var g.auth.authentik.forward_auth_secret_ref a || any (names_bearer a) us)
unfolding gateway_env
any-names_bearer g mcps us a h =
    any-sets-own_vars g g.auth.authentik.forward_auth_secret_ref _ a
    ∙ ap (λ b. is_own_var g.auth.authentik.forward_auth_secret_ref a || b)
        (bearers-names_bearer g mcps us a h)
