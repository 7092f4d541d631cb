-- ===== src/ManageMcp/Validity.antt =====
-- What `_validate_mcp` and `_resolve_vmcp_proxy` establish of a server.
use mathlib.Core.Path.{subst}
use vmcp_operator.Base.{
  String, true, Option, none, some, ◌≡◌, ◌≢◌, ◌⊎◌, ◌||◌, ◌==◌, refl, truthy, strip, ok, >>=-eq-ok,
  ok-injective, arith, Option-cases, Bool-cases, inl, inr, string_eq,
}
use vmcp_operator.Base.Integer.{in_range}
use vmcp_operator.Models.Gateway.{GatewayKey, GatewayDesired}
use vmcp_operator.Models.Mcp.{
  McpServerDesired, McpSource, VmcpProxySource, remote_http, container_image, vmcp_proxy,
}
use vmcp_operator.Ports.{GatewayRepository}
use vmcp_operator.ManageMcp.Checks.{
  validate_source, validate_mcp, inherit_path, resolve_peer, resolve_source, resolve_vmcp_proxy,
}

-- A path that is not blank, or that the gateway at the key, which offers its proxy, has for it.
abbrev pub IsValidPath : GatewayRepository → GatewayKey → String → Type 0
IsValidPath gateways key path =
    (truthy (strip path) ≡ true)
    ⊎ ((peer : GatewayDesired) × (gateways.get key ≡ some peer)
        × (peer.proxy.enabled ≡ true)
        × (truthy peer.proxy.path ≡ true)
        × (path ≡ peer.proxy.path))

-- A source that the gateway with the given key may use.
abbrev pub IsValidSource : GatewayRepository → GatewayKey → McpSource → Type 0
IsValidSource gateways key (remote_http s) = truthy (strip s.url) ≡ true
IsValidSource gateways key (container_image s) = truthy (strip s.image) ≡ true
IsValidSource gateways key (vmcp_proxy s) =
    (s.peer ≢ key) × IsValidPath gateways s.peer s.path × (in_range 1 65535 s.port ≡ true)

pub record IsValidMcp (gateways : GatewayRepository) (m : McpServerDesired) : Type 0 where
  pub same_namespace : m.gateway_key.namespace ≡ m.namespace
  pub named : truthy m.name ≡ true
  pub trimmed : m.name ≡ strip m.name
  pub source : IsValidSource gateways m.gateway_key m.source

module _ (gateways : GatewayRepository) where
  validate_source-IsValidSource :
      (key : GatewayKey) (s : McpSource)
      → validate_source key s ≡ ok tt
      → IsValidSource gateways key s
  unfolding validate_source
  validate_source-IsValidSource key (remote_http s) h = ground arith
  validate_source-IsValidSource key (container_image s) h = ground arith
  validate_source-IsValidSource key (vmcp_proxy s) h =
      (ground arith, inl (ground arith), ground arith)

  -- A server that passes the checks is valid.
  pub validate_mcp-IsValidMcp :
      (m : McpServerDesired) → validate_mcp m ≡ ok tt → IsValidMcp gateways m
  unfolding validate_mcp
  validate_mcp-IsValidMcp m h = record {
    same_namespace = ground arith;
    named = ground arith;
    trimmed = ground arith;
    source = validate_source-IsValidSource m.gateway_key m.source (ground arith);
  }

  inherit_path-IsValidPath :
      (key : GatewayKey) (peer : GatewayDesired) (path : String)
      → gateways.get key ≡ some peer
      → peer.proxy.enabled ≡ true
      → IsValidPath gateways key path
      → IsValidPath gateways key (inherit_path peer path)
  unfolding inherit_path
  inherit_path-IsValidPath key peer path e on v =
      elim (Bool-cases (path == "" || path == "/mcp-proxy")) [
        | inr own ↦ rw own v
        | inl default ↦ elim (Bool-cases (truthy peer.proxy.path)) [
          | inl has ↦ rw (default, has) (inr (peer, e, on, has, refl))
          | inr hasnt ↦ rw (default, hasnt) v
        ]
      ]

  resolve_peer-IsValidSource :
      (key : GatewayKey) (s : VmcpProxySource) (o : Option GatewayDesired) (t : VmcpProxySource)
      → gateways.get s.peer ≡ o
      → IsValidSource gateways key (vmcp_proxy s)
      → resolve_peer s.peer o s ≡ ok t
      → IsValidSource gateways key (vmcp_proxy t)
  unfolding resolve_peer
  resolve_peer-IsValidSource key s none t e v h = absurd (cc)
  resolve_peer-IsValidSource key s (some peer) t e v h = elim (Bool-cases peer.proxy.enabled) [
    | inl on ↦
        subst (λ u. IsValidSource gateways key (vmcp_proxy u))
          (ok-injective (record s { path = inherit_path peer s.path }) t (ground arith))
          (v.0, inherit_path-IsValidPath s.peer peer s.path e on v.1, v.2)
    | inr off ↦ absurd (ground arith)
  ]

  resolve_source-IsValidSource :
      (key : GatewayKey) (s t : McpSource)
      → IsValidSource gateways key s
      → resolve_source gateways s ≡ ok t
      → IsValidSource gateways key t
  unfolding resolve_source
  resolve_source-IsValidSource key (remote_http s) t v h = ground arith
  resolve_source-IsValidSource key (container_image s) t v h = ground arith
  resolve_source-IsValidSource key (vmcp_proxy s) t v h =
      let (u, e, q) = >>=-eq-ok (resolve_peer s.peer (gateways.get s.peer) s) _ h in
      subst (IsValidSource gateways key) (ok-injective _ t q)
        (resolve_peer-IsValidSource key s (gateways.get s.peer) u refl v e)

  -- Resolving touches nothing but the source.
  pub resolve_vmcp_proxy-eq-ok :
      (m r : McpServerDesired)
      → resolve_vmcp_proxy gateways m ≡ ok r
      → (t : McpSource) × (resolve_source gateways m.source ≡ ok t) × (record m { source = t } ≡ r)
  unfolding resolve_vmcp_proxy
  resolve_vmcp_proxy-eq-ok m r h =
      let (t, e, q) = >>=-eq-ok (resolve_source gateways m.source) _ h in (t, e, ok-injective _ r q)

  -- Resolving the peer keeps a server valid.
  pub resolve_vmcp_proxy-IsValidMcp :
      (m r : McpServerDesired)
      → IsValidMcp gateways m
      → resolve_vmcp_proxy gateways m ≡ ok r
      → IsValidMcp gateways r
  resolve_vmcp_proxy-IsValidMcp m r v h =
      let (t, e, q) = resolve_vmcp_proxy-eq-ok m r h in
      subst (IsValidMcp gateways) q (record {
        same_namespace = v.same_namespace;
        named = v.named;
        trimmed = v.trimmed;
        source = resolve_source-IsValidSource m.gateway_key m.source t v.source e;
      })

-- What resolving a peer yields: the peer exists and offers its proxy, and the source keeps its
-- own path unless that is the default and the peer has one.
pub resolve_source-vmcp_proxy :
    (gateways : GatewayRepository) (s : VmcpProxySource) (t : McpSource)
    → resolve_source gateways (vmcp_proxy s) ≡ ok t
    → (peer : GatewayDesired) × (gateways.get s.peer ≡ some peer)
      × (peer.proxy.enabled ≡ true)
      × (t ≡ vmcp_proxy (record s { path = inherit_path peer s.path }))
unfolding resolve_source
resolve_source-vmcp_proxy gateways s t h = elim (Option-cases (gateways.get s.peer)) [
  | inl e ↦ absurd (ground arith)
  | inr (peer, e) ↦ (peer, e, ground arith, ground arith)
]
