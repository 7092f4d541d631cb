-- ===== src/ManageMcp/Effects.antt =====
-- What the use cases of manage_mcp.py leave in a lawful catalog, seen through `GetMcp`.
use vmcp_operator.Base.{
  String, Option, none, some, ◌≡◌, ◌≢◌, ap, Result, ok, arith, string_eq, inl, inr, Result-cases,
  >>=-eq-ok,
}
use vmcp_operator.Json.{Fields, Value, get}
use vmcp_operator.Models.Gateway.{GatewayKey, gateway_key_eq}
use vmcp_operator.Models.Mcp.{McpServerDesired, McpSource, remote_http, container_image, vmcp_proxy}
use vmcp_operator.Ports.{GatewayRepository, McpCatalog, IsLawful, catalog_key}
use vmcp_operator.ManageMcp.Checks.{resolve_vmcp_proxy, resolve_source}
use vmcp_operator.ManageMcp.Patch.{
  apply_mcp_fields, patch_source, set_url, set_image, set_bearer, set_path, when_given,
}
use vmcp_operator.ManageMcp.Validity.{resolve_vmcp_proxy-eq-ok, validate_mcp-IsValidMcp}
use vmcp_operator.ManageMcp.{McpWriteResult, not_found, get_mcp, add_mcp, update_mcp, remove_mcp}
use vmcp_operator.ManageMcp.Writes.{
  Write, add, update, remove, write, IsFiled, add_mcp-eq-ok, update_mcp-eq-ok, remove_mcp-eq-ok,
  write_failed,
}

-- What a write never changes in a server: where it lives, the gateway it belongs to, and what the
-- use cases have no field for.
pub record SameIdentity (m r : McpServerDesired) : Type 0 where
  pub namespace : m.namespace ≡ r.namespace
  pub name : m.name ≡ r.name
  pub gateway_key : m.gateway_key ≡ r.gateway_key
  pub tool_overrides : m.tool_overrides ≡ r.tool_overrides
  pub skill_refs : m.skill_refs ≡ r.skill_refs
  pub web_exposures : m.web_exposures ≡ r.web_exposures

pub data Kind : Type 0 where
  remote container proxy : Kind

abbrev pub kind : McpSource → Kind
kind (remote_http s) = remote
kind (container_image s) = container
kind (vmcp_proxy s) = proxy

-- A step of the patch that leaves the kind of source alone.
abbrev KeepsKind : (McpSource → Result McpSource) → Type 0
KeepsKind f = (s t : McpSource) → f s ≡ ok t → kind t ≡ kind s

set_url-KeepsKind : (v : Value) → KeepsKind (set_url v)
unfolding set_url
set_url-KeepsKind v (remote_http s) t h = ground arith
set_url-KeepsKind v _ t h = cc

set_image-KeepsKind : (v : Value) → KeepsKind (set_image v)
unfolding set_image
set_image-KeepsKind v (container_image s) t h = ground arith
set_image-KeepsKind v _ t h = cc

set_bearer-KeepsKind : (v : Value) → KeepsKind (set_bearer v)
unfolding set_bearer
set_bearer-KeepsKind v (remote_http s) t h = ground arith
set_bearer-KeepsKind v (vmcp_proxy s) t h = ground arith
set_bearer-KeepsKind v (container_image s) t h = cc

set_path-KeepsKind : (v : Value) → KeepsKind (set_path v)
unfolding set_path
set_path-KeepsKind v (vmcp_proxy s) t h = ground arith
set_path-KeepsKind v _ t h = cc

when_given-KeepsKind :
    (f : Value → McpSource → Result McpSource)
    → ((v : Value) → KeepsKind (f v))
    → (o : Option Value) → KeepsKind (when_given o f)
unfolding when_given
when_given-KeepsKind f k none s t h = ground arith
when_given-KeepsKind f k (some v) s t h = k v s t h

-- A patch never turns one kind of source into another.
pub patch_source-KeepsKind : (d : Fields) → KeepsKind (patch_source d)
unfolding patch_source
patch_source-KeepsKind d s t h =
    let (s1, e1, h1) = >>=-eq-ok (when_given (get d "url") set_url s) _ h in
    let (s2, e2, h2) = >>=-eq-ok (when_given (get d "image") set_image s1) _ h1 in
    let (s3, e3, h3) = >>=-eq-ok (when_given (get d "bearerSecretRef") set_bearer s2) _ h2 in
    cc (
      when_given-KeepsKind set_url set_url-KeepsKind (get d "url") s s1 e1,
      when_given-KeepsKind set_image set_image-KeepsKind (get d "image") s1 s2 e2,
      when_given-KeepsKind set_bearer set_bearer-KeepsKind (get d "bearerSecretRef") s2 s3 e3,
      when_given-KeepsKind set_path set_path-KeepsKind (get d "path") s3 t h3,
    )

apply_mcp_fields-SameIdentity :
    (m r : McpServerDesired) (d : Fields)
    → apply_mcp_fields m d ≡ ok r
    → SameIdentity m r × (kind r.source ≡ kind m.source)
unfolding apply_mcp_fields
apply_mcp_fields-SameIdentity m r d h = elim (Result-cases (patch_source d m.source)) [
  | inr (x, e) ↦ absurd (ground arith)
  | inl (t, e) ↦ (ground arith, ground (arith, patch_source-KeepsKind d m.source t e))
]

module _ (gateways : GatewayRepository) where
  resolve_vmcp_proxy-SameIdentity :
      (m r : McpServerDesired) → resolve_vmcp_proxy gateways m ≡ ok r → SameIdentity m r
  resolve_vmcp_proxy-SameIdentity m r h =
      let (t, e, q) = resolve_vmcp_proxy-eq-ok gateways m r h in ground arith

  resolve_source-kind : KeepsKind (resolve_source gateways)
  unfolding resolve_source
  resolve_source-kind (vmcp_proxy s) t h = ground arith
  resolve_source-kind _ t h = ground arith

  resolve_vmcp_proxy-kind :
      (m r : McpServerDesired)
      → resolve_vmcp_proxy gateways m ≡ ok r
      → kind r.source ≡ kind m.source
  resolve_vmcp_proxy-kind m r h =
      let (t, e, q) = resolve_vmcp_proxy-eq-ok gateways m r h in
      ground (arith, resolve_source-kind m.source t e)

-- The key that a request writes to.
abbrev pub target : Write → String
target (add m) = catalog_key m.namespace m.name
target (update g n d) = catalog_key g.namespace n
target (remove g n) = catalog_key g.namespace n

module _ (c : McpCatalog) (L : IsLawful c) (gateways : GatewayRepository) where
  -- In a lawful catalog, a server that was added is what `GetMcp` finds for its gateway and its name.
  pub get_mcp-add_mcp :
      (m : McpServerDesired) (s : c.State) (w : McpWriteResult)
      → (add_mcp c gateways m s).0 ≡ ok w
      → get_mcp c gateways m.gateway_key m.name (add_mcp c gateways m s).1
        ≡ (ok w.mcp, (add_mcp c gateways m s).1)
  unfolding get_mcp add_mcp
  get_mcp-add_mcp m s w h =
      let (r, v, q, fresh, done) = add_mcp-eq-ok c gateways m s w h in
      let i = resolve_vmcp_proxy-SameIdentity gateways m r q in
      ground (
        arith,
        L.get-upsert r s m.gateway_key.namespace m.name,
        L.upsert_returns r s,
        (validate_mcp-IsValidMcp gateways m v).same_namespace,
        i.namespace,
        i.name,
        i.gateway_key,
      )

  -- In a lawful catalog, a server that was removed is not found any more.
  pub get_mcp-remove_mcp :
      (g : GatewayKey) (n : String) (s : c.State) (w : McpWriteResult)
      → (remove_mcp c gateways g n s).0 ≡ ok w
      → get_mcp c gateways g n (remove_mcp c gateways g n s).1
        ≡ (not_found g.namespace n, (remove_mcp c gateways g n s).1)
  unfolding get_mcp remove_mcp
  get_mcp-remove_mcp g n s w h =
      let (old, e, own, done) = remove_mcp-eq-ok c gateways g n s w h in
      ground (arith, L.get-delete g.namespace n g.namespace n s, L.delete_reports g.namespace n s)

  -- An update of a lawful catalog in which each server stands under its own key changes neither the
  -- identity nor the kind of source of the server, and what it returns is what `GetMcp` finds
  -- afterwards.
  pub get_mcp-update_mcp :
      (g : GatewayKey) (n : String) (d : Fields) (s : c.State) (w : McpWriteResult)
      → IsFiled c s
      → (update_mcp c gateways g n d s).0 ≡ ok w
      → (old : McpServerDesired) × (c.get g.namespace n s ≡ some old)
        × SameIdentity old w.mcp
        × (kind w.mcp.source ≡ kind old.source)
        × (get_mcp c gateways g n (update_mcp c gateways g n d s).1
            ≡ (ok w.mcp, (update_mcp c gateways g n d s).1))
  unfolding get_mcp update_mcp
  get_mcp-update_mcp g n d s w k h =
      let (old, m, r, e, own, p, v, q, done) = update_mcp-eq-ok c gateways g n d s w h in
      let i = apply_mcp_fields-SameIdentity old m d p in
      let j = resolve_vmcp_proxy-SameIdentity gateways m r q in
      let filed = (k g.namespace n old e) in
      (
        old,
        e,
        ground (arith, L.upsert_returns r s, i.0, j),
        ground (arith, L.upsert_returns r s, resolve_vmcp_proxy-kind gateways m r q, i.1),
        ground (arith, L.upsert_returns r s, L.get-upsert r s g.namespace n, filed, i.0, j),
      )

  write_elsewhere_of_ok :
      (w : Write) (s : c.State) (i j : String) (x : McpWriteResult)
      → IsFiled c s
      → catalog_key i j ≢ target w
      → (write c gateways w s).0 ≡ ok x
      → c.get i j (write c gateways w s).1 ≡ c.get i j s
  unfolding write
  write_elsewhere_of_ok (add m) s i j x k ne h =
      let (r, v, q, fresh, done) = add_mcp-eq-ok c gateways m s x h in
      let same = resolve_vmcp_proxy-SameIdentity gateways m r q in
      rw done (ground (arith, L.get-upsert r s i j, same.namespace, same.name))
  write_elsewhere_of_ok (update g n d) s i j x k ne h =
      let (old, m, r, e, own, p, v, q, done) = update_mcp-eq-ok c gateways g n d s x h in
      let first = (apply_mcp_fields-SameIdentity old m d p).0 in
      let same = resolve_vmcp_proxy-SameIdentity gateways m r q in
      let filed = (k g.namespace n old e) in
      rw done (
        ground (
          arith,
          L.get-upsert r s i j,
          filed,
          first.namespace,
          first.name,
          same.namespace,
          same.name,
        ))
  write_elsewhere_of_ok (remove g n) s i j x k ne h =
      let (old, e, own, done) = remove_mcp-eq-ok c gateways g n s x h in
      rw done (ground (arith, L.get-delete i j g.namespace n s))

  -- In a lawful catalog in which each server stands under its own key, a request, failing or not,
  -- leaves every server alone that stands under another key.
  pub write_elsewhere :
      (w : Write) (s : c.State) (i j : String)
      → IsFiled c s
      → catalog_key i j ≢ target w
      → c.get i j (write c gateways w s).1 ≡ c.get i j s
  write_elsewhere w s i j k ne = elim (Result-cases (write c gateways w s).0) [
    | inl (x, h) ↦ write_elsewhere_of_ok w s i j x k ne h
    | inr (x, h) ↦ ap (c.get i j) (write_failed c L gateways w s x h)
  ]
