-- ===== src/ManageMcp/Writes.antt =====
-- The writing use cases over a lawful catalog: what they keep, what they change, and that a
-- failing one changes nothing.
use mathlib.Core.Path.{subst}
use vmcp_operator.Base.{
  String, true, false, none, some, List, [], ◌∷◌, ◌≡◌, ok, err, Error, arith, ◌==◌, string_eq,
  Option-cases, inl, inr, Result-cases, Bool-cases,
}
use mathlib.Core.Option.{some-injective}
use vmcp_operator.Base.Exec.{Exec}
use vmcp_operator.Json.{Fields}
use vmcp_operator.Models.Gateway.{GatewayKey}
use vmcp_operator.Models.Mcp.{McpServerDesired}
use vmcp_operator.Ports.{GatewayRepository, McpCatalog, IsLawful, catalog_key}
use vmcp_operator.ManageMcp.Checks.{validate_mcp, resolve_vmcp_proxy}
use vmcp_operator.ManageMcp.Patch.{apply_mcp_fields}
use vmcp_operator.ManageMcp.Validity.{
  IsValidMcp, validate_mcp-IsValidMcp, resolve_vmcp_proxy-IsValidMcp,
}
use vmcp_operator.ManageMcp
use vmcp_operator.ManageMcp.{
  McpWriteResult, refuse_existing, owned, confirm_deleted, add_mcp, update_mcp, remove_mcp,
}

-- A request that writes.
pub data Write : Type 0 where
  add : McpServerDesired → Write
  update : GatewayKey → String → Fields → Write
  remove : GatewayKey → String → Write

module _ (c : McpCatalog) (gateways : GatewayRepository) where
  unfoldable pub write : Write → Exec c.State McpWriteResult
  write (add m) = add_mcp c gateways m
  write (update g n d) = update_mcp c gateways g n d
  write (remove g n) = remove_mcp c gateways g n

  -- Requests one after another; an error ends only its own request.
  unfoldable pub writes : List Write → c.State → c.State
  writes [] s = s
  writes (w ∷ ws) s = writes ws (write w s).1

-- A server that the catalog holds for a namespace and a name stands under its own key.
abbrev pub IsFiled : (c : McpCatalog) → c.State → Type 0
IsFiled c s =
    (namespace name : String) (m : McpServerDesired)
    → c.get namespace name s ≡ some m
    → catalog_key m.namespace m.name ≡ catalog_key namespace name

-- A server that the catalog holds for a namespace and a name.
pub record IsEntry (gateways : GatewayRepository) (namespace name : String) (m : McpServerDesired)
    : Type 0 where
  pub valid : IsValidMcp gateways m
  pub filed : catalog_key m.namespace m.name ≡ catalog_key namespace name

-- Every server in the catalog is valid and stands under its own key.
abbrev pub IsConsistent : (c : McpCatalog) → GatewayRepository → c.State → Type 0
IsConsistent c gateways s =
    (namespace name : String) (m : McpServerDesired)
    → c.get namespace name s ≡ some m
    → IsEntry gateways namespace name m

module _ (c : McpCatalog) (gateways : GatewayRepository) where
  -- What a successful `AddMcp.execute` has done.
  pub add_mcp-eq-ok :
      (m : McpServerDesired) (s : c.State) (w : McpWriteResult)
      → (add_mcp c gateways m s).0 ≡ ok w
      → (r : McpServerDesired) × (validate_mcp m ≡ ok tt)
        × (resolve_vmcp_proxy gateways m ≡ ok r)
        × (c.get r.namespace r.name s ≡ none)
        × (add_mcp c gateways m s ≡ (
          ok (record { mutation = ManageMcp.add; mcp = (c.upsert r s).0; created = true }),
          (c.upsert r s).1,
        ))
  unfolding add_mcp
  add_mcp-eq-ok m s w h = elim (Result-cases (resolve_vmcp_proxy gateways m)) [
    | inl (r, e) ↦ (r, ground arith, e, ground arith, ground arith)
    | inr (x, e) ↦ absurd (ground arith)
  ]

  -- What a successful `UpdateMcp.execute` has done.
  pub update_mcp-eq-ok :
      (g : GatewayKey) (n : String) (d : Fields) (s : c.State) (w : McpWriteResult)
      → (update_mcp c gateways g n d s).0 ≡ ok w
      → (old m r : McpServerDesired) × (c.get g.namespace n s ≡ some old)
        × (old.gateway_key ≡ g)
        × (apply_mcp_fields old d ≡ ok m)
        × (validate_mcp m ≡ ok tt)
        × (resolve_vmcp_proxy gateways m ≡ ok r)
        × (update_mcp c gateways g n d s ≡ (
          ok (record { mutation = ManageMcp.update; mcp = (c.upsert r s).0; created = false }),
          (c.upsert r s).1,
        ))
  unfolding update_mcp
  update_mcp-eq-ok g n d s w h = elim (Option-cases (c.get g.namespace n s)) [
    | inl e ↦ absurd (ground arith)
    | inr (old, e) ↦ elim (Result-cases (apply_mcp_fields old d)) [
      | inr (x, q) ↦ absurd (ground arith)
      | inl (m, q) ↦ elim (Result-cases (resolve_vmcp_proxy gateways m)) [
        | inr (x, k) ↦ absurd (ground arith)
        | inl (r, k) ↦ (old, m, r, e, ground arith, q, ground arith, k, ground arith)
      ]
    ]
  ]

  -- What a successful `RemoveMcp.execute` has done.
  pub remove_mcp-eq-ok :
      (g : GatewayKey) (n : String) (s : c.State) (w : McpWriteResult)
      → (remove_mcp c gateways g n s).0 ≡ ok w
      → (old : McpServerDesired) × (c.get g.namespace n s ≡ some old)
        × (old.gateway_key ≡ g)
        × (remove_mcp c gateways g n s ≡ (
          ok (record { mutation = ManageMcp.remove; mcp = old; created = false }),
          (c.delete g.namespace n s).1,
        ))
  unfolding remove_mcp
  remove_mcp-eq-ok g n s w h = elim (Option-cases (c.get g.namespace n s)) [
    | inl e ↦ absurd (ground arith)
    | inr (old, e) ↦ (old, e, ground arith, ground arith)
  ]

module _ (c : McpCatalog) (L : IsLawful c) (gateways : GatewayRepository) where
  -- A request to a lawful catalog that raises leaves the catalog as it was.
  pub write_failed :
      (w : Write) (s : c.State) (e : Error)
      → (write c gateways w s).0 ≡ err e
      → (write c gateways w s).1 ≡ s
  unfolding write add_mcp update_mcp remove_mcp
  write_failed (add m) s e h = ground arith
  write_failed (update g n d) s e h = ground arith
  write_failed (remove g n) s e h = ground (arith, L.delete_reports g.namespace n s)

  upsert-IsConsistent :
      (m : McpServerDesired) (s : c.State)
      → IsValidMcp gateways m
      → IsConsistent c gateways s
      → IsConsistent c gateways (c.upsert m s).1
  upsert-IsConsistent m s v h i j x e =
      elim (Bool-cases (catalog_key i j == catalog_key m.namespace m.name)) [
        | inl same ↦
            subst (IsEntry gateways i j) (some-injective m x (ground (arith, L.get-upsert m s i j)))
              (record { valid = v; filed = ground arith })
        | inr other ↦ h i j x (ground (arith, L.get-upsert m s i j))
      ]

  delete-IsConsistent :
      (k l : String) (s : c.State)
      → IsConsistent c gateways s
      → IsConsistent c gateways (c.delete k l s).1
  delete-IsConsistent k l s h i j x e = h i j x (ground (arith, L.get-delete i j k l s))

  stored-IsValidMcp :
      (m r : McpServerDesired)
      → validate_mcp m ≡ ok tt
      → resolve_vmcp_proxy gateways m ≡ ok r
      → IsValidMcp gateways r
  stored-IsValidMcp m r v e =
      resolve_vmcp_proxy-IsValidMcp gateways m r (validate_mcp-IsValidMcp gateways m v) e

  write-IsConsistent_of_ok :
      (w : Write) (s : c.State) (x : McpWriteResult)
      → (write c gateways w s).0 ≡ ok x
      → IsConsistent c gateways s
      → IsConsistent c gateways (write c gateways w s).1
  unfolding write
  write-IsConsistent_of_ok (add m) s x e h =
      let (r, v, q, _, done) = add_mcp-eq-ok c gateways m s x e in
      rw done (upsert-IsConsistent r s (stored-IsValidMcp m r v q) h)
  write-IsConsistent_of_ok (update g n d) s x e h =
      let (_, m, r, _, _, _, v, q, done) = update_mcp-eq-ok c gateways g n d s x e in
      rw done (upsert-IsConsistent r s (stored-IsValidMcp m r v q) h)
  write-IsConsistent_of_ok (remove g n) s x e h =
      let (_, _, _, done) = remove_mcp-eq-ok c gateways g n s x e in
      rw done (delete-IsConsistent g.namespace n s h)

  pub write-IsConsistent :
      (w : Write) (s : c.State)
      → IsConsistent c gateways s
      → IsConsistent c gateways (write c gateways w s).1
  write-IsConsistent w s h = elim (Result-cases (write c gateways w s).0) [
    | inl (x, e) ↦ write-IsConsistent_of_ok w s x e h
    | inr (x, e) ↦ rw (write_failed w s x e) h
  ]

  -- From a consistent and lawful catalog, any requests that add, update or remove servers, failing
  -- or not, lead to a consistent catalog: every server stands under its own key, in the namespace of
  -- its gateway, with a trimmed name that is not empty; its URL or image is not blank; a proxy
  -- source names another gateway, has a port between 1 and 65535, and a path that is not blank
  -- unless it is the one that the peer gives for its proxy.
  pub writes-IsConsistent :
      (ws : List Write) (s : c.State)
      → IsConsistent c gateways s
      → IsConsistent c gateways (writes c gateways ws s)
  unfolding writes
  writes-IsConsistent [] s h = h
  writes-IsConsistent (w ∷ ws) s h = writes-IsConsistent ws _ (write-IsConsistent w s h)
