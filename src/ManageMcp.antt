-- ===== src/ManageMcp.antt =====
-- python/vmcp_operator/domain/usecases/manage_mcp.py: the use cases that read and change the
-- catalog of MCP servers. Each is an action on the catalog's state.
pub mod Checks
pub mod Patch
pub mod Body
pub mod Validity
pub mod Writes
pub mod Effects
use vmcp_operator.Base.{
  String, ◌<>◌, Bool, true, false, not, ◌||◌, Option, none, some, List, ◌==◌, if◌then◌else◌,
  mcp_conflict_error, mcp_not_found_error, Result, ok, err,
}
use vmcp_operator.Base.Exec.{Exec, pure, raise, lift, gets, call, ◌>>=◌, ◌>>◌}
use vmcp_operator.Base.Sorting.{sort_by}
use vmcp_operator.Json.{Fields}
use vmcp_operator.Models.Gateway.{GatewayKey, gateway_key_eq}
use vmcp_operator.Models.Mcp.{McpServerDesired}
use vmcp_operator.Ports.{GatewayRepository, McpCatalog}
use Checks.{validate_mcp, require_gateway, resolve_vmcp_proxy}
use Patch.{apply_mcp_fields}

-- python/vmcp_operator/domain/models/control_plane.py: `McpMutation`
pub data McpMutation : Type 0 where
  add update remove list get : McpMutation

-- python/vmcp_operator/domain/models/control_plane.py: `McpWriteResult`
pub record McpWriteResult : Type 0 where
  pub mutation : McpMutation
  pub mcp : McpServerDesired
  pub created : Bool

abbrev pub not_found {ℓ} : {A : Type ℓ} → String → String → Result A
not_found namespace name =
    err (mcp_not_found_error ("mcp `" <> (namespace <> ("/" <> (name <> "` not found")))))

-- `mcp is None or mcp.gateway_key != gateway`
unfoldable pub owned : GatewayKey → String → Option McpServerDesired → Result McpServerDesired
owned gateway name none = not_found gateway.namespace name
owned gateway name (some mcp) =
    if mcp.gateway_key == gateway then ok mcp else not_found gateway.namespace name

-- `if existing is not None: raise`
unfoldable pub refuse_existing : McpServerDesired → Option McpServerDesired → Result (Unit {0})
refuse_existing mcp none = ok tt
refuse_existing mcp (some old) =
    err
      (mcp_conflict_error ("mcp `" <> (mcp.namespace <> ("/" <> (mcp.name <> "` already exists")))))

-- `if not deleted: raise`
unfoldable pub confirm_deleted : GatewayKey → String → Bool → Result (Unit {0})
confirm_deleted gateway name true = ok tt
confirm_deleted gateway name false = not_found gateway.namespace name

module _ (c : McpCatalog) (gateways : GatewayRepository) where
  -- `ListMcps.execute`
  unfoldable pub list_mcps : GatewayKey → Exec c.State (List McpServerDesired)
  list_mcps gateway = do
    lift (require_gateway gateways gateway)
    rows ← gets (c.list_for_gateway gateway)
    pure (sort_by (λ item. item.name) rows)

  -- `GetMcp.execute`
  unfoldable pub get_mcp : GatewayKey → String → Exec c.State McpServerDesired
  unfolding owned
  get_mcp gateway name = do
    lift (require_gateway gateways gateway)
    mcp ← gets (c.get gateway.namespace name)
    lift (owned gateway name mcp)

  -- `AddMcp.execute`
  unfoldable pub add_mcp : McpServerDesired → Exec c.State McpWriteResult
  unfolding refuse_existing
  add_mcp mcp = do
    lift (validate_mcp mcp)
    lift (require_gateway gateways mcp.gateway_key)
    resolved ← lift (resolve_vmcp_proxy gateways mcp)
    existing ← gets (c.get resolved.namespace resolved.name)
    lift (refuse_existing resolved existing)
    stored ← call (c.upsert resolved)
    pure (record { mutation = add; mcp = stored; created = true })

  -- `UpdateMcp.execute`
  unfoldable pub update_mcp : GatewayKey → String → Fields → Exec c.State McpWriteResult
  unfolding owned
  update_mcp gateway name d = do
    lift (require_gateway gateways gateway)
    found ← gets (c.get gateway.namespace name)
    current ← lift (owned gateway name found)
    updated ← lift (apply_mcp_fields current d)
    lift (validate_mcp updated)
    resolved ← lift (resolve_vmcp_proxy gateways updated)
    stored ← call (c.upsert resolved)
    pure (record { mutation = update; mcp = stored; created = false })

  -- `RemoveMcp.execute`
  unfoldable pub remove_mcp : GatewayKey → String → Exec c.State McpWriteResult
  unfolding owned confirm_deleted
  remove_mcp gateway name = do
    lift (require_gateway gateways gateway)
    found ← gets (c.get gateway.namespace name)
    current ← lift (owned gateway name found)
    deleted ← call (c.delete gateway.namespace name)
    lift (confirm_deleted gateway name deleted)
    pure (record { mutation = remove; mcp = current; created = false })
