-- ===== src/Ports/InMemory.antt =====
-- python/vmcp_operator/adapters/driven/k8s/mcp_catalog.py: `InMemoryMcpCatalog`
use vmcp_operator.Base.{String, ◌≡◌, refl, Bool, Option, List, ◌==◌, select, All, arith, [], ◌∷◌}
use vmcp_operator.Base.Dict.{Dict, lookup, insert, erase, values, lookup-insert, lookup-erase}
use vmcp_operator.Models.Gateway.{GatewayKey, gateway_key_eq}
use vmcp_operator.Models.Mcp.{McpServerDesired}
use vmcp_operator.Ports.{McpCatalog, IsLawful, catalog_key, is_some}

abbrev pub Items : Type 0
Items = Dict McpServerDesired

-- `list_for_gateway`
unfoldable pub list_for_gateway : GatewayKey → Items → List McpServerDesired
list_for_gateway key items = select (λ item. item.gateway_key == key) (values items)

-- `get`
unfoldable pub get : String → String → Items → Option McpServerDesired
get namespace name items = lookup (catalog_key namespace name) items

-- `upsert`
unfoldable pub upsert : McpServerDesired → Items → McpServerDesired × Items
upsert mcp items = (mcp, insert (catalog_key mcp.namespace mcp.name) mcp items)

-- `delete`: `pop(key, None) is not None`
unfoldable pub delete : String → String → Items → Bool × Items
delete namespace name items =
    let key = catalog_key namespace name in (is_some (lookup key items), erase key items)

abbrev pub in_memory : McpCatalog
in_memory = record {
  State = Items;
  list_for_gateway = list_for_gateway;
  get = get;
  upsert = upsert;
  delete = delete;
}

-- The dict meets what the use cases rely on.
pub in_memory-IsLawful : IsLawful in_memory
unfolding get upsert delete
in_memory-IsLawful = record {
  upsert_returns = λ m s. refl;
  get-upsert = λ m s i j. lookup-insert (catalog_key i j) (catalog_key m.namespace m.name) m s;
  delete_reports = λ i j s. refl;
  get-delete = λ i j k l s. lookup-erase (catalog_key i j) (catalog_key k l) s;
}

-- A listing holds only servers that name the gateway.
pub list_for_gateway-All :
    (key : GatewayKey) (items : Items) → All (λ m. m.gateway_key ≡ key) (list_for_gateway key items)
unfolding list_for_gateway
list_for_gateway-All key items = go (values items)
  where
    go :
        (ms : List McpServerDesired)
        → All (λ m. m.gateway_key ≡ key) (select (λ item. item.gateway_key == key) ms)
    go [] = tt
    go (m ∷ ms) = ground (arith, go ms)
