-- ===== src/Ports.antt =====
-- python/vmcp_operator/domain/ports: what the use cases ask of the adapters. A port that
-- changes something keeps an unknown state.
pub mod InMemory
use vmcp_operator.Base.{
  String, ◌<>◌, ◌≡◌, Bool, true, false, Option, none, some, List, ◌==◌, string_eq, if◌then◌else◌,
}
use vmcp_operator.Models.Gateway.{GatewayKey, GatewayDesired}
use vmcp_operator.Models.Mcp.{McpServerDesired}

-- `GatewayRepository`: the gateways are read and never written.
pub record GatewayRepository : Type 0 where
  pub get : GatewayKey → Option GatewayDesired
  pub list_all : List GatewayDesired

-- `McpCatalog`
pub record McpCatalog : Type 1 where
  pub State : Type 0
  pub list_for_gateway : GatewayKey → State → List McpServerDesired
  pub get : String → String → State → Option McpServerDesired
  pub upsert : McpServerDesired → State → McpServerDesired × State
  pub delete : String → String → State → Bool × State

-- The key under which a catalog files a server.
abbrev pub catalog_key : String → String → String
catalog_key namespace name = namespace <> ("/" <> name)

abbrev pub is_some {ℓ} : {A : Type ℓ} → Option A → Bool
is_some none = false
is_some (some a) = true

-- What the use cases rely on: a catalog is a map from keys to servers.
pub record IsLawful (c : McpCatalog) : Type 0 where
  pub upsert_returns : (m : McpServerDesired) (s : c.State) → (c.upsert m s).0 ≡ m
  pub get-upsert :
      (m : McpServerDesired) (s : c.State) (namespace name : String)
      → c.get namespace name (c.upsert m s).1 ≡ (
          if catalog_key namespace name == catalog_key m.namespace m.name
          then some m
          else c.get namespace name s)
  pub delete_reports :
      (namespace name : String) (s : c.State)
      → (c.delete namespace name s).0 ≡ is_some (c.get namespace name s)
  pub get-delete :
      (i j namespace name : String) (s : c.State)
      → c.get i j (c.delete namespace name s).1
        ≡ (if catalog_key i j == catalog_key namespace name then none else c.get i j s)
