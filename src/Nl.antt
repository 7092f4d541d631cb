-- ===== src/Nl.antt =====
-- python/vmcp_operator/domain/usecases/nl_crud.py: an intent, from a text or from a JSON body, and
-- its execution by the use cases of ManageMcp.
pub mod Words
pub mod Parse
pub mod Structured
pub mod AddGet
use vmcp_operator.Base.{
  String, ◌<>◌, Bool, true, false, not, ◌&&◌, Option, none, some, List, [], length, show_ℕ, truthy,
  if◌then◌else◌, Error, value_error, assertion_error, lookup_error, mcp_conflict_error,
  mcp_not_found_error, Result, ok, err,
}
use vmcp_operator.Base.Exec.{Exec, pure, raise, lift, ◌>>=◌}
use vmcp_operator.Json.{Fields, end}
use vmcp_operator.Models.Gateway.{GatewayKey}
use vmcp_operator.Models.Mcp.{McpServerDesired}
use vmcp_operator.Ports.{GatewayRepository, McpCatalog}
use vmcp_operator.ManageMcp.{
  McpMutation, add, update, remove, list, get, add_mcp, update_mcp, remove_mcp, list_mcps, get_mcp,
}
use vmcp_operator.ManageMcp.Body.{mcp_from_add_body}

-- python/vmcp_operator/domain/models/control_plane.py: `NlIntent`
pub record NlIntent : Type 0 where
  pub mutation : McpMutation
  pub gateway : Option GatewayKey
  pub name : Option String
  pub fields : Option Fields
  pub dry_run : Bool

-- python/vmcp_operator/domain/models/control_plane.py: `NlCrudResult`
pub record NlCrudResult : Type 0 where
  pub intent : NlIntent
  pub applied : Bool
  pub message : String
  pub mcps : List McpServerDesired
  pub mcp : Option McpServerDesired

-- The values of `McpMutation`.
abbrev pub mutation_value : McpMutation → String
mutation_value add = "add"
mutation_value update = "update"
mutation_value remove = "remove"
mutation_value list = "list"
mutation_value get = "get"

abbrev pub needs_name : McpMutation → Bool
needs_name list = false
needs_name _ = true

-- `not x` for an optional text
abbrev pub missing : Option String → Bool
missing none = true
missing (some s) = not (truthy s)

-- `intent.fields or {}`
abbrev pub given_fields : Option Fields → Fields
given_fields none = end
given_fields (some d) = d

-- `assert x is not None`
abbrev pub asserted {ℓ} : {S A : Type ℓ} → Option A → Exec S A
asserted none = raise (assertion_error "")
asserted (some a) = pure a

-- A result with one server.
abbrev pub one : NlIntent → String → McpServerDesired → NlCrudResult
one intent message m = record {
  intent = intent;
  applied = true;
  message = message;
  mcps = [];
  mcp = some m;
}

-- What `execute` raises in place of an exception of the use cases.
abbrev pub translated : Error → Error
translated (mcp_conflict_error m) = value_error m
translated (mcp_not_found_error m) = lookup_error m
translated e = e

abbrev pub rethrow {ℓ} : {A : Type ℓ} → Result A → Result A
rethrow (ok a) = ok a
rethrow (err e) = err (translated e)

abbrev pub rethrown {ℓ κ} : {S : Type ℓ} {A : Type κ} → Exec S A → Exec S A
rethrown m s = (rethrow (m s).0, (m s).1)

module _ (c : McpCatalog) (gateways : GatewayRepository) where
  -- The branches of `_apply`, by the mutation.
  unfoldable pub apply_to : NlIntent → GatewayKey → McpMutation → Exec c.State NlCrudResult
  apply_to intent gateway list = do
    rows ← list_mcps c gateways gateway
    pure (record {
      intent = intent;
      applied = true;
      message = show_ℕ (length rows) <> " mcp(s)";
      mcps = rows;
      mcp = none;
    })
  apply_to intent gateway get = do
    name ← asserted intent.name
    m ← get_mcp c gateways gateway name
    pure (one intent "ok" m)
  apply_to intent gateway add = do
    name ← asserted intent.name
    m ← lift (mcp_from_add_body gateway name (given_fields intent.fields))
    written ← add_mcp c gateways m
    pure (one intent "added" written.mcp)
  apply_to intent gateway update = do
    name ← asserted intent.name
    written ← update_mcp c gateways gateway name (given_fields intent.fields)
    pure (one intent "updated" written.mcp)
  apply_to intent gateway remove = do
    name ← asserted intent.name
    written ← remove_mcp c gateways gateway name
    pure (one intent "removed" written.mcp)

  -- `NlCrud._apply`
  unfoldable pub apply : NlIntent → Exec c.State NlCrudResult
  unfolding apply_to
  apply intent = do gateway ← asserted intent.gateway; apply_to intent gateway intent.mutation

  -- `NlCrud.execute` where a gateway is given
  unfoldable pub execute_on : NlIntent → Exec c.State NlCrudResult
  unfolding apply
  execute_on intent =
      if needs_name intent.mutation && missing intent.name
      then raise (value_error "name is required")
      else if intent.dry_run
      then pure (record {
        intent = intent;
        applied = false;
        message = "dry-run " <> mutation_value intent.mutation;
        mcps = [];
        mcp = none;
      })
      else rethrown (apply intent)

  -- `NlCrud.execute`
  unfoldable pub execute : NlIntent → Exec c.State NlCrudResult
  unfolding execute_on
  execute intent = elim intent.gateway [
    | none ↦ raise (value_error "gateway is required")
    | some gateway ↦ execute_on intent
  ]
