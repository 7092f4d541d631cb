-- ===== src/Tests/Control.antt =====
-- The use cases that change the catalog, and tokens, on the dictionary catalog.
use vmcp_operator.Base.{
  ℕ, ◌+◌, String, ◌<>◌, Bool, true, false, Option, none, some, List, [], ◌∷◌, ◌≡◌, ◌≢◌, refl, ok,
  err, Error, mcp_conflict_error, strip, string_eq, All, map, contains,
}
use vmcp_operator.Base.Dict.{lookup}
use vmcp_operator.Base.Integer.{pos}
use vmcp_operator.Json.{Fields, end, field, str}
use vmcp_operator.Models.Gateway.{gateway_key_eq}
use vmcp_operator.Models.Mcp.{McpServerDesired, VmcpProxySource, vmcp_proxy}
use vmcp_operator.Ports.InMemory.{Items, in_memory, in_memory-IsLawful, get, upsert, delete}
use vmcp_operator.ManageMcp
use vmcp_operator.ManageMcp.{McpWriteResult, add_mcp, get_mcp, update_mcp, remove_mcp, not_found}
use vmcp_operator.ManageMcp.Checks.{resolve_source, inherit_path}
use vmcp_operator.ManageMcp.Writes.{
  add, remove, write, writes, IsConsistent, IsFiled, writes-IsConsistent, write_failed,
}
use vmcp_operator.ManageMcp.Effects.{
  SameIdentity, kind, get_mcp-add_mcp, get_mcp-update_mcp, get_mcp-remove_mcp, write_elsewhere,
}
use vmcp_operator.Tokens.{TokenIssuer, IssuedToken, issue_use_token}
use vmcp_operator.Tokens.Outcome.{IsIssued, issue_use_token-IsIssued}
use vmcp_operator.Tests.Fixtures.{prod, peer_key, gateways, docs}

empty-IsConsistent : IsConsistent in_memory gateways []
unfolding get lookup
empty-IsConsistent i j m e = absurd (none_some m e)
  where
    none_some : (m : McpServerDesired) → none ≡ some m → ⊥
    none_some m h = absurd cc

abbrev added : McpWriteResult
added = record { mutation = ManageMcp.add; mcp = docs; created = true }

abbrev one_server : Items
one_server = ("ns/docs", docs) ∷ []

abbrev described : McpServerDesired
described = record docs { description = some "manuals" }

abbrev new_text : Fields
new_text = field "description" (str "manuals") end

add_docs_runs : (add_mcp in_memory gateways docs []).0 ≡ ok added
unfolding add_mcp vmcp_operator.ManageMcp.Checks.validate_mcp string_eq strip
    vmcp_operator.ManageMcp.Checks.require_gateway gateway_key_eq
    vmcp_operator.ManageMcp.Checks.resolve_vmcp_proxy get lookup upsert
add_docs_runs = refl

update_docs_runs :
    (update_mcp in_memory gateways prod "docs" new_text one_server).0
    ≡ ok (record { mutation = ManageMcp.update; mcp = described; created = false })
unfolding update_mcp vmcp_operator.ManageMcp.Checks.require_gateway gateway_key_eq
    vmcp_operator.Base.String-discrete get lookup string_eq
    vmcp_operator.ManageMcp.Patch.apply_mcp_fields vmcp_operator.ManageMcp.Checks.validate_mcp strip
    vmcp_operator.ManageMcp.Checks.resolve_vmcp_proxy upsert
update_docs_runs = refl

remove_docs_runs :
    (remove_mcp in_memory gateways prod "docs" one_server).0
    ≡ ok (record { mutation = ManageMcp.remove; mcp = docs; created = false })
unfolding remove_mcp vmcp_operator.ManageMcp.Checks.require_gateway gateway_key_eq
    vmcp_operator.Base.String-discrete get lookup string_eq delete
remove_docs_runs = refl

add_twice_runs :
    (write in_memory gateways (add docs) one_server).0
    ≡ err (mcp_conflict_error "mcp `ns/docs` already exists")
unfolding write add_mcp vmcp_operator.ManageMcp.Checks.validate_mcp string_eq strip
    vmcp_operator.ManageMcp.Checks.require_gateway gateway_key_eq
    vmcp_operator.ManageMcp.Checks.resolve_vmcp_proxy get lookup
add_twice_runs = refl

writes_runs : writes in_memory gateways (add docs ∷ []) [] ≡ one_server
unfolding writes write add_mcp vmcp_operator.ManageMcp.Checks.validate_mcp string_eq strip
    vmcp_operator.ManageMcp.Checks.require_gateway gateway_key_eq
    vmcp_operator.ManageMcp.Checks.resolve_vmcp_proxy get lookup upsert
    vmcp_operator.Base.Dict.insert
writes_runs = refl

one_server-IsConsistent : IsConsistent in_memory gateways one_server
one_server-IsConsistent = rw⁻¹ writes_runs (
    writes-IsConsistent in_memory in_memory-IsLawful gateways (add docs ∷ []) [] empty-IsConsistent)

one_server-IsFiled : IsFiled in_memory one_server
one_server-IsFiled i j m e = (one_server-IsConsistent i j m e).filed

writes-IsConsistent_example :
    IsConsistent in_memory gateways
      (writes in_memory gateways (add docs ∷ remove prod "docs" ∷ []) [])
writes-IsConsistent_example =
    writes-IsConsistent in_memory in_memory-IsLawful gateways (add docs ∷ remove prod "docs" ∷ [])
      [] empty-IsConsistent

get_mcp-add_mcp_example :
    get_mcp in_memory gateways prod "docs" (add_mcp in_memory gateways docs []).1
    ≡ (ok docs, (add_mcp in_memory gateways docs []).1)
get_mcp-add_mcp_example =
    get_mcp-add_mcp in_memory in_memory-IsLawful gateways docs [] added add_docs_runs

get_mcp-update_mcp_example :
    (old : McpServerDesired) × (in_memory.get "ns" "docs" one_server ≡ some old)
    × SameIdentity old described
    × (kind described.source ≡ kind old.source)
    × (get_mcp in_memory gateways prod "docs"
          (update_mcp in_memory gateways prod "docs" new_text one_server).1
        ≡ (ok described, (update_mcp in_memory gateways prod "docs" new_text one_server).1))
get_mcp-update_mcp_example =
    get_mcp-update_mcp in_memory in_memory-IsLawful gateways prod "docs" new_text one_server
      (record { mutation = ManageMcp.update; mcp = described; created = false }) one_server-IsFiled
      update_docs_runs

get_mcp-remove_mcp_example :
    get_mcp in_memory gateways prod "docs" (remove_mcp in_memory gateways prod "docs" one_server).1
    ≡ (not_found "ns" "docs", (remove_mcp in_memory gateways prod "docs" one_server).1)
get_mcp-remove_mcp_example =
    get_mcp-remove_mcp in_memory in_memory-IsLawful gateways prod "docs" one_server
      (record { mutation = ManageMcp.remove; mcp = docs; created = false }) remove_docs_runs

write_elsewhere_example :
    in_memory.get "ns" "other" (write in_memory gateways (remove prod "docs") one_server).1
    ≡ in_memory.get "ns" "other" one_server
write_elsewhere_example =
    write_elsewhere in_memory in_memory-IsLawful gateways (remove prod "docs") one_server "ns"
      "other" one_server-IsFiled (λ h. absurd cc)

write_failed_example : (write in_memory gateways (add docs) one_server).1 ≡ one_server
write_failed_example =
    write_failed in_memory in_memory-IsLawful gateways (add docs) one_server
      (mcp_conflict_error "mcp `ns/docs` already exists") add_twice_runs

abbrev to_peer : VmcpProxySource
to_peer = record { peer = peer_key; path = "/mcp-proxy"; port = pos 8080; bearer_secret_ref = none }

resolve_runs :
    resolve_source gateways (vmcp_proxy to_peer)
    ≡ ok (vmcp_proxy (record to_peer { path = "/peer" }))
unfolding resolve_source gateway_key_eq vmcp_operator.Base.String-discrete string_eq
resolve_runs = refl

-- An issuer that counts its tokens.
abbrev issuer : TokenIssuer
issuer = record { State = ℕ; issue_use_token = λ key name n. (ok "t0", n + 1) }

abbrev issued_token : IssuedToken
issued_token = record { gateway = prod; client_name = "cli"; scope = "mcp:use"; token = "t0" }

token_runs : (issue_use_token issuer gateways prod " cli " 0).0 ≡ ok issued_token
unfolding string_eq issue_use_token strip gateway_key_eq vmcp_operator.Base.String-discrete
token_runs = refl

issue_use_token-IsIssued_example : IsIssued issuer gateways prod (strip " cli ") 0 issued_token
issue_use_token-IsIssued_example =
    issue_use_token-IsIssued issuer gateways prod " cli " 0 issued_token token_runs
