-- ===== src/Nl/AddGet.antt =====
-- python/vmcp_operator/domain/usecases/nl_crud.py: `NlCrud.execute`, as one request after another.
use vmcp_operator.Base.{
  String, true, false, Option, some, ◌≡◌, refl, inl, inr, truthy, Result, ok, err, Result-cases,
  sym, OnOk-ok, arith,
}
use vmcp_operator.Json.{Fields}
use vmcp_operator.Models.Gateway.{GatewayKey}
use vmcp_operator.Models.Mcp.{McpServerDesired}
use vmcp_operator.Ports.{GatewayRepository, McpCatalog, IsLawful}
use vmcp_operator.ManageMcp.{McpMutation, McpWriteResult, add, get, add_mcp, get_mcp}
use vmcp_operator.ManageMcp.Body.{mcp_from_add_body, IsNamed, mcp_from_add_body-IsNamed}
use vmcp_operator.ManageMcp.Effects.{get_mcp-add_mcp}
use vmcp_operator.Nl.{NlIntent, NlCrudResult, execute, apply_to, rethrow, given_fields, one}

rethrow-eq-ok : (A : Type 0) (r : Result A) (a : A) → rethrow r ≡ ok a → r ≡ ok a
rethrow-eq-ok A (ok b) a h = h
rethrow-eq-ok A (err e) a h = cc

-- A request that is no dry run.
abbrev pub request : McpMutation → GatewayKey → String → Option Fields → NlIntent
request mutation g n d = record {
  mutation = mutation;
  gateway = some g;
  name = some n;
  fields = d;
  dry_run = false;
}

module _ (c : McpCatalog) (gateways : GatewayRepository) where
  -- What a request has done that added a server.
  apply_to-eq-ok :
      (g : GatewayKey) (n : String) (d : Option Fields) (s : c.State) (r : NlCrudResult)
      → (apply_to c gateways (request add g n d) g add s).0 ≡ ok r
      → (m : McpServerDesired) × (w : McpWriteResult) × (mcp_from_add_body g n (given_fields d)
          ≡ ok m)
        × ((add_mcp c gateways m s).0 ≡ ok w)
        × (r.mcp ≡ some w.mcp)
        × ((apply_to c gateways (request add g n d) g add s).1 ≡ (add_mcp c gateways m s).1)
  unfolding apply_to
  apply_to-eq-ok g n d s r h = elim (Result-cases (mcp_from_add_body g n (given_fields d))) [
    | inr (x, e) ↦ absurd (ground arith)
    | inl (m, e) ↦ elim (Result-cases (add_mcp c gateways m s).0) [
      | inr (x, f) ↦ absurd (ground arith)
      | inl (w, f) ↦ (m, w, e, f, ground arith, ground arith)
    ]
  ]

  execute-eq-ok :
      (g : GatewayKey) (n : String) (d : Option Fields) (s : c.State) (r : NlCrudResult)
      → (execute c gateways (request add g n d) s).0 ≡ ok r
      → (truthy n ≡ true)
        × ((apply_to c gateways (request add g n d) g add s).0 ≡ ok r)
        × ((execute c gateways (request add g n d) s).1
            ≡ (apply_to c gateways (request add g n d) g add s).1)
  unfolding execute
  execute-eq-ok g String.[] d s r h = absurd cc
  execute-eq-ok g (String.◌∷◌ ch n) d s r h = (refl, rethrow-eq-ok _ _ r h, refl)

  -- A request for a server that the catalog has.
  execute-get :
      (g : GatewayKey) (n : String) (d : Option Fields) (m : McpServerDesired) (t : c.State)
      → truthy n ≡ true
      → get_mcp c gateways g n t ≡ (ok m, t)
      → execute c gateways (request get g n d) t ≡ (ok (one (request get g n d) "ok" m), t)
  unfolding execute apply_to
  execute-get g String.[] d m t v h = absurd cc
  execute-get g (String.◌∷◌ ch n) d m t v h = rw (h) refl

  -- In a lawful catalog, where the request to add a server succeeds, the request to get it, sent to
  -- the same gateway for the same name, succeeds too: it answers with the server that the first one
  -- answered with and leaves the catalog as it is.
  pub get-execute-add :
      IsLawful c
      → (g : GatewayKey) (n : String) (d e : Option Fields) (s : c.State) (r : NlCrudResult)
      → (execute c gateways (request add g n d) s).0 ≡ ok r
      → (m : McpServerDesired) × (r.mcp ≡ some m)
        × (execute c gateways (request get g n e) (execute c gateways (request add g n d) s).1
            ≡ (ok (one (request get g n e) "ok" m), (execute c gateways (request add g n d) s).1))
  get-execute-add L g n d e s r h =
      let (v, h1, t1) = execute-eq-ok g n d s r h in
      let (m, w, body, done, q, t2) = apply_to-eq-ok g n d s r h1 in
      let i = OnOk-ok (IsNamed g n) _ m (mcp_from_add_body-IsNamed g n (given_fields d)) body in
      (
        w.mcp,
        q,
        execute-get g n e w.mcp _ v
            (rw (t1, t2, sym i.gateway_key, sym i.name) (get_mcp-add_mcp c L gateways m s w done)),
      )
