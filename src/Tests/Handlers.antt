-- ===== src/Tests/Handlers.antt =====
-- Events that the handlers answer.
use vmcp_operator.Base.{
  ℕ, String, Bool, true, false, Option, none, some, List, [], ◌∷◌, ◌≡◌, refl, length, ltb, Result,
  ok, err,
}
use vmcp_operator.Base.Integer.{pos}
use vmcp_operator.Base.Exec.{OnDone, Returns}
use vmcp_operator.Json.{Value, str, num, obj, Fields, end, fields, dict, list}
use vmcp_operator.Apply.{InMemoryApplier}
use vmcp_operator.Finalizers.{gateway_finalizer}
use vmcp_operator.Reconcile.Passes.Applied.{memory}
use vmcp_operator.Mapping.McpSpec.{map_mcp}
use vmcp_operator.Handlers.Runtime.{OperatorRuntime, Operator}
use vmcp_operator.Handlers.Events.{Event}
use vmcp_operator.Handlers.Gateways.{reconcile_gateway}
use vmcp_operator.Handlers.Servers.{reconcile_mcp}
use vmcp_operator.Handlers.Deleting.{IsReleased, reconcile_gateway-IsReleased}
use vmcp_operator.Handlers.Established.{WillHold, reconcile_gateway-WillHold}
use vmcp_operator.Handlers.Spared.{is_drained}
use vmcp_operator.Handlers.Protected.{
  Watched, IsProtected, handled, here, then_step, finalizer_protects,
}
use vmcp_operator.Finalizers.Patch.{apply_fns_to_body}
use vmcp_operator.Mapping.GatewaySpec.{map_gateway}
use vmcp_operator.Handlers.Waking.{Ended, reconcile_mcp-Ended}
use vmcp_operator.Handlers.Pending.{IsPending, reconcile_mcp-IsPending}
use vmcp_operator.Tests.Fixtures.{docs}
use vmcp_operator.Tests.Objects.{renderer, empty_cluster}
use vmcp_operator.Tests.Specs.{scaled, gateway_spec, mapped, mapped_run}

-- A cluster without gateways, where one server is left.
abbrev runtime : OperatorRuntime
runtime = record {
  apply = memory "vmcp-operator" 5;
  artifacts = renderer;
  secrets = none;
  sha256 = λ payload. "hash";
  list_mcps = λ key s. (ok (docs ∷ []), s);
  get_gateway = λ key s. (ok none, s);
  unregister_upstream = none;
  gateway_toucher = none;
}

abbrev operator : Operator InMemoryApplier
operator = record { cluster = empty_cluster; pending = []; status = end; fns = [] }

abbrev meta : Fields
meta = fields (("generation", num (pos 3)) ∷ [])

-- A gateway without a public route.
abbrev routeless : Event
routeless = record {
  namespace = "ns";
  name = "prod";
  spec = fields (("image", str "vmcp:1.3") ∷ []);
  meta = meta;
  body = none;
  old = none;
}

abbrev deleted : Event
deleted = record routeless {
  spec = gateway_spec;
  meta = fields (
      ("deletionTimestamp", str "2024-01-01T00:00:00Z")
      ∷ ("finalizers", list (str gateway_finalizer ∷ []))
      ∷ []);
}

reconcile_gateway-IsReleased_example :
    Returns
      (λ _ t. IsReleased (ltb 0 (length (docs ∷ []))) operator t)
      (reconcile_gateway runtime scaled [] "now" deleted operator)
unfolding vmcp_operator.Status.generation_of vmcp_operator.Base.string_eq
    vmcp_operator.Handlers.Events.gateway_violations vmcp_operator.Handlers.Events.finalizers_of
    vmcp_operator.Handlers.Events.owner_body vmcp_operator.Json.Access.to_iter
reconcile_gateway-IsReleased_example =
    reconcile_gateway-IsReleased runtime scaled [] "now" deleted (pos 0) mapped (docs ∷ [])
      (gateway_finalizer ∷ []) none operator refl refl mapped_run refl refl refl refl refl

-- The same gateway, when it is created.
abbrev created : Event
created = record deleted { meta = meta }

reconcile_gateway-WillHold_example :
    OnDone (λ _ t. WillHold [] t) (reconcile_gateway runtime scaled [] "now" created operator)
unfolding vmcp_operator.Base.string_eq vmcp_operator.Handlers.Events.gateway_violations
    vmcp_operator.Handlers.Events.finalizers_of vmcp_operator.Json.Access.to_iter
reconcile_gateway-WillHold_example =
    reconcile_gateway-WillHold runtime scaled [] "now" created mapped [] operator refl mapped_run
      refl refl refl

-- The object that is being deleted, before and after its event.
abbrev protected : Watched
protected = record { finalizers = gateway_finalizer ∷ []; deleting = true; drained = false }

abbrev after : Watched
after = record protected {
  finalizers =
      apply_fns_to_body (reconcile_gateway runtime scaled [] "now" deleted operator).1.fns
        (gateway_finalizer ∷ []);
  drained = is_drained runtime operator.cluster (map_gateway "ns" "prod" gateway_spec);
}

finalizer_protects_example : IsProtected after
unfolding vmcp_operator.Handlers.Events.finalizers_of vmcp_operator.Json.Access.to_iter
    vmcp_operator.Base.string_eq
finalizer_protects_example =
    finalizer_protects runtime scaled [] "now" protected after refl
      (then_step here (handled protected deleted operator refl refl refl))

-- A server that names the gateway.
abbrev server : Event
server = record routeless {
  name = "docs";
  spec = fields (
      ("gatewayRef", dict (("name", str "prod") ∷ []))
      ∷ (
        "source",
        dict (("type", str "RemoteHttp") ∷ ("url", str "https://docs.example.org/mcp") ∷ []),
      )
      ∷ []);
}

server_run : map_mcp "ns" "docs" server.spec ≡ ok docs
unfolding map_mcp vmcp_operator.Base.string_eq vmcp_operator.Json.Access.to_iter
    vmcp_operator.Base.traverse
server_run = refl

reconcile_mcp-Ended_example :
    OnDone (λ _ t. Ended docs.gateway_key t) (reconcile_mcp runtime [] "now" server operator)
reconcile_mcp-Ended_example = reconcile_mcp-Ended runtime [] "now" server docs operator server_run

reconcile_mcp-IsPending_example :
    Returns
      (λ _ t. IsPending runtime [] "now" docs [] t)
      (reconcile_mcp runtime [] "now" server operator)
unfolding vmcp_operator.Handlers.Pending.TouchReturns vmcp_operator.Base.string_eq
    vmcp_operator.Status.generation_of vmcp_operator.Handlers.Events.mcp_violations
    vmcp_operator.Handlers.Events.finalizers_of vmcp_operator.Handlers.Events.owner_body
    vmcp_operator.Json.Access.to_iter
reconcile_mcp-IsPending_example =
    reconcile_mcp-IsPending runtime [] "now" server (pos 3) docs [] none operator refl refl
      server_run refl refl tt refl refl
