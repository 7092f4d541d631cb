-- ===== src/Handlers/Waking.antt =====
-- A server's pass wakes the gateway.
use mathlib.Core.Path.{subst}
use vmcp_operator.Base.{
  String, Bool, true, false, ◌&&◌, Option, none, some, List, [], ◌∷◌, ◌++◌, string_eq, ◌≡◌, sym,
  ◌⊎◌, inl, inr, arith, contains, contains-append, if◌then◌else◌, Result, ok, err,
}
use vmcp_operator.Base.Integer.{ℤ}
use vmcp_operator.Base.Exec.{Exec, pure, lift, continue, ◌>>◌, OnDone, bind-OnDone}
use vmcp_operator.Json.{Value, str, Fields, get}
use vmcp_operator.Models.Gateway.{GatewayDesired, GatewayKey, as_str}
use vmcp_operator.Models.Mcp.{McpServerDesired}
use vmcp_operator.Status.{Outcome, generation_of}
use vmcp_operator.Status.Written.{get-apply_status_field, expected}
use vmcp_operator.Finalizers.{FinalizerDecision, plan_mcp_finalizer}
use vmcp_operator.Mapping.McpSpec.{map_mcp}
use vmcp_operator.Immutable.{ImmutableViolation}
use vmcp_operator.Handlers.Runtime.{
  OperatorRuntime, Operator, gateway_reconcile, mcp_reconcile, on_cluster, enqueue, touch_with,
  touch_gateway,
}
use vmcp_operator.Handlers.Events.{
  Event, mcp_violations, is_deleting, finalizers_of, owner_body, outcome, immutable_outcome,
  blocked_outcome, set_status, add_finalizers, remove_finalizers, not_empty,
}
use vmcp_operator.Handlers.Servers.{
  unregistered, pending_mcp, pending_adds, applied_mcp, with_gateway, decided_mcp, locked_mcp,
  mapped_mcp, checked_mcp, reconcile_mcp, pending_outcome, applied_outcome,
}
use vmcp_operator.Reconcile.Passes as Passes

enqueued :
    (ps : List String) (k : String) → contains (if contains ps k then ps else ps ++ k ∷ []) k ≡ true
enqueued ps k = ground (arith, contains-append ps (k ∷ []) k)

module _ {S : Type 0} where
  abbrev pub phase_of : Operator S → Option Value
  phase_of s = get s.status "phase"

  pub phase-set_status :
      (crd_skew : List String) (now : String) (o : Outcome) (s : Operator S)
      → OnDone (λ _ t. phase_of t ≡ some (str o.phase)) (set_status crd_skew now o s)
  unfolding set_status expected string_eq
  phase-set_status crd_skew now o s = get-apply_status_field _ now s.status "phase"

  -- The gateway waits for a pass.
  abbrev pub Waits : GatewayKey → Operator S → Type 0
  Waits key s = contains s.pending (as_str key) ≡ true

  -- A pass that ends with a phase in which nothing was done, or with the gateway woken.
  abbrev pub Ended : GatewayKey → Operator S → Type 0
  Ended key s =
      (phase_of s ≡ some (str "Invalid")) ⊎ (phase_of s ≡ some (str "Deleting")) ⊎ Waits key s

  pub enqueue-Waits :
      (key : GatewayKey) (s : Operator S) → OnDone (λ _ t. Waits key t) (enqueue key s)
  unfolding enqueue
  enqueue-Waits key s = enqueued s.pending (as_str key)

  touch_with-Waits :
      (touch : Option (GatewayKey → Exec S (Unit {0}))) (key : GatewayKey) (s : Operator S)
      → Waits key s
      → OnDone (λ _ t. Waits key t) (touch_with touch key s)
  unfolding touch_with on_cluster
  touch_with-Waits none key s h = h
  touch_with-Waits (some touch) key s h = go (touch key s.cluster).0 (touch key s.cluster).1
    where
      go :
          (r : Result (Unit {0})) (c : S)
          → OnDone (λ _ t. Waits key t) (r, record s { cluster = c })
      go (ok done) c = h
      go (err e) c = tt

  set_status-Waits :
      (key : GatewayKey) (crd_skew : List String) (now : String) (o : Outcome) (s : Operator S)
      → Waits key s
      → OnDone (λ _ t. Ended key t) (set_status crd_skew now o s)
  unfolding set_status
  set_status-Waits key crd_skew now o s h = inr (inr h)

  -- A step that leads to a predicate from every state.
  step {ℓ κ} :
      {A : Type ℓ} {B : Type κ} (key : GatewayKey) (r : Result A × Operator S)
      (next : A → Exec (Operator S) B)
      → ((a : A) (t : Operator S) → OnDone (λ _ u. Ended key u) (next a t))
      → OnDone (λ _ u. Ended key u) (continue r.0 next r.1)
  step key (ok a, t) next h = h a t
  step key (err e, t) next h = tt

module _ (runtime : OperatorRuntime) (crd_skew : List String) (now : String) where
  touch_gateway-Waits :
      (key : GatewayKey) (s : Operator runtime.apply.applier.State)
      → OnDone (λ _ t. Waits key t) (touch_gateway runtime key s)
  unfolding touch_gateway
  touch_gateway-Waits key s =
      bind-OnDone (λ _ t. Waits key t) (λ _ t. Waits key t) (enqueue key s)
        (λ _. touch_with runtime.gateway_toucher key) (enqueue-Waits key s)
        (λ done t h. touch_with-Waits runtime.gateway_toucher key t h)

  -- A handler that touches the gateway at last and then writes the status.
  touched-Ended {ℓ} :
      {A : Type ℓ} (key : GatewayKey) (o : Outcome) (s : Operator runtime.apply.applier.State)
      (r : Result A × Operator runtime.apply.applier.State)
      → OnDone
          (λ _ t. Ended key t)
          (continue
            (continue r.0 (λ _. touch_gateway runtime key) r.1).0
            (λ _. set_status crd_skew now o)
            (continue r.0 (λ _. touch_gateway runtime key) r.1).1)
  touched-Ended key o s (err e, t) = tt
  touched-Ended key o s (ok a, t) =
      bind-OnDone (λ _ u. Waits key u) (λ _ u. Ended key u) (touch_gateway runtime key t)
        (λ _. set_status crd_skew now o) (touch_gateway-Waits key t)
        (λ done u h. set_status-Waits key crd_skew now o u h)

  with_gateway-Ended :
      (generation : ℤ) (mcp : McpServerDesired) (gateway : Option GatewayDesired)
      (owner : Option Fields) (decision : FinalizerDecision)
      (s : Operator runtime.apply.applier.State)
      → OnDone
          (λ _ t. Ended mcp.gateway_key t)
          (with_gateway runtime crd_skew now generation mcp gateway owner decision s)
  unfolding with_gateway pending_mcp applied_mcp
  with_gateway-Ended generation mcp none owner decision s =
      touched-Ended mcp.gateway_key (pending_outcome generation mcp) s
        (add_finalizers (pending_adds decision.add) s)
  with_gateway-Ended generation mcp (some gateway) owner decision s =
      step mcp.gateway_key
        (on_cluster (Passes.reconcile_mcp (mcp_reconcile runtime) gateway mcp owner) s) _
        (λ result t.
          step mcp.gateway_key (on_cluster (runtime.list_mcps mcp.gateway_key) t) _ (λ mcps u.
            step mcp.gateway_key
              (on_cluster (Passes.reconcile_gateway (gateway_reconcile runtime) gateway mcps none)
                u)
              _
              (λ applied v.
                touched-Ended mcp.gateway_key (applied_outcome generation mcp result) v
                  (add_finalizers decision.add v))))

  decided_mcp-Ended :
      (generation : ℤ) (mcp : McpServerDesired) (gateway : Option GatewayDesired)
      (owner : Option Fields) (deleting : Bool) (decision : FinalizerDecision)
      (s : Operator runtime.apply.applier.State)
      → OnDone
          (λ _ t. Ended mcp.gateway_key t)
          (decided_mcp runtime crd_skew now generation mcp gateway owner deleting decision s)
  unfolding decided_mcp
  decided_mcp-Ended generation mcp gateway owner deleting decision s =
      go decision.block_delete (deleting && not_empty decision.remove)
    where
      go :
          (b c : Bool)
          → OnDone
              (λ _ t. Ended mcp.gateway_key t)
              ((if b
                  then set_status crd_skew now (blocked_outcome generation decision.reason)
                  else if c
                  then remove_finalizers decision.remove
                    >> touch_gateway runtime mcp.gateway_key
                    >> set_status crd_skew now
                        (outcome "Finalized" generation "unregistered" "finalizers removed" true)
                  else with_gateway runtime crd_skew now generation mcp gateway owner decision)
                s)
      go true c =
          bind-OnDone (λ _ t. phase_of t ≡ some (str "Deleting")) (λ _ t. Ended mcp.gateway_key t)
            (set_status crd_skew now (blocked_outcome generation decision.reason) s) pure
            (phase-set_status crd_skew now (blocked_outcome generation decision.reason) s)
            (λ done t h. inr (inl h))
      go false true =
          touched-Ended mcp.gateway_key
            (outcome "Finalized" generation "unregistered" "finalizers removed" true) s
            (remove_finalizers decision.remove s)
      go false false = with_gateway-Ended generation mcp gateway owner decision s

  locked_mcp-Ended :
      (event : Event) (generation : ℤ) (mcp : McpServerDesired) (finalizers : List String)
      (owner : Option Fields) (s : Operator runtime.apply.applier.State)
      → OnDone
          (λ _ t. Ended mcp.gateway_key t)
          (locked_mcp runtime crd_skew now event generation mcp finalizers owner s)
  unfolding locked_mcp
  locked_mcp-Ended event generation mcp finalizers owner s =
      step mcp.gateway_key (on_cluster (runtime.get_gateway mcp.gateway_key) s) _ (λ gateway t.
        step mcp.gateway_key
          (unregistered runtime crd_skew now (is_deleting event) mcp.gateway_key mcp.name t) _
          (λ gone u.
            decided_mcp-Ended generation mcp gateway owner (is_deleting event)
              (plan_mcp_finalizer finalizers (is_deleting event) gone) u))

  checked_mcp-Ended :
      (event : Event) (generation : ℤ) (mcp : McpServerDesired) (vs : List ImmutableViolation)
      (s : Operator runtime.apply.applier.State)
      → map_mcp event.namespace event.name event.spec ≡ ok mcp
      → OnDone
          (λ _ t. Ended mcp.gateway_key t)
          (checked_mcp runtime crd_skew now event generation vs s)
  unfolding checked_mcp mapped_mcp
  checked_mcp-Ended event generation mcp (v ∷ vs) s h =
      bind-OnDone (λ _ t. phase_of t ≡ some (str "Invalid")) (λ _ t. Ended mcp.gateway_key t)
        (set_status crd_skew now (immutable_outcome generation v) s) pure
        (phase-set_status crd_skew now (immutable_outcome generation v) s) (λ done t e. inl e)
  checked_mcp-Ended event generation mcp [] s h =
      subst
        (λ r.
          OnDone (λ _ t. Ended mcp.gateway_key t)
            (mapped_mcp runtime crd_skew now event generation r s))
        (sym h)
        (step mcp.gateway_key (lift (finalizers_of event) s) _ (λ finalizers t.
          step mcp.gateway_key (lift (owner_body "VmcpMcpServer" event) t) _
            (λ owner u. locked_mcp-Ended event generation mcp finalizers owner u)))

  -- A pass over a server whose spec is mapped, where it returns, has refused the spec (phase
  -- "Invalid") or waits for the upstream's removal (phase "Deleting"), or the server's gateway
  -- waits for a pass of its own.
  pub reconcile_mcp-Ended :
      (event : Event) (mcp : McpServerDesired) (s : Operator runtime.apply.applier.State)
      → map_mcp event.namespace event.name event.spec ≡ ok mcp
      → OnDone (λ _ t. Ended mcp.gateway_key t) (reconcile_mcp runtime crd_skew now event s)
  unfolding reconcile_mcp
  reconcile_mcp-Ended event mcp s h =
      step mcp.gateway_key (lift (generation_of (some event.meta) event.body) s) _ (λ generation t.
        step mcp.gateway_key (lift (mcp_violations event) t) _
          (λ vs u. checked_mcp-Ended event generation mcp vs u h))
