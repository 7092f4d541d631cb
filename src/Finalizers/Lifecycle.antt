-- ===== src/Finalizers/Lifecycle.antt =====
-- What the decisions on finalizers do to an object once the transforms are applied to it.
use mathlib.Core.Bool.{and-true}
use vmcp_operator.Base.{
  ℕ, String, Bool, true, false, not, ◌&&◌, ◌||◌, List, [], ◌==◌, string_eq, ◌≡◌, sym, if◌then◌else◌,
  ltb, contains, arith, Bool-cases, inl, inr,
}
use vmcp_operator.Finalizers.{
  FinalizerDecision, plan_gateway_finalizer, plan_mcp_finalizer, gateway_finalizer, mcp_finalizer,
}
use vmcp_operator.Finalizers.Patch.{
  ensure_finalizer, drop_finalizer, apply_fn, schedule_finalizer_adds, schedule_finalizer_removes,
  apply_fns_to_body, contains-ensure_finalizer, contains-drop_finalizer,
}

-- The finalizers of an object once the transforms of a decision are applied to it.
unfoldable pub deliver : FinalizerDecision → List String → List String
deliver d finalizers =
    apply_fns_to_body (schedule_finalizer_removes (schedule_finalizer_adds [] d.add) d.remove)
      finalizers

-- What a decision on the finalizer `own` leaves: `own` stands there exactly if it is to stay, and
-- every other finalizer as before.
unfoldable pub Leaves : String → Bool → List String → List String → Type 0
Leaves own stays before after =
    (a : String) → contains after a ≡ (if a == own then stays else contains before a)

kept-Leaves :
    (own : String) (b : Bool) (fs : List String) → contains fs own ≡ b → Leaves own b fs fs
unfolding Leaves
kept-Leaves own b fs h a = ground arith

added-Leaves :
    (own : String) (fs : List String) → Leaves own true fs (apply_fn (ensure_finalizer own) fs)
unfolding Leaves
added-Leaves own fs a = ground (arith, contains-ensure_finalizer own a fs)

dropped-Leaves :
    (own : String) (fs : List String) → Leaves own false fs (apply_fn (drop_finalizer own) fs)
unfolding Leaves
dropped-Leaves own fs a = ground (arith, contains-drop_finalizer own a fs)

-- The decision on a gateway, delivered: its own finalizer stands afterwards exactly if the gateway
-- is not being deleted, or it stood before and children remain; other finalizers stay as they were.
pub deliver-plan_gateway_finalizer :
    (fs : List String) (deleting : Bool) (children : ℕ)
    → Leaves gateway_finalizer
        (not deleting || (contains fs gateway_finalizer && ltb 0 children))
        fs
        (deliver (plan_gateway_finalizer fs deleting children) fs)
unfolding deliver plan_gateway_finalizer schedule_finalizer_adds schedule_finalizer_removes
    apply_fns_to_body
deliver-plan_gateway_finalizer fs false children =
    elim (Bool-cases (contains fs gateway_finalizer)) [
      | inl e ↦ rw e (kept-Leaves gateway_finalizer true fs e)
      | inr e ↦ rw e (added-Leaves gateway_finalizer fs)
    ]
deliver-plan_gateway_finalizer fs true children = elim (Bool-cases (ltb 0 children)) [
  | inl e ↦
      rw e (
        kept-Leaves gateway_finalizer (contains fs gateway_finalizer && true) fs (sym (and-true _)))
  | inr e ↦ elim (Bool-cases (contains fs gateway_finalizer)) [
    | inl h ↦ rw (e, h) (dropped-Leaves gateway_finalizer fs)
    | inr h ↦ rw (e, h) (kept-Leaves gateway_finalizer false fs h)
  ]
]

-- The decision on an MCP server, delivered: its own finalizer stands afterwards exactly if the
-- server is not being deleted, or it stood before and the upstream is not unregistered; other
-- finalizers stay as they were.
pub deliver-plan_mcp_finalizer :
    (fs : List String) (deleting unregistered : Bool)
    → Leaves mcp_finalizer
        (not deleting || (contains fs mcp_finalizer && not unregistered))
        fs
        (deliver (plan_mcp_finalizer fs deleting unregistered) fs)
unfolding deliver plan_mcp_finalizer schedule_finalizer_adds schedule_finalizer_removes
    apply_fns_to_body
deliver-plan_mcp_finalizer fs false u = elim (Bool-cases (contains fs mcp_finalizer)) [
  | inl e ↦ rw e (kept-Leaves mcp_finalizer true fs e)
  | inr e ↦ rw e (added-Leaves mcp_finalizer fs)
]
deliver-plan_mcp_finalizer fs true true = elim (Bool-cases (contains fs mcp_finalizer)) [
  | inl e ↦ rw e (dropped-Leaves mcp_finalizer fs)
  | inr e ↦ rw e (kept-Leaves mcp_finalizer false fs e)
]
deliver-plan_mcp_finalizer fs true false =
    kept-Leaves mcp_finalizer (contains fs mcp_finalizer && true) fs (sym (and-true _))
