-- ===== src/Gateway/EarlyStrip/Parents.antt =====
-- Which parents get a policy.
use mathlib.Core.Bool.{and-true}
use vmcp_operator.Base.{
  String, Bool, true, false, not, ◌&&◌, ◌||◌, Option, none, some, List, [], ◌∷◌, ◌++◌, map, any,
  ◌==◌, truthy, string_eq, ◌≡◌, ◌↔◌, ◌≢◌, refl, ap, ◌∙◌, if◌then◌else◌, contains, select, arith,
  NoDuplicates, contains-select,
}
use vmcp_operator.Models.Gateway.{GatewayDesired, GatewayParentRef, RouteDesired, parent_ref_eq}
use vmcp_operator.Gateway.EarlyStrip.{
  EarlyStripPlan, optional_route, strip_routes, distinct_parents, is_local, listener_policy,
  strip_plan, plan_for_parents, plan_early_identity_strip,
}

abbrev pub parents_of : List RouteDesired → List GatewayParentRef
parents_of = map (λ route. route.gateway_ref)

contains-distinct_parents :
    (seen : List GatewayParentRef) (routes : List RouteDesired) (a : GatewayParentRef)
    → contains (distinct_parents seen routes) a
      ≡ (contains (parents_of routes) a && not (contains seen a))
unfolding distinct_parents
contains-distinct_parents seen [] a = refl
contains-distinct_parents seen (r ∷ rs) a = ground (
  arith,
  contains-distinct_parents (if contains seen r.gateway_ref then seen else r.gateway_ref ∷ seen) rs
      a,
)

distinct_parents-NoDuplicates :
    (seen : List GatewayParentRef) (routes : List RouteDesired)
    → NoDuplicates (distinct_parents seen routes)
unfolding distinct_parents
distinct_parents-NoDuplicates seen [] = tt
distinct_parents-NoDuplicates seen (r ∷ rs) = ground (
  arith,
  distinct_parents-NoDuplicates (if contains seen r.gateway_ref then seen else r.gateway_ref ∷ seen)
      rs,
  contains-distinct_parents (r.gateway_ref ∷ seen) rs r.gateway_ref,
)

select-NoDuplicates :
    (p : GatewayParentRef → Bool) (xs : List GatewayParentRef)
    → NoDuplicates xs
    → NoDuplicates (select p xs)
select-NoDuplicates p [] h = tt
select-NoDuplicates p (x ∷ xs) h =
    ground (arith, select-NoDuplicates p xs h.1, contains-select p xs x)

-- The parents of stripping routes that lie in the gateway's own namespace.
unfoldable pub local_parents : GatewayDesired → List GatewayParentRef
local_parents g = select (is_local g) (distinct_parents [] (strip_routes g))

objects-plan_for_parents :
    (g : GatewayDesired) (refs : List GatewayParentRef)
    → (plan_for_parents g refs).objects ≡ map (listener_policy g) (select (is_local g) refs)
unfolding plan_for_parents
objects-plan_for_parents g [] = refl
objects-plan_for_parents g (r ∷ rs) = go (select (is_local g) (r ∷ rs)) _
  where
    go :
        (local : List GatewayParentRef) (cross : List String)
        → (strip_plan g local cross).objects ≡ map (listener_policy g) local
    go [] cross = refl
    go (x ∷ xs) cross = refl

-- A route that strips the identity headers hangs on the parent.
abbrev pub strips_at : GatewayParentRef → RouteDesired → Bool
strips_at ref route = route.strip_client_identity_headers && ref == route.gateway_ref

abbrev pub on_route : (RouteDesired → Bool) → Option RouteDesired → Bool
on_route p none = false
on_route p (some route) = p route

-- The public route, the admin route or an extra route hangs on the parent and strips.
abbrev pub is_stripped : GatewayDesired → GatewayParentRef → Bool
is_stripped g ref =
    strips_at ref g.public_route
    || on_route (strips_at ref) g.admin_route
    || any (strips_at ref) g.extra_routes

-- A reference without a namespace, or with an empty one, means the gateway's own.
abbrev pub stays_in : String → Option String → Bool
stays_in own none = true
stays_in own (some namespace) = not (truthy namespace) || namespace == own

is_local-stays_in :
    (g : GatewayDesired) (ref : GatewayParentRef)
    → is_local g ref ≡ stays_in g.key.namespace ref.namespace
is_local-stays_in g ref = go ref.namespace
  where
    go :
        (o : Option String)
        → ((elim o [ none ↦ g.key.namespace | some ns ↦ if truthy ns then ns else g.key.namespace ])
            == g.key.namespace)
          ≡ stays_in g.key.namespace o
    go none = ground arith
    go (some ns) = ground arith

contains-stripping :
    (ref : GatewayParentRef) (routes : List RouteDesired)
    → contains (parents_of (select (λ route. route.strip_client_identity_headers) routes)) ref
      ≡ any (strips_at ref) routes
contains-stripping ref [] = refl
contains-stripping ref (r ∷ rs) = ground (arith, contains-stripping ref rs)

contains-strip_routes :
    (g : GatewayDesired) (ref : GatewayParentRef)
    → contains (parents_of (strip_routes g)) ref ≡ is_stripped g ref
unfolding strip_routes
contains-strip_routes g ref =
    contains-stripping ref ((g.public_route ∷ optional_route g.admin_route) ++ g.extra_routes)
    ∙ go g.admin_route
  where
    go :
        (admin : Option RouteDesired)
        → any (strips_at ref) ((g.public_route ∷ optional_route admin) ++ g.extra_routes) ≡ (
            strips_at ref g.public_route
            || on_route (strips_at ref) admin
            || any (strips_at ref) g.extra_routes)
    go none = ground arith
    go (some route) = ground arith

-- Unless the gateway brings its own policies, the plan has one policy for each reference to a
-- parent in the gateway's own namespace, by the name of that namespace or by none, on which the
-- public, the admin or an extra route hangs that strips, and none for any other reference. No
-- reference, as it is written with its name, namespace and section, gets two.
pub objects-plan_early_identity_strip :
    (g : GatewayDesired) (ref : GatewayParentRef)
    → g.identity_strip.manage_listener_policy ≡ true
    → ((plan_early_identity_strip g).objects ≡ map (listener_policy g) (local_parents g))
      × (contains (local_parents g) ref
          ≡ (is_stripped g ref && stays_in g.key.namespace ref.namespace))
      × NoDuplicates (local_parents g)
unfolding plan_early_identity_strip local_parents
objects-plan_early_identity_strip g ref m =
    let all = distinct_parents [] (strip_routes g) in
    (
      simp m (objects-plan_for_parents g all),
      contains-select (is_local g) all ref
          ∙ ap (λ b. b && is_local g ref)
              (contains-distinct_parents [] (strip_routes g) ref
                ∙ and-true _
                ∙ contains-strip_routes g ref)
          ∙ ap (λ b. is_stripped g ref && b) (is_local-stays_in g ref),
      select-NoDuplicates (is_local g) all (distinct_parents-NoDuplicates [] (strip_routes g)),
    )

-- The phase tells whether there are objects.
unfoldable pub TellsPhase : EarlyStripPlan → Type 0
TellsPhase p = (p.phase ≡ "Applied") ↔ (p.objects ≢ [])

idle-TellsPhase :
    (phase message : String)
    → phase ≢ "Applied"
    → TellsPhase (record { objects = []; phase = phase; message = message })
unfolding TellsPhase
idle-TellsPhase phase message n = (λ h. absurd (n h), λ h. absurd (h refl))

strip_plan-TellsPhase :
    (g : GatewayDesired) (local : List GatewayParentRef) (cross : List String)
    → TellsPhase (strip_plan g local cross)
unfolding strip_plan TellsPhase
strip_plan-TellsPhase g [] cross =
    idle-TellsPhase "SkippedCrossNamespace" (strip_plan g [] cross).message (λ h. cc)
strip_plan-TellsPhase g (x ∷ xs) cross = (λ _. λ h. cc, λ _. refl)

plan_for_parents-TellsPhase :
    (g : GatewayDesired) (refs : List GatewayParentRef) → TellsPhase (plan_for_parents g refs)
unfolding plan_for_parents
plan_for_parents-TellsPhase g [] =
    idle-TellsPhase "Disabled" (plan_for_parents g []).message (λ h. cc)
plan_for_parents-TellsPhase g (r ∷ rs) = strip_plan-TellsPhase g (select (is_local g) (r ∷ rs)) _

-- The phase tells exactly whether policies are applied: it is "Applied" if and only if the plan
-- has objects.
pub plan_early_identity_strip-TellsPhase :
    (g : GatewayDesired) → TellsPhase (plan_early_identity_strip g)
unfolding plan_early_identity_strip
plan_early_identity_strip-TellsPhase g = go g.identity_strip.manage_listener_policy
  where
    go :
        (manage : Bool)
        → TellsPhase (
            if not manage
            then record {
              objects = [];
              phase = "Disabled";
              message = "identityStrip.manageListenerPolicy=false";
            }
            else plan_for_parents g (distinct_parents [] (strip_routes g)))
    go true = plan_for_parents-TellsPhase g _
    go false = idle-TellsPhase "Disabled" "identityStrip.manageListenerPolicy=false" (λ h. cc)
