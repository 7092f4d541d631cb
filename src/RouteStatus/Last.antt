-- ===== src/RouteStatus/Last.antt =====
-- Of several conditions of one type the last counts.
use vmcp_operator.Base.{
  String, Bool, ◌&&◌, Option, none, some, List, [], ◌∷◌, ◌==◌, string_eq, ◌≡◌, refl, if◌then◌else◌,
  arith, ok,
}
use vmcp_operator.Base.Dict.{Dict, lookup, insert, lookup-insert}
use vmcp_operator.Json.{Fields}
use vmcp_operator.Ports.{is_some}
use vmcp_operator.RouteStatus.{
  RouteCondition, RouteStatusSummary, parse_route_conditions, summarize_route_status, summary,
  by_type, is_true, affirms,
}

-- The last condition of a type.
unfoldable pub last_of : String → List RouteCondition → Option RouteCondition
last_of k [] = none
last_of k (c ∷ cs) =
    let rest = last_of k cs in if is_some rest then rest else if k == c.type then some c else none

lookup-by_type :
    (k : String) (d : Dict RouteCondition) (cs : List RouteCondition)
    → lookup k (by_type d cs) ≡ (if is_some (last_of k cs) then last_of k cs else lookup k d)
unfolding by_type last_of
lookup-by_type k d [] = refl
lookup-by_type k d (c ∷ cs) =
    ground (arith, lookup-by_type k (insert c.type c d) cs, lookup-insert k c.type c d)

lookup-by_type_nil :
    (k : String) (cs : List RouteCondition) → lookup k (by_type [] cs) ≡ last_of k cs
unfolding lookup
lookup-by_type_nil k cs = ground (arith, lookup-by_type k [] cs)

-- The readiness that a last condition "Ready" states, or a default without one.
abbrev pub stated_or : Bool → Option RouteCondition → Bool
stated_or default none = default
stated_or default (some c) = affirms c.status

-- The flags of a summary of conditions: each is what the last condition of its type says, and
-- without a condition "Ready" a route is ready exactly if it is accepted and resolved.
unfoldable pub FollowsLast : RouteStatusSummary → List RouteCondition → Type 0
FollowsLast s cs =
    (s.accepted ≡ is_true (last_of "Accepted" cs))
    × (s.resolved_refs ≡ is_true (last_of "ResolvedRefs" cs))
    × (s.ready ≡ stated_or (s.accepted && s.resolved_refs) (last_of "Ready" cs))

ready-stated :
    (o : Option RouteCondition) (default : Bool)
    → (if is_some o then is_true o else default) ≡ stated_or default o
unfolding is_true
ready-stated none default = refl
ready-stated (some c) default = refl

-- A summary of a status whose conditions can be read follows the last condition of each type,
-- whatever the conditions' number and order.
pub summary-FollowsLast :
    (name : String) (status : Option Fields) (cs : List RouteCondition)
    → parse_route_conditions status ≡ ok cs
    → (s : RouteStatusSummary) × (summarize_route_status name status ≡ ok s) × FollowsLast s cs
unfolding summarize_route_status FollowsLast summary is_true
summary-FollowsLast name status cs h = (
  summary name (by_type [] cs),
  rw h refl,
  (
    rw (lookup-by_type_nil "Accepted" cs) refl,
    rw (lookup-by_type_nil "ResolvedRefs" cs) refl,
    rw (lookup-by_type_nil "Ready" cs) (ready-stated (last_of "Ready" cs) _),
  ),
)
