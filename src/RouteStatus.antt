-- ===== src/RouteStatus.antt =====
-- python/vmcp_operator/domain/usecases/route_status.py: what the conditions of an HTTPRoute say.
pub mod Last
use vmcp_operator.Base.{
  String, ◌<>◌, Bool, true, false, not, ◌&&◌, ◌||◌, Option, none, some, List, [], ◌∷◌, map, ◌==◌,
  string_eq, if◌then◌else◌, lower, truthy, select, Result, ok, err, ◌>>=◌,
}
use vmcp_operator.Base.Dict.{Dict, lookup, insert, values}
use vmcp_operator.Json.{Value, str, obj, Fields, end, field, get, nil, arr}
use vmcp_operator.Json.Access.{or_value, or_default, to_str, to_iter}
use vmcp_operator.Ports.{is_some}

pub record RouteCondition : Type 0 where
  pub type : String
  pub status : String
  pub reason : String
  pub message : String

pub record RouteStatusSummary : Type 0 where
  pub name : String
  pub accepted : Bool
  pub resolved_refs : Bool
  pub ready : Bool
  pub reasons : List String

-- `str(item.get(key, ""))`
abbrev text_of : Fields → String → String
text_of d key = to_str (or_default (get d key) (str ""))

-- The loop of `parse_route_conditions`: what is not a dict is passed over.
unfoldable pub conditions_of : List Value → List RouteCondition
conditions_of [] = []
conditions_of (obj d ∷ items) =
    record {
      type = text_of d "type";
      status = text_of d "status";
      reason = text_of d "reason";
      message = text_of d "message";
    }
    ∷ conditions_of items
conditions_of (v ∷ items) = conditions_of items

-- `parse_route_conditions`
unfoldable pub parse_route_conditions : Option Fields → Result (List RouteCondition)
unfolding conditions_of
parse_route_conditions none = ok []
parse_route_conditions (some end) = ok []
parse_route_conditions (some (field k v d)) =
    to_iter (or_value (get (field k v d) "conditions") (arr nil)) >>= λ raw. ok (conditions_of raw)

-- `status.lower() in {"true", "1"}`
unfoldable pub affirms : String → Bool
affirms status = lower status == "true" || lower status == "1"

-- `_is_true`
unfoldable pub is_true : Option RouteCondition → Bool
unfolding affirms
is_true none = false
is_true (some c) = affirms c.status

-- `{c.type: c for c in conditions}`
unfoldable pub by_type : Dict RouteCondition → List RouteCondition → Dict RouteCondition
by_type d [] = d
by_type d (c ∷ cs) = by_type (insert c.type c d) cs

abbrev pub reason_text : RouteCondition → String
reason_text c = c.type <> (":" <> (if truthy c.reason then c.reason else c.status))

-- The summary, from the conditions by type.
unfoldable pub summary : String → Dict RouteCondition → RouteStatusSummary
unfolding is_true
summary name conditions =
    let accepted = is_true (lookup "Accepted" conditions) in
    let resolved = is_true (lookup "ResolvedRefs" conditions) in
    record {
      name = name;
      accepted = accepted;
      resolved_refs = resolved;
      ready =
          if is_some (lookup "Ready" conditions)
          then is_true (lookup "Ready" conditions)
          else accepted && resolved;
      reasons = map reason_text (select (λ c. not (affirms c.status)) (values conditions));
    }

-- `summarize_route_status`
unfoldable pub summarize_route_status : String → Option Fields → Result RouteStatusSummary
unfolding parse_route_conditions by_type summary
summarize_route_status name status =
    parse_route_conditions status >>= λ cs. ok (summary name (by_type [] cs))

-- `assert_routes_ready`
unfoldable pub assert_routes_ready : List RouteStatusSummary → List RouteStatusSummary
assert_routes_ready = select (λ route. not route.ready)
