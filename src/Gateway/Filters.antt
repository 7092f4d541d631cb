-- ===== src/Gateway/Filters.antt =====
-- python/vmcp_operator/domain/usecases/render_gateway_manifests.py: the filters of a route's rule.
pub mod Single
use vmcp_operator.Base.{
  String, Bool, true, false, not, ◌&&◌, ◌||◌, Option, none, some, List, [], ◌∷◌, ◌++◌, map, ◌==◌,
  string_eq, if◌then◌else◌, truthy, lower, Result, ok, err, ◌>>=◌,
}
use vmcp_operator.Base.Dict.{Dict, insert, values}
use vmcp_operator.Json.{Value, str, arr, obj, Fields, end, fields, dict, list, get}
use vmcp_operator.Json.Access.{to_str, to_iter, or_value, or_default}
use vmcp_operator.Models.Gateway.{GatewayDesired, RouteDesired}
use vmcp_operator.Gateway.Headers.{dedupe_header_names, strip_headers_for_route, wants_hop_inject}

-- The loop of `_dedupe_named_headers`: the last item of a name, at the place of its first.
unfoldable pub by_name : Dict Fields → List Fields → Dict Fields
by_name d [] = d
by_name d (item ∷ items) =
    by_name (insert (lower (to_str (or_default (get item "name") (str "")))) item d) items

-- `_dedupe_named_headers`
unfoldable pub dedupe_named_headers : List Fields → List Fields
unfolding by_name
dedupe_named_headers items = values (by_name [] items)

abbrev part : String → List Value → List (String × Value) → List (String × Value)
part key [] rest = rest
part key (v ∷ vs) rest = (key, list (v ∷ vs)) ∷ rest

-- `if not body: return None`
abbrev wrap : List (String × Value) → Option Fields
wrap [] = none
wrap (p ∷ ps) =
    some (
      fields
        (("type", str "RequestHeaderModifier") ∷ ("requestHeaderModifier", dict (p ∷ ps)) ∷ []))

-- `_merge_request_header_modifier`
unfoldable pub merge_request_header_modifier :
    List String → List Fields → List Fields → Option Fields
unfolding dedupe_header_names dedupe_named_headers
merge_request_header_modifier remove set_headers add_headers = wrap (
    part "remove" (map str (dedupe_header_names remove)) (
      part "set" (map obj (dedupe_named_headers set_headers))
        (part "add" (map obj (dedupe_named_headers add_headers)) [])))

-- `v == s` for a text `s`
abbrev pub is_text : Option Value → String → Bool
is_text (some (str t)) s = t == s
is_text v s = false

-- `copied.get("type") == "RequestHeaderModifier"`
unfoldable pub is_header_modifier : Fields → Bool
is_header_modifier filter = is_text (get filter "type") "RequestHeaderModifier"

-- `inner if isinstance(inner, dict) else {}`
abbrev pub dict_or_empty : Option Value → Fields
dict_or_empty (some (obj d)) = d
dict_or_empty v = end

-- `dict(item) for item in … if isinstance(item, dict)`
abbrev pub only_dicts : List Value → List Fields
only_dicts [] = []
only_dicts (obj d ∷ vs) = d ∷ only_dicts vs
only_dicts (v ∷ vs) = only_dicts vs

-- The lists that `_route_filters` fills.
pub record Collected : Type 0 where
  pub remove : List String
  pub set_headers : List Fields
  pub add_headers : List Fields
  pub extra_filters : List Fields

-- A filter of the route that is a header modifier joins the operator's own.
unfoldable pub absorb : Fields → Collected → Result Collected
absorb rhm c = do
  removed ← to_iter (or_value (get rhm "remove") (list []))
  sets ← to_iter (or_value (get rhm "set") (list []))
  adds ← to_iter (or_value (get rhm "add") (list []))
  ok (record c {
    remove = c.remove ++ map to_str removed;
    set_headers = c.set_headers ++ only_dicts sets;
    add_headers = c.add_headers ++ only_dicts adds;
  })

-- The loop over `route.extra_filters`.
unfoldable pub collect : List Fields → Collected → Result Collected
unfolding absorb is_header_modifier
collect [] c = ok c
collect (extra ∷ extras) c = elim (is_header_modifier extra) [
  | true ↦ absorb (dict_or_empty (get extra "requestHeaderModifier")) c >>= λ c'. collect extras c'
  | false ↦ collect extras (record c { extra_filters = c.extra_filters ++ extra ∷ [] })
]

-- The hop header that the operator sets, with its value.
unfoldable pub hop_of :
    GatewayDesired → RouteDesired → Option String → Bool → Option (String × String)
hop_of gateway route none inject = none
hop_of gateway route (some value) inject =
    if inject && wants_hop_inject route gateway && truthy value
    then some (
      if truthy gateway.auth.authentik.forward_auth_secret_header
          then gateway.auth.authentik.forward_auth_secret_header
          else "x-vmcp-forward-auth",
      value,
    )
    else none

abbrev hop_headers : Option (String × String) → List Fields
hop_headers none = []
hop_headers (some (name, value)) = fields (("name", str name) ∷ ("value", str value) ∷ []) ∷ []

abbrev hop_name : Option (String × String) → Option String
hop_name none = none
hop_name (some (name, value)) = some name

-- `filters`: the merged modifier, if there is one, and then the route's other filters.
unfoldable pub prepend : Option Fields → List Fields → List Fields
prepend none filters = filters
prepend (some merged) filters = merged ∷ filters

-- `_route_filters`
unfoldable pub route_filters :
    GatewayDesired → RouteDesired → Option String → Bool → Result (List Fields)
unfolding hop_of collect prepend merge_request_header_modifier
route_filters gateway route forward_auth_header_value inject = do
  let hop = hop_of gateway route forward_auth_header_value inject
  collected ← collect route.extra_filters (record {
    remove = strip_headers_for_route gateway route inject (hop_name hop);
    set_headers = hop_headers hop;
    add_headers = [];
    extra_filters = [];
  })
  let merged =
      merge_request_header_modifier collected.remove collected.set_headers collected.add_headers
  ok (prepend merged collected.extra_filters)
