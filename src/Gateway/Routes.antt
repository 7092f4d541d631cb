-- ===== src/Gateway/Routes.antt =====
-- python/vmcp_operator/domain/usecases/render_gateway_manifests.py: the HTTPRoute of a route.
use vmcp_operator.Base.{String, ◌<>◌, Bool, Option, List, [], ◌∷◌, ◌++◌, map, Result, ok, ◌>>=◌}
use vmcp_operator.Base.Integer.{pos}
use vmcp_operator.Json.{Value, str, num, obj, Fields, end, fields, dict, list, set}
use vmcp_operator.Models.Gateway.{GatewayDesired, GatewayParentRef, RouteDesired}
use vmcp_operator.Gateway.EarlyStrip.{given_text, section_entry}
use vmcp_operator.Gateway.Filters.{route_filters}

abbrev pub namespace_entry : List String → List (String × Value)
namespace_entry [] = []
namespace_entry (ns ∷ nss) = ("namespace", str ns) ∷ []

-- `_parent_ref`
unfoldable pub parent_ref : GatewayParentRef → Value
parent_ref ref = dict (
    (("name", str ref.name) ∷ namespace_entry (given_text ref.namespace))
    ++ section_entry ref.section_name)

abbrev pub filters_entry : List Fields → List (String × Value)
filters_entry [] = []
filters_entry (f ∷ fs) = ("filters", list (map obj (f ∷ fs))) ∷ []

-- `rule`
abbrev pub route_rule : GatewayDesired → RouteDesired → List Fields → Value
route_rule gateway route filters = dict (
    (
      "matches",
      list (
          dict (("path", dict (("type", str "PathPrefix") ∷ ("value", str route.path) ∷ [])) ∷ [])
          ∷ []),
    )
    ∷ (
      "backendRefs",
      list (dict (("name", str gateway.key.name) ∷ ("port", num (pos 8080)) ∷ []) ∷ []),
    )
    ∷ filters_entry filters)

-- `dict(pairs)`, from the entries read so far: of two pairs with one key, the later one gives the
-- value and the earlier one the place.
unfoldable pub text_dict : Fields → List (String × String) → Fields
unfolding set
text_dict d [] = d
text_dict d ((k, v) ∷ rest) = text_dict (set d k (str v)) rest

abbrev pub annotations_entry : List (String × String) → List (String × Value)
annotations_entry [] = []
annotations_entry (a ∷ annotations) = ("annotations", obj (text_dict end (a ∷ annotations))) ∷ []

-- `obj`, from the filters of its rule.
abbrev pub route_object :
    GatewayDesired → RouteDesired → String → List (String × Value) → List Fields → Fields
route_object gateway route suffix labels filters = fields (
    ("apiVersion", str "gateway.networking.k8s.io/v1")
    ∷ ("kind", str "HTTPRoute")
    ∷ (
      "metadata",
      dict (
          ("name", str (gateway.key.name <> ("-" <> suffix)))
          ∷ ("namespace", str gateway.key.namespace)
          ∷ ("labels", dict labels)
          ∷ annotations_entry route.annotations),
    )
    ∷ (
      "spec",
      dict (
          ("parentRefs", list (parent_ref route.gateway_ref ∷ []))
          ∷ ("hostnames", list (str route.hostname ∷ []))
          ∷ ("rules", list (route_rule gateway route filters ∷ []))
          ∷ []),
    )
    ∷ [])

-- `_httproute`
unfoldable pub httproute :
    GatewayDesired
    → RouteDesired
    → String
    → List (String × Value)
    → Bool
    → Option String
    → Result Fields
unfolding parent_ref
httproute gateway route suffix labels inject forward_auth_header_value =
    route_filters gateway route forward_auth_header_value inject >>= λ filters.
    ok (route_object gateway route suffix labels filters)
