-- ===== src/Nl/Structured.antt =====
-- python/vmcp_operator/domain/usecases/nl_crud.py: `NlCrud.intent_from_structured`.
use vmcp_operator.Base.{
  String, ◌<>◌, false, Option, none, some, ◌==◌, string_eq, if◌then◌else◌, value_error, type_error,
  Result, ok, err, ◌>>=◌,
}
use vmcp_operator.Json.{Value, null, bool, str, obj, Fields, get}
use vmcp_operator.Json.Access.{truth, or_value, or_default, to_str, to_text?, repr_str}
use vmcp_operator.Models.Gateway.{GatewayKey}
use vmcp_operator.ManageMcp.{McpMutation, add, update, remove, list}
use vmcp_operator.ManageMcp
use vmcp_operator.Nl.Words.{parse_gateway}
use vmcp_operator.Nl.{NlIntent}

-- `McpMutation(value)`
unfoldable pub mutation_of : String → Result McpMutation
mutation_of value =
    if value == "add"
    then ok add
    else if value == "update"
    then ok update
    else if value == "remove"
    then ok remove
    else if value == "list"
    then ok list
    else if value == "get"
    then ok ManageMcp.get
    else err (value_error (repr_str value <> " is not a valid McpMutation"))

-- The gateway of a body, unless it is missing or empty.
unfoldable pub body_gateway : Option Value → Result (Option GatewayKey)
body_gateway v =
    let raw = or_default v null in
    if truth raw then parse_gateway (to_str raw) >>= (λ key. ok (some key)) else ok none

-- The fields of a body where they are a dict, else its spec.
abbrev to_fields? : Option Value → Result (Option Fields)
to_fields? none = ok none
to_fields? (some null) = ok none
to_fields? (some (obj d)) = ok (some d)
to_fields? (some v) = err (type_error "expected a dict or None")

unfoldable pub body_fields : Fields → Result (Option Fields)
body_fields body = elim (get body "fields") [
  | some (obj d) ↦ ok (some d)
  | _ ↦ to_fields? (get body "spec")
]

-- `NlCrud.intent_from_structured`
unfoldable pub intent_from_structured : Fields → Result NlIntent
unfolding mutation_of body_gateway body_fields
intent_from_structured body = do
  mutation ←
      mutation_of (to_str (or_value (get body "action") (or_value (get body "mutation") (str ""))))
  gateway ← body_gateway (get body "gateway")
  name ← to_text? (get body "name")
  d ← body_fields body
  ok (record {
    mutation = mutation;
    gateway = gateway;
    name = name;
    fields = d;
    dry_run = truth (or_default (get body "dryRun") (bool false));
  })
