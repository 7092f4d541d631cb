-- ===== src/Reconcile.antt =====
-- python/vmcp_operator/adapters/driving/k8s/reconcile.py: the hop secret of a pass, and the opaque
-- objects attached to a gateway.
pub mod Placed
pub mod Passes
use vmcp_operator.Base.{
  String, ◌<>◌, Bool, true, false, not, ◌&&◌, ◌||◌, Option, none, some, List, [], ◌∷◌, ◌++◌,
  if◌then◌else◌, any, truthy, strip, value_error, type_error, Result, ok, err, ◌>>=◌, ◌>>◌,
  raise_if,
}
use vmcp_operator.Json.{Value, str, obj, Fields, end, get, set}
use vmcp_operator.Json.Access.{or_value}
use vmcp_operator.Models.Gateway.{GatewayDesired, RouteDesired, SecretRef}
use vmcp_operator.Ports.{is_some}
use vmcp_operator.Ownership.{missing}
use vmcp_operator.Gateway.Headers.{wants_hop_inject}

abbrev admin_routes : Option RouteDesired → List RouteDesired
admin_routes none = []
admin_routes (some route) = route ∷ []

-- `_wants_admin_hop_inject`
unfoldable pub wants_admin_hop_inject : GatewayDesired → Bool
unfolding wants_hop_inject
wants_admin_hop_inject gateway =
    any (λ route. route.manage && wants_hop_inject route gateway)
      (admin_routes gateway.admin_route ++ gateway.extra_routes)

-- `SecretValueLoader`: the value of a secret in a namespace.
abbrev pub SecretValueLoader : Type 0
SecretValueLoader = String → SecretRef → Option String

-- A value that is not blank.
unfoldable pub not_blank : Option String → Option String
not_blank none = none
not_blank (some value) = if truthy (strip value) then some value else none

unfoldable pub load_with : Option SecretValueLoader → String → Option SecretRef → Option String
unfolding not_blank
load_with none namespace ref = none
load_with (some secrets) namespace none = none
load_with (some secrets) namespace (some ref) = not_blank (secrets namespace ref)

-- `GatewayReconcile._load_hop_secret`
unfoldable pub load_hop_secret : Option SecretValueLoader → GatewayDesired → Option String
unfolding wants_admin_hop_inject load_with
load_hop_secret secrets gateway =
    if not (wants_admin_hop_inject gateway)
    then none
    else load_with secrets gateway.key.namespace gateway.auth.authentik.forward_auth_secret_ref

-- What an assignment to an item needs of the value, and `dict(value)`.
unfoldable pub as_dict : Value → Result Fields
as_dict (obj d) = ok d
as_dict v = err (type_error "not a dict")

-- `body.setdefault("metadata", {})`
abbrev pub or_new : Option Value → Value
or_new none = obj end
or_new (some v) = v

-- `labels.setdefault(key, value)`
abbrev pub set_default : Fields → String → Value → Fields
set_default d key value = if is_some (get d key) then d else set d key value

-- The metadata with the gateway's namespace and label.
unfoldable pub placed_metadata : GatewayDesired → Fields → Result Fields
unfolding set as_dict
placed_metadata gateway meta =
    let here = set meta "namespace" (str gateway.key.namespace) in
    as_dict (or_value (get here "labels") (obj end)) >>= λ labels.
    ok (set here "labels" (obj (set_default labels "vmcp.io/gateway" (str gateway.key.name))))

-- `_materialize_attachment`
unfoldable pub materialize_attachment : Fields → GatewayDesired → Result Fields
unfolding placed_metadata as_dict set
materialize_attachment attachment gateway =
    as_dict (or_new (get attachment "metadata")) >>= placed_metadata gateway >>= λ meta.
    raise_if
      (missing (get attachment "apiVersion")
        || missing (get attachment "kind")
        || missing (get meta "name"))
      (value_error "attachment requires apiVersion, kind, and metadata.name")
    >> ok (set attachment "metadata" (obj meta))
