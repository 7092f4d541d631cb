-- ===== src/Enqueue.antt =====
-- python/vmcp_operator/adapters/driving/k8s/enqueue.py: which gateway a labelled child belongs to.
pub mod Keys
use vmcp_operator.Base.{
  String, Bool, true, false, not, ◌&&◌, ◌||◌, Option, none, some, List, [], ◌∷◌, ◌==◌, string_eq,
  if◌then◌else◌, truthy, split_once, Result, ok, err, ◌>>=◌,
}
use vmcp_operator.Base.Dict.{Dict, lookup, insert}
use vmcp_operator.Json.{Value, null, str, obj, Fields, end, field, get}
use vmcp_operator.Json.Access.{or_value, to_str, get_of}
use vmcp_operator.Models.Gateway.{GatewayKey}

abbrev pub gateway_label : String
gateway_label = "vmcp.io/gateway"

abbrev pub gateway_key_annotation : String
gateway_key_annotation = "vmcp.io/gateway-key"

-- `gateway_key_from_labels` on the label that `labels.get` finds
unfoldable pub key_of_label : String → Option String → Option GatewayKey
key_of_label namespace none = none
key_of_label namespace (some name) =
    if truthy name then some (record { namespace = namespace; name = name }) else none

-- `gateway_key_from_labels`
unfoldable pub gateway_key_from_labels : String → Dict String → Option GatewayKey
unfolding key_of_label lookup
gateway_key_from_labels namespace labels = key_of_label namespace (lookup gateway_label labels)

-- The annotation `namespace/name`, where it holds a slash.
unfoldable pub key_of_annotation : Option String → Option GatewayKey
key_of_annotation none = none
key_of_annotation (some raw) = elim (split_once 47 raw) [
  | none ↦ none
  | some (ns, name) ↦ some (record { namespace = ns; name = name })
]

-- `gateway_key_from_owner`
unfoldable pub gateway_key_from_owner : String → Dict String → Dict String → Option GatewayKey
unfolding gateway_key_from_labels key_of_annotation lookup
gateway_key_from_owner namespace annotations labels =
    elim (gateway_key_from_labels namespace labels) [
      | some key ↦ some key
      | none ↦ key_of_annotation (lookup gateway_key_annotation annotations)
    ]

-- `{str(k): str(v) for k, v in d.items()}`
unfoldable pub texts : Fields → Dict String
texts end = []
texts (field k v d) = (k, to_str v) ∷ texts d

-- The keys of two dicts, when both are dicts.
unfoldable pub key_of_dicts : String → Value → Value → Option GatewayKey
unfolding texts gateway_key_from_owner
key_of_dicts namespace (obj labels) (obj annotations) =
    gateway_key_from_owner namespace (texts annotations) (texts labels)
key_of_dicts namespace _ _ = none

-- `should_enqueue_child`
unfoldable pub should_enqueue_child : Fields → Result (Option GatewayKey)
unfolding key_of_dicts
should_enqueue_child body =
    let metadata = or_value (get body "metadata") (obj end) in
    get_of metadata "namespace" >>= λ ns.
    let namespace = to_str (or_value ns (str "")) in
    if not (truthy namespace)
    then ok none
    else get_of metadata "labels" >>= λ labels. get_of metadata "annotations" >>= λ annotations.
        ok (key_of_dicts namespace (or_value labels (obj end)) (or_value annotations (obj end)))
