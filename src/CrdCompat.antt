-- ===== src/CrdCompat.antt =====
-- python/vmcp_operator/domain/usecases/crd_compat.py: which fields that this operator uses the
-- installed CRD lacks.
pub mod Missing
use vmcp_operator.Base.{
  String, ◌<>◌, Bool, true, false, Option, none, some, List, [], ◌∷◌, ◌++◌, ◌==◌, string_eq,
  if◌then◌else◌, join, attribute_error, Result, ok, err, ◌>>=◌,
}
use vmcp_operator.Json.{Value, obj, arr, nil, Fields, end, field, get}
use vmcp_operator.Json.Access.{truth, or_value, or_default, get_of, to_iter}

abbrev pub required_spec : List (List String)
required_spec =
    ("identityStrip" ∷ [])
    ∷ ("adminRoute" ∷ "path" ∷ [])
    ∷ ("publicRoute" ∷ "path" ∷ [])
    ∷ ("extraRoutes" ∷ [])
    ∷ ("gql" ∷ "gcf" ∷ [])
    ∷ ("proxy" ∷ "gcf" ∷ [])
    ∷ []

abbrev pub required_status : List (List String)
required_status = ("listenerPolicy" ∷ []) ∷ ("observedGeneration" ∷ []) ∷ ("crdSkew" ∷ []) ∷ []

-- `(v.get(key) or {})` where `v` need not be a dict
abbrev pub step : Value → String → Result Value
step v key = get_of v key >>= λ found. ok (or_value found (obj end))

-- `_has_path`
unfoldable pub has_path : Value → List String → Result Bool
has_path node [] = ok true
has_path (obj d) (key ∷ path) = elim (get d key) [
  | none ↦ ok false
  | some v ↦ elim path [
    | [] ↦ ok true
    | k ∷ ks ↦
        step (or_value (some v) (obj end)) "properties" >>= λ properties. has_path properties path
  ]
]
has_path node (key ∷ path) = ok false

-- The loop over the required paths of one part of the schema.
unfoldable pub missing_fields : Value → String → List (List String) → Result (List String)
unfolding has_path join
missing_fields properties prefix [] = ok []
missing_fields properties prefix (path ∷ paths) = has_path properties path >>= λ found.
    missing_fields properties prefix paths >>= λ rest.
    ok (if found then rest else (prefix <> join "." path) ∷ rest)

-- `next((item for item in versions if item.get("storage")), None)`
unfoldable pub storage_version : List Value → Result (Option Value)
storage_version [] = ok none
storage_version (item ∷ items) =
    let rest = storage_version items in
    get_of item "storage" >>= λ storage.
    if truth (or_default storage Value.null) then ok (some item) else rest

-- The missing fields of the schema of the storage version.
unfoldable pub missing_of_version : Option Value → Result (List String)
unfolding missing_fields
missing_of_version none = ok ("<no-storage-version>" ∷ [])
missing_of_version (some version) = step version "schema" >>= λ schema.
    step schema "openAPIV3Schema" >>= λ root. step root "properties" >>= λ properties.
    step properties "spec" >>= λ spec. step spec "properties" >>= λ spec_props.
    step properties "status" >>= λ status. step status "properties" >>= λ status_props.
    missing_fields spec_props "spec." required_spec >>= λ in_spec.
    missing_fields status_props "status." required_status >>= λ in_status. ok (in_spec ++ in_status)

-- `missing_vmcpgateway_crd_fields`
unfoldable pub missing_vmcpgateway_crd_fields : Option Fields → Result (List String)
unfolding storage_version missing_of_version
missing_vmcpgateway_crd_fields none = ok ("<crd-missing>" ∷ [])
missing_vmcpgateway_crd_fields (some end) = ok ("<crd-missing>" ∷ [])
missing_vmcpgateway_crd_fields (some (field k v d)) = step (obj (field k v d)) "spec" >>= λ spec.
    get_of spec "versions" >>= λ versions.
    to_iter (or_value versions (arr nil)) >>= λ items. storage_version items >>= missing_of_version
