-- ===== src/ManageMcp/Patch.antt =====
-- python/vmcp_operator/domain/usecases/manage_mcp.py: `apply_mcp_fields`
use vmcp_operator.Base.{
  String, ◌<>◌, Bool, true, false, not, Option, none, some, List, [], ◌∷◌, string_eq, if◌then◌else◌,
  truthy, strip, value_error, Result, ok, err, ◌>>=◌, ◌>>◌, raise_if, select, contains, map,
}
use vmcp_operator.Base.Sorting.{sort}
use vmcp_operator.Json.{Value, null, str, Fields, end, field, get, list}
use vmcp_operator.Json.Access.{truth, to_str, repr, item_of, get_of, or_default, to_text?}
use vmcp_operator.Models.Gateway.{SecretRef}
use vmcp_operator.Models.Mcp.{McpServerDesired, McpSource, remote_http, container_image, vmcp_proxy}

-- `SecretRef(name=str(bearer["name"]), key=str(bearer.get("key", "token")))`
unfoldable pub bearer_ref : Value → Result SecretRef
bearer_ref bearer = do
  name ← item_of bearer "name"
  key ← get_of bearer "key"
  ok (record { name = to_str name; key = to_str (or_default key (str "token")); writable = false })

unfoldable pub set_url : Value → McpSource → Result McpSource
set_url v (remote_http s) =
    let url = strip (to_str v) in
    if truthy url
    then ok (remote_http (record s { url = url }))
    else err (value_error "url must be non-empty")
set_url v s = err (value_error "url can only be set on RemoteHttp sources")

unfoldable pub set_image : Value → McpSource → Result McpSource
set_image v (container_image s) =
    let image = strip (to_str v) in
    if truthy image
    then ok (container_image (record s { image = image }))
    else err (value_error "image must be non-empty")
set_image v s = err (value_error "image can only be set on ContainerImage sources")

-- None removes the reference.
bearer_or_none : Value → Result (Option SecretRef)
unfolding bearer_ref
bearer_or_none null = ok none
bearer_or_none v = do ref ← bearer_ref v; ok (some ref)

unfoldable pub set_bearer : Value → McpSource → Result McpSource
unfolding bearer_or_none
set_bearer v (remote_http s) = do
  ref ← bearer_or_none v
  ok (remote_http (record s { bearer_secret_ref = ref }))
set_bearer v (vmcp_proxy s) = do
  ref ← bearer_or_none v
  ok (vmcp_proxy (record s { bearer_secret_ref = ref }))
set_bearer v (container_image s) =
    err (value_error "bearerSecretRef can only be set on RemoteHttp/VmcpProxy sources")

unfoldable pub set_path : Value → McpSource → Result McpSource
set_path v (vmcp_proxy s) =
    let path = strip (to_str v) in
    if truthy path
    then ok (vmcp_proxy (record s { path = path }))
    else err (value_error "path must be non-empty")
set_path v s = err (value_error "path can only be set on VmcpProxy sources")

-- `if key in fields: …`
unfoldable pub when_given :
    Option Value → (Value → McpSource → Result McpSource) → McpSource → Result McpSource
when_given none f s = ok s
when_given (some v) f s = f v s

abbrev given_bool : Option Value → Bool → Bool
given_bool none b = b
given_bool (some v) b = truth v

abbrev given_text : Option Value → Option String → Result (Option String)
given_text none t = ok t
given_text (some v) t = to_text? (some v)

abbrev pub known_fields : List String
known_fields =
    "enabled" ∷ "description" ∷ "forwardIdentity" ∷ "url" ∷ "image" ∷ "bearerSecretRef" ∷ "path"
    ∷ []

abbrev field_names : Fields → List String
field_names end = []
field_names (field k v d) = k ∷ field_names d

-- `set(fields) - {…}`
unfoldable pub unknown_fields : Fields → List String
unknown_fields d = select (λ k. not (contains known_fields k)) (field_names d)

abbrev pub is_empty {ℓ} : {A : Type ℓ} → List A → Bool
is_empty [] = true
is_empty (x ∷ xs) = false

abbrev no_fields : Fields → Bool
no_fields end = true
no_fields (field k v d) = false

unfoldable pub patch_source : Fields → McpSource → Result McpSource
unfolding when_given set_url set_image set_bearer set_path
patch_source d source = do
  s1 ← when_given (get d "url") set_url source
  s2 ← when_given (get d "image") set_image s1
  s3 ← when_given (get d "bearerSecretRef") set_bearer s2
  when_given (get d "path") set_path s3

-- `apply_mcp_fields`
unfoldable pub apply_mcp_fields : McpServerDesired → Fields → Result McpServerDesired
unfolding patch_source unknown_fields
apply_mcp_fields mcp d = do
  raise_if (no_fields d) (value_error "update requires at least one field")
  description ← given_text (get d "description") mcp.description
  source ← patch_source d mcp.source
  let unknown = unknown_fields d
  raise_if (not (is_empty unknown))
      (value_error ("unsupported update fields: " <> repr (list (map str (sort unknown)))))
  ok (record mcp {
    enabled = given_bool (get d "enabled") mcp.enabled;
    description = description;
    forward_identity = given_bool (get d "forwardIdentity") mcp.forward_identity;
    source = source;
  })
