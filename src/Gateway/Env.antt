-- ===== src/Gateway/Env.antt =====
-- python/vmcp_operator/domain/usecases/render_gateway_manifests.py: the environment of the
-- gateway's container.
pub mod Bearers
use vmcp_operator.Base.{
  String, ◌<>◌, Bool, not, ◌||◌, Option, none, some, List, [], ◌∷◌, ◌++◌, ◌==◌, if◌then◌else◌,
  upper, replace_char,
}
use vmcp_operator.Base.Sorting.{sort_by}
use vmcp_operator.Json.{Value, str, dict}
use vmcp_operator.Models.Gateway.{GatewayDesired, GatewayKey, SecretRef, gateway_key_eq}
use vmcp_operator.Models.Mcp.{McpServerDesired, McpSource, container_image, remote_http, vmcp_proxy}

-- A variable with a value of its own, and one whose value is a key of a Secret.
abbrev pub plain_var : String → String → Value
plain_var name value = dict (("name", str name) ∷ ("value", str value) ∷ [])

abbrev pub secret_var : String → SecretRef → Value
secret_var name ref = dict (
    ("name", str name)
    ∷ (
      "valueFrom",
      dict (("secretKeyRef", dict (("name", str ref.name) ∷ ("key", str ref.key) ∷ [])) ∷ []),
    )
    ∷ [])

-- `source.bearer_secret_ref`, for the sources that have one.
abbrev pub bearer_ref : McpSource → Option SecretRef
bearer_ref (container_image source) = none
bearer_ref (remote_http source) = source.bearer_secret_ref
bearer_ref (vmcp_proxy source) = source.bearer_secret_ref

unfoldable pub bearer_name : String → String
bearer_name name = "VMCP_BEARER_" <> replace_char 45 "_" (upper name)

abbrev pub bearer_var : McpServerDesired → Option SecretRef → List Value
bearer_var mcp none = []
bearer_var mcp (some ref) = secret_var (bearer_name mcp.name) ref ∷ []

-- The loop over the servers.
unfoldable pub bearer_vars : GatewayKey → List McpServerDesired → List Value
bearer_vars key [] = []
bearer_vars key (mcp ∷ mcps) =
    let rest = bearer_vars key mcps in
    if not mcp.enabled || not (mcp.gateway_key == key)
    then rest
    else bearer_var mcp (bearer_ref mcp.source) ++ rest

abbrev pub forward_auth_var : Option SecretRef → List Value
forward_auth_var none = []
forward_auth_var (some ref) = secret_var "VMCP_AUTH__AUTHENTIK__FORWARD_AUTH_SECRET" ref ∷ []

-- The variables that every gateway has.
abbrev pub fixed_vars : GatewayDesired → List Value
fixed_vars gateway =
    plain_var "VMCP_CONFIG" "/config/vmcp.toml"
    ∷ plain_var "VMCP_REGISTRY_PATH" "/config/registry.json"
    ∷ plain_var "VMCP_SKILLS_DIR" "/state/skills"
    ∷ secret_var "VMCP_AUTH__MASTER_PASSWORD_ARGON2" gateway.master_password_secret_ref
    ∷ []

-- `_gateway_env`
unfoldable pub gateway_env : GatewayDesired → List McpServerDesired → List Value
unfolding bearer_vars
gateway_env gateway mcps =
    (fixed_vars gateway ++ forward_auth_var gateway.auth.authentik.forward_auth_secret_ref)
    ++ bearer_vars gateway.key (sort_by (λ m. m.name) mcps)
