-- ===== src/Config.antt =====
-- python/vmcp_operator/domain/usecases/render_gateway_config.py: the text of `vmcp.toml`.
pub mod Quoting
use Prim.Native.Char.{code}
use vmcp_operator.Base.{
  String, ◌<>◌, Bool, true, false, ◌||◌, Option, none, some, List, [], ◌∷◌, ◌++◌, map,
  if◌then◌else◌, eqb, truthy, join, replace_char, drop_while_end,
}
use vmcp_operator.Base.Integer.{show_ℤ}
use vmcp_operator.Models.Gateway.{
  GatewayDesired, AuthProvider, AdminAuthMode, none_mode, basic, AuthentikDesired,
}

-- `_toml_bool`
abbrev pub toml_bool : Bool → String
toml_bool value = if value then "true" else "false"

-- `_toml_str`
unfoldable pub toml_str : String → String
unfolding replace_char
toml_str value = replace_char 34 "\\\"" (replace_char 92 "\\\\" value)

-- `"{_toml_str(value)}"`
unfoldable pub quoted : String → String
unfolding toml_str
quoted value = "\"" <> (toml_str value <> "\"")

-- `_tokens_file_path`
abbrev pub tokens_file_path : GatewayDesired → String
tokens_file_path gateway =
    if gateway.admin_token_secret_ref.writable then "/state/tokens.json" else "/secrets/tokens.json"

-- `gateway.public_base_url or f"https://{hostname}"`, without slashes at the end
unfoldable pub public_base : GatewayDesired → String
unfolding drop_while_end
public_base gateway =
    let fallback = "https://" <> gateway.public_route.hostname in
    drop_while_end (λ c. eqb (code c) 47)
      (elim gateway.public_base_url [
        | none ↦ fallback
        | some url ↦ if truthy url then url else fallback
      ])

abbrev pub provider_value : AuthProvider → String
provider_value AuthProvider.local = "local"
provider_value AuthProvider.authentik = "authentik"

abbrev pub mode_value : AdminAuthMode → String
mode_value none_mode = "none"
mode_value basic = "basic"
mode_value AdminAuthMode.authentik = "authentik"

-- `", ".join(f'"{_toml_str(x)}"' for x in xs)` in brackets, under a key, if there are any.
unfoldable pub list_line : String → List String → List String
unfolding quoted join
list_line key [] = []
list_line key (x ∷ xs) = (key <> (" = [" <> (join ", " (map quoted (x ∷ xs)) <> "]"))) ∷ []

unfoldable pub scopes_line : List (String × String) → List String
unfolding quoted join
scopes_line [] = []
scopes_line (s ∷ ss) =
    ("group_scopes = { "
      <> (join ", " (map (λ (group, scopes). quoted group <> (" = " <> quoted scopes)) (s ∷ ss))
          <> " }"))
    ∷ []

-- The section `[auth.authentik]`
unfoldable pub authentik_lines : AuthentikDesired → List String
unfolding quoted list_line scopes_line
authentik_lines ak =
    (""
      ∷ "[auth.authentik]"
      ∷ ("issuer = " <> quoted ak.issuer)
      ∷ ("jwks_url = " <> quoted ak.jwks_url)
      ∷ ("accept_bearer = " <> toml_bool ak.accept_bearer)
      ∷ ("forward_auth = " <> toml_bool ak.forward_auth)
      ∷ ("username_header = " <> quoted ak.username_header)
      ∷ ("groups_header = " <> quoted ak.groups_header)
      ∷ ("groups_claim = " <> quoted ak.groups_claim)
      ∷ ("forward_auth_secret_header = " <> quoted ak.forward_auth_secret_header)
      ∷ [])
    ++ list_line "audiences" ak.audiences
    ++ list_line "trusted_proxies" ak.trusted_proxies
    ++ scopes_line ak.group_scopes

abbrev pub is_authentik_provider : AuthProvider → Bool
is_authentik_provider AuthProvider.local = false
is_authentik_provider AuthProvider.authentik = true

abbrev pub is_authentik_mode : AdminAuthMode → Bool
is_authentik_mode none_mode = false
is_authentik_mode basic = false
is_authentik_mode AdminAuthMode.authentik = true

-- The lines up to `[auth.admin]`
unfoldable pub base_lines : GatewayDesired → List String
unfolding quoted public_base
base_lines gateway =
    "# Generated by vmcp-operator — do not edit by hand."
    ∷ "host = \"0.0.0.0\""
    ∷ "port = 8080"
    ∷ "mcp_path = \"/mcp\""
    ∷ ("public_base_url = " <> quoted (public_base gateway))
    ∷ "registry_path = \"/config/registry.json\""
    ∷ "lock_path = \"/state/tools.lock.json\""
    ∷ "spec_dir = \"/config/specs\""
    ∷ "skills_dir = \"/state/skills\""
    ∷ ""
    ∷ "[gql]"
    ∷ ("max_depth = " <> show_ℤ gateway.gql.max_depth)
    ∷ ("max_complexity = " <> show_ℤ gateway.gql.max_complexity)
    ∷ ("gcf = " <> toml_bool gateway.gql.gcf)
    ∷ ""
    ∷ "[proxy]"
    ∷ ("enabled = " <> toml_bool gateway.proxy.enabled)
    ∷ ("mcp_path = " <> quoted gateway.proxy.path)
    ∷ ("gcf = " <> toml_bool gateway.proxy.gcf)
    ∷ ""
    ∷ "[tasks]"
    ∷ ("enabled = " <> toml_bool gateway.tasks.enabled)
    ∷ "db_path = \"/state/tasks.db\""
    ∷ ("max_concurrent = " <> show_ℤ gateway.tasks.max_concurrent)
    ∷ ""
    ∷ "[auth]"
    ∷ ("enabled = " <> toml_bool gateway.auth.enabled)
    ∷ ("provider = \"" <> (provider_value gateway.auth.provider <> "\""))
    ∷ ("tokens_file = " <> quoted (tokens_file_path gateway))
    ∷ "clients_db_path = \"/state/clients.db\""
    ∷ "jwks_private_key_pem_path = \"/state/jwks.pem\""
    ∷ ""
    ∷ "[auth.admin]"
    ∷ ("mode = \"" <> (mode_value gateway.auth.admin.mode <> "\""))
    ∷ []

-- `render_gateway_config`
unfoldable pub render_gateway_config : GatewayDesired → String
unfolding base_lines list_line authentik_lines join
render_gateway_config gateway = join "\n" (
    base_lines gateway
    ++ list_line "required_groups" gateway.auth.admin.required_groups
    ++ (if is_authentik_provider gateway.auth.provider || is_authentik_mode gateway.auth.admin.mode
        then authentik_lines gateway.auth.authentik
        else [])
    ++ "" ∷ [])
