-- ===== src/Mapping/Auth.antt =====
-- The authentication section of a gateway's spec.
use vmcp_operator.Base.{
  String, ◌<>◌, true, map, ◌==◌, string_eq, if◌then◌else◌, value_error, Result, ok, err, ◌>>=◌,
}
use vmcp_operator.Json.{Fields, get}
use vmcp_operator.Json.Access.{to_str, repr_str}
use vmcp_operator.Models.Gateway.{AuthDesired, AuthProvider, local, AdminAuthMode, none_mode, basic}
use vmcp_operator.Mapping.Values.{
  section, text_at, bool_at, elements, sorted_entries, optional_secret_ref,
}

-- `AuthProvider(s)`
unfoldable pub auth_provider : String → Result AuthProvider
auth_provider s =
    if s == "local"
    then ok local
    else if s == "authentik"
    then ok AuthProvider.authentik
    else err (value_error (repr_str s <> " is not a valid AuthProvider"))

-- `AdminAuthMode(s)`
unfoldable pub admin_auth_mode : String → Result AdminAuthMode
admin_auth_mode s =
    if s == "none"
    then ok none_mode
    else if s == "basic"
    then ok basic
    else if s == "authentik"
    then ok AdminAuthMode.authentik
    else err (value_error (repr_str s <> " is not a valid AdminAuthMode"))

-- `_map_auth`
unfoldable pub map_auth : Fields → Result AuthDesired
unfolding auth_provider admin_auth_mode sorted_entries optional_secret_ref
map_auth raw = do
  admin_raw ← section raw "admin"
  ak_raw ← section raw "authentik"
  provider ← auth_provider (text_at raw "provider" "local")
  admin_mode ← admin_auth_mode (text_at admin_raw "mode" "basic")
  group_scopes ← sorted_entries ak_raw "groupScopes"
  required_groups ← elements admin_raw "requiredGroups"
  audiences ← elements ak_raw "audiences"
  trusted_proxies ← elements ak_raw "trustedProxies"
  forward_secret ← optional_secret_ref (get ak_raw "forwardAuthSecretRef") "secret"
  ok (record {
    enabled = bool_at raw "enabled" true;
    provider = provider;
    admin = record { mode = admin_mode; required_groups = map to_str required_groups };
    authentik = record {
      issuer = text_at ak_raw "issuer" "";
      jwks_url = text_at ak_raw "jwksUrl" "";
      audiences = map to_str audiences;
      accept_bearer = bool_at ak_raw "acceptBearer" true;
      forward_auth = bool_at ak_raw "forwardAuth" true;
      username_header = text_at ak_raw "usernameHeader" "x-authentik-username";
      groups_header = text_at ak_raw "groupsHeader" "x-authentik-groups";
      groups_claim = text_at ak_raw "groupsClaim" "groups";
      group_scopes = group_scopes;
      trusted_proxies = map to_str trusted_proxies;
      forward_auth_secret_ref = forward_secret;
      forward_auth_secret_header = text_at ak_raw "forwardAuthSecretHeader" "x-vmcp-forward-auth";
    };
  })
