-- ===== src/Models/Gateway.antt =====
-- python/vmcp_operator/domain/models/gateway.py
use vmcp_operator.Base.{
  String, ◌<>◌, Bool, true, false, Option, none, List, [], ◌∷◌, Eq, String-discrete,
}
use vmcp_operator.Base.Integer.{ℤ, pos}
use vmcp_operator.Json.{Fields}
use mathlib.Core.Option

pub record SecretRef : Type 0 where
  pub name : String
  pub key : String
  pub writable : Bool

pub record GatewayParentRef : Type 0 where
  pub name : String
  pub namespace : Option String
  pub section_name : Option String

pub record RouteDesired : Type 0 where
  pub hostname : String
  pub gateway_ref : GatewayParentRef
  pub annotations : List (String × String)
  pub strip_client_identity_headers : Bool
  pub inject_forward_auth_header : Option Bool
  pub manage : Bool
  pub extra_filters : List Fields
  pub path : String
  pub route_name : Option String

pub record PersistenceDesired : Type 0 where
  pub size : String
  pub storage_class_name : Option String
  pub reclaim_policy : String

pub record TasksDesired : Type 0 where
  pub enabled : Bool
  pub max_concurrent : ℤ

pub record ProxyDesired : Type 0 where
  pub enabled : Bool
  pub path : String
  pub gcf : Bool

pub record GqlDesired : Type 0 where
  pub max_complexity : ℤ
  pub max_depth : ℤ
  pub gcf : Bool

pub record IdentityStripDesired : Type 0 where
  pub manage_listener_policy : Bool

pub data AuthProvider : Type 0 where
  local authentik : AuthProvider

pub data AdminAuthMode : Type 0 where
  none_mode basic authentik : AdminAuthMode

pub record AdminAuthDesired : Type 0 where
  pub mode : AdminAuthMode
  pub required_groups : List String

pub record AuthentikDesired : Type 0 where
  pub issuer : String
  pub jwks_url : String
  pub audiences : List String
  pub accept_bearer : Bool
  pub forward_auth : Bool
  pub username_header : String
  pub groups_header : String
  pub groups_claim : String
  pub group_scopes : List (String × String)
  pub trusted_proxies : List String
  pub forward_auth_secret_ref : Option SecretRef
  pub forward_auth_secret_header : String

pub record AuthDesired : Type 0 where
  pub enabled : Bool
  pub provider : AuthProvider
  pub admin : AdminAuthDesired
  pub authentik : AuthentikDesired

pub record SkillRef : Type 0 where
  pub name : String
  pub key : Option String

pub record GatewayKey : Type 0 where
  pub namespace : String
  pub name : String

-- `GatewayKey.as_str`
abbrev pub as_str : GatewayKey → String
as_str k = k.namespace <> ("/" <> k.name)

pub record GatewayDesired : Type 0 where
  pub key : GatewayKey
  pub image : String
  pub admin_token_secret_ref : SecretRef
  pub master_password_secret_ref : SecretRef
  pub public_route : RouteDesired
  pub admin_route : Option RouteDesired
  pub extra_routes : List RouteDesired
  pub persistence : PersistenceDesired
  pub tasks : TasksDesired
  pub proxy : ProxyDesired
  pub gql : GqlDesired
  pub auth : AuthDesired
  pub skill_refs : List SkillRef
  pub identity_strip : IdentityStripDesired
  pub public_base_url : Option String
  pub generation : ℤ
  pub attachments : List Fields

-- The defaults of the dataclasses.
abbrev pub default_persistence : PersistenceDesired
default_persistence = record { size = "5Gi"; storage_class_name = none; reclaim_policy = "Retain" }

abbrev pub default_tasks : TasksDesired
default_tasks = record { enabled = false; max_concurrent = pos 1 }

abbrev pub default_proxy : ProxyDesired
default_proxy = record { enabled = false; path = "/mcp-proxy"; gcf = false }

abbrev pub default_gql : GqlDesired
default_gql = record { max_complexity = pos 1000; max_depth = pos 10; gcf = false }

abbrev pub default_admin_auth : AdminAuthDesired
default_admin_auth = record { mode = basic; required_groups = [] }

abbrev pub default_authentik : AuthentikDesired
default_authentik = record {
  issuer = "";
  jwks_url = "";
  audiences = [];
  accept_bearer = true;
  forward_auth = true;
  username_header = "x-authentik-username";
  groups_header = "x-authentik-groups";
  groups_claim = "groups";
  group_scopes = [];
  trusted_proxies = [];
  forward_auth_secret_ref = none;
  forward_auth_secret_header = "x-vmcp-forward-auth";
}

abbrev pub default_auth : AuthDesired
default_auth = record {
  enabled = true;
  provider = local;
  admin = default_admin_auth;
  authentik = default_authentik;
}

-- The headers that a client must never supply on the public edge.
abbrev pub public_strip_identity_headers : List String
public_strip_identity_headers =
    "X-authentik-username" ∷ "X-authentik-groups" ∷ "X-authentik-uid" ∷ "X-authentik-name"
    ∷ "X-authentik-email" ∷ "X-authentik-entitlements" ∷ "X-Vmcp-Forward-Auth" ∷ []

-- Dataclass equality.
GatewayKey-discrete : Discrete GatewayKey
GatewayKey-discrete = hlevel String-discrete

instance unfoldable pub gateway_key_eq : Eq GatewayKey
unfolding GatewayKey-discrete
gateway_key_eq = record { dec = GatewayKey-discrete }

GatewayParentRef-discrete : Discrete GatewayParentRef
GatewayParentRef-discrete = hlevel (String-discrete, Option.discrete)

instance unfoldable pub parent_ref_eq : Eq GatewayParentRef
unfolding GatewayParentRef-discrete
parent_ref_eq = record { dec = GatewayParentRef-discrete }
