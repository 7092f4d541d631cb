-- ===== src/Mapping/Routes/Paths.antt =====
-- What holds of a route that a spec is accepted with.
use vmcp_operator.Base.{
  String, ◌<>◌, Bool, true, false, not, Option, none, some, List, ◌==◌, string_eq, ◌≡◌, refl,
  starts_with, ok, err, ◌>>=◌, bind-OnOk, bind-OnOk_with, OnOk, value_error, if◌then◌else◌,
}
use vmcp_operator.Json.{Value, null, Fields, get}
use vmcp_operator.Models.Gateway.{RouteDesired, GatewayParentRef}
use vmcp_operator.Gateway.Filters.{only_dicts}
use vmcp_operator.Ports.{is_some}
use vmcp_operator.Mapping.Values.{fields_of, sorted_entries, elements, bool_at}
use vmcp_operator.Mapping.Routes.{
  Role, public_role, admin_role, extra_role, default_path, route_path, path_text, field_name,
  inject_of, route, hostname_of, trimmed_at, parent_ref_from_raw, inherited_ref,
}

route_path-starts_with :
    (raw : Option Value) (role : Role)
    → OnOk (λ path. starts_with path "/" ≡ true) (route_path raw role)
unfolding route_path starts_with
route_path-starts_with raw role = go (path_text raw == "") (starts_with (path_text raw) "/") refl
  where
    given :
        (b : Bool) (p : String)
        → starts_with p "/" ≡ b
        → OnOk
            (λ path. starts_with path "/" ≡ true)
            (if not b
              then err (value_error (field_name role "path" <> " must start with '/'"))
              else ok p)
    given true p e = e
    given false p e = tt

    default : (r : Role) → OnOk (λ path. starts_with path "/" ≡ true) (default_path r)
    default public_role = refl
    default admin_role = refl
    default extra_role = tt

    go :
        (a b : Bool)
        → starts_with (path_text raw) "/" ≡ b
        → OnOk
            (λ path. starts_with path "/" ≡ true)
            (if a
              then default_path role
              else if not b
              then err (value_error (field_name role "path" <> " must start with '/'"))
              else ok (path_text raw))
    go true b e = default role
    go false b e = given b (path_text raw) e

-- A path that starts with a slash, and the hop header only where the role admits it.
unfoldable pub IsRoute : Role → RouteDesired → Type 0
IsRoute public_role r =
    (starts_with r.path "/" ≡ true) × (r.inject_forward_auth_header ≡ some false)
IsRoute admin_role r = starts_with r.path "/" ≡ true
IsRoute extra_role r =
    (starts_with r.path "/" ≡ true) × (is_some r.inject_forward_auth_header ≡ true)

inject_of-IsRoute :
    (role : Role) (r : RouteDesired) (raw : Option Value)
    → starts_with r.path "/" ≡ true
    → r.inject_forward_auth_header ≡ inject_of role raw
    → IsRoute role r
unfolding IsRoute inject_of
inject_of-IsRoute public_role r raw h e = (h, e)
inject_of-IsRoute admin_role r raw h e = h
inject_of-IsRoute extra_role r none h e = (h, rw e refl)
inject_of-IsRoute extra_role r (some null) h e = (h, rw e refl)
inject_of-IsRoute extra_role r (some (Value.bool b)) h e = (h, rw e refl)
inject_of-IsRoute extra_role r (some (Value.num n)) h e = (h, rw e refl)
inject_of-IsRoute extra_role r (some (Value.str s)) h e = (h, rw e refl)
inject_of-IsRoute extra_role r (some (Value.arr vs)) h e = (h, rw e refl)
inject_of-IsRoute extra_role r (some (Value.obj d)) h e = (h, rw e refl)

pub route-IsRoute :
    (value : Value) (role : Role) (inherit_from : Option RouteDesired)
    → OnOk (IsRoute role) (route value role inherit_from)
unfolding route
route-IsRoute value role inherit_from = bind-OnOk P (fields_of value) _ (λ raw.
    bind-OnOk P (hostname_of (trimmed_at raw "hostname") role inherit_from) _ (λ hostname.
      bind-OnOk P
        (parent_ref_from_raw (get raw "gatewayRef") (field_name role "gatewayRef")
          (inherited_ref inherit_from))
        _
        (λ gateway_ref. bind-OnOk P (sorted_entries raw "annotations") _ (λ annotations.
          bind-OnOk P (elements raw "extraFilters") _
            (λ extra. last raw hostname gateway_ref annotations extra)))))
  where
    P : RouteDesired → Type 0
    P = IsRoute role

    last :
        (raw : Fields) (hostname : String) (gateway_ref : GatewayParentRef)
        (annotations : List (String × String)) (extra : List Value)
        → OnOk P (
            route_path (get raw "path") role >>= λ path. ok (record {
              hostname = hostname;
              gateway_ref = gateway_ref;
              annotations = annotations;
              strip_client_identity_headers = bool_at raw "stripClientIdentityHeaders" true;
              inject_forward_auth_header = inject_of role (get raw "injectForwardAuthHeader");
              manage = bool_at raw "manage" true;
              extra_filters = only_dicts extra;
              path = path;
              route_name = none;
            }))
    last raw hostname gateway_ref annotations extra =
        bind-OnOk_with (λ path. starts_with path "/" ≡ true) P (route_path (get raw "path") role) _
          (route_path-starts_with (get raw "path") role)
          (λ path h. inject_of-IsRoute role _ (get raw "injectForwardAuthHeader") h refl)
