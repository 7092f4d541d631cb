-- ===== src/Mapping/Routes.antt =====
-- The routes of a gateway's spec.
pub mod Names
pub mod Paths
use Prim.Native.Char.{Char, code}
use vmcp_operator.Base.{
  ℕ, suc, String, ◌<>◌, Bool, true, false, not, ◌&&◌, ◌||◌, Option, none, some, List, [], ◌∷◌, ◌==◌,
  string_eq, if◌then◌else◌, ltb, leb, eqb, contains, truthy, strip, starts_with, show_ℕ,
  text_length, value_error, Result, ok, err, ◌>>=◌, ◌>>◌, raise_if,
}
use vmcp_operator.Json.{Value, null, str, arr, obj, Fields, end, get, to_list, list}
use vmcp_operator.Json.Access.{truth, to_str, to_iter, or_value}
use vmcp_operator.Models.Gateway.{GatewayParentRef, RouteDesired}
use vmcp_operator.Gateway.Filters.{only_dicts}
use vmcp_operator.Mapping.Values.{fields_of, bool_at, elements, sorted_entries}

-- The three values of `role`.
pub data Role : Type 0 where
  public_role admin_role extra_role : Role

abbrev pub is_extra : Role → Bool
is_extra extra_role = true
is_extra _ = false

-- `"extraRoutes[].x" if role == "extra" else f"{role}Route.x"`
abbrev pub field_name : Role → String → String
field_name public_role x = "publicRoute." <> x
field_name admin_role x = "adminRoute." <> x
field_name extra_role x = "extraRoutes[]." <> x

-- `str(d.get(key) or "").strip()`
abbrev pub trimmed_at : Fields → String → String
trimmed_at d key = strip (to_str (or_value (get d key) (str "")))

-- `str(v) if v else None`
abbrev pub text_if : Option Value → Option String
text_if none = none
text_if (some v) = if truth v then some (to_str v) else none

-- What `_parent_ref_from_raw` does with the name that it has read.
unfoldable pub parent_ref_named :
    String
    → Option String
    → Option String
    → String
    → Option GatewayParentRef
    → Result GatewayParentRef
parent_ref_named String.[] namespace section_name field none =
    err (value_error (field <> ".name is required"))
parent_ref_named String.[] namespace section_name field (some inherited) = ok inherited
parent_ref_named (String.◌∷◌ c s) namespace section_name field inherit_from =
    ok (record { name = String.◌∷◌ c s; namespace = namespace; section_name = section_name })

-- `_parent_ref_from_raw`
unfoldable pub parent_ref_from_raw :
    Option Value → String → Option GatewayParentRef → Result GatewayParentRef
unfolding parent_ref_named
parent_ref_from_raw none field inherit_from = parent_ref_named "" none none field inherit_from
parent_ref_from_raw (some null) field inherit_from =
    parent_ref_named "" none none field inherit_from
parent_ref_from_raw (some (obj raw)) field inherit_from =
    parent_ref_named (trimmed_at raw "name") (text_if (get raw "namespace"))
      (text_if (get raw "sectionName")) field inherit_from
parent_ref_from_raw (some v) field inherit_from = err (value_error (field <> " must be an object"))

-- A path that was not given.
unfoldable pub default_path : Role → Result String
default_path admin_role = ok "/admin"
default_path extra_role = err (value_error "extraRoutes[].path is required")
default_path public_role = ok "/"

abbrev pub path_text : Option Value → String
path_text none = ""
path_text (some null) = ""
path_text (some v) = strip (to_str v)

-- `_route_path`
unfoldable pub route_path : Option Value → Role → Result String
unfolding default_path
route_path raw role =
    let path = path_text raw in
    if path == ""
    then default_path role
    else if not (starts_with path "/")
    then err (value_error (field_name role "path" <> " must start with '/'"))
    else ok path

-- `inject`: the public edge never injects, an extra route only on demand.
unfoldable pub inject_of : Role → Option Value → Option Bool
inject_of public_role inject_raw = some false
inject_of admin_role none = none
inject_of admin_role (some null) = none
inject_of extra_role none = some false
inject_of extra_role (some null) = some false
inject_of _ (some v) = some (truth v)

unfoldable pub hostname_of : String → Role → Option RouteDesired → Result String
hostname_of String.[] role none = err (value_error (field_name role "hostname" <> " is required"))
hostname_of String.[] role (some inherited) = ok inherited.hostname
hostname_of (String.◌∷◌ c s) role inherit_from = ok (String.◌∷◌ c s)

abbrev pub inherited_ref : Option RouteDesired → Option GatewayParentRef
inherited_ref none = none
inherited_ref (some r) = some r.gateway_ref

-- `_route`
unfoldable pub route : Value → Role → Option RouteDesired → Result RouteDesired
unfolding hostname_of parent_ref_from_raw sorted_entries inject_of route_path
route value role inherit_from = do
  raw ← fields_of value
  hostname ← hostname_of (trimmed_at raw "hostname") role inherit_from
  gateway_ref ←
      parent_ref_from_raw (get raw "gatewayRef") (field_name role "gatewayRef")
        (inherited_ref inherit_from)
  annotations ← sorted_entries raw "annotations"
  extra ← elements raw "extraFilters"
  path ← route_path (get raw "path") role
  ok (record {
    hostname = hostname;
    gateway_ref = gateway_ref;
    annotations = annotations;
    strip_client_identity_headers = bool_at raw "stripClientIdentityHeaders" true;
    inject_forward_auth_header = inject_of role (get raw "injectForwardAuthHeader");
    manage = bool_at raw "manage" true;
    extra_filters = only_dicts extra;
    path = path;
    route_name = none;
  })

-- `[a-z0-9]` and `[-a-z0-9]*[a-z0-9]`
unfoldable pub is_label_char : Char → Bool
is_label_char c = (leb 97 (code c) && leb (code c) 122) || (leb 48 (code c) && leb (code c) 57)

unfoldable pub label_tail : String → Bool
unfolding is_label_char
label_tail String.[] = false
label_tail (String.◌∷◌ c String.[]) = is_label_char c
label_tail (String.◌∷◌ c (String.◌∷◌ d s)) =
    (is_label_char c || eqb (code c) 45) && label_tail (String.◌∷◌ d s)

-- `_ROUTE_NAME_RE.fullmatch(name)`
unfoldable pub is_label : String → Bool
unfolding label_tail is_label_char
is_label String.[] = false
is_label (String.◌∷◌ c String.[]) = is_label_char c
is_label (String.◌∷◌ c (String.◌∷◌ d s)) = is_label_char c && label_tail (String.◌∷◌ d s)

-- The tests on the name of an extra route.
unfoldable pub check_route_name : List String → String → Result (Unit {0})
unfolding is_label text_length
check_route_name seen name =
    raise_if (not (truthy name)) (value_error "extraRoutes[].name is required")
    >> raise_if (ltb 63 (text_length name) || not (is_label name))
        (value_error "extraRoutes[].name must be a DNS-1123 label")
    >> raise_if (contains ("public" ∷ "admin" ∷ []) name)
        (value_error "extraRoutes[].name cannot be 'public' or 'admin'")
    >> raise_if (contains seen name)
        (value_error ("extraRoutes[].name `" <> (name <> "` is duplicated")))

unfoldable pub extra_route : List String → Value → RouteDesired → Result (String × RouteDesired)
unfolding check_route_name route
extra_route seen item inherit_from = do
  raw ← fields_of item
  let name = trimmed_at raw "name"
  checked ← check_route_name seen name
  mapped ← route item extra_role (some inherit_from)
  ok (name, record mapped { route_name = some name })

abbrev pub is_object : Value → Bool
is_object (obj d) = true
is_object v = false

-- The loop of `_extra_routes`, with the index of the item.
unfoldable pub extra_routes_from :
    ℕ → List String → List Value → RouteDesired → Result (List RouteDesired)
unfolding extra_route
extra_routes_from i seen [] inherit_from = ok []
extra_routes_from i seen (item ∷ items) inherit_from =
    raise_if (not (is_object item))
      (value_error ("extraRoutes[" <> (show_ℕ i <> "] must be an object")))
    >> extra_route seen item inherit_from
    >>= λ named. extra_routes_from (suc i) (named.0 ∷ seen) items inherit_from >>= λ routes.
        ok (named.1 ∷ routes)

-- `_extra_routes`
unfoldable pub extra_routes : Value → RouteDesired → Result (List RouteDesired)
unfolding extra_routes_from
extra_routes null inherit_from = ok []
extra_routes (arr raw_items) inherit_from = extra_routes_from 0 [] (to_list raw_items) inherit_from
extra_routes v inherit_from = err (value_error "extraRoutes must be an array")
