-- ===== src/Mapping/GatewaySpec/AcceptedRoutes.antt =====
-- What holds of the routes that a spec is accepted with.
use vmcp_operator.Base.{
  ℕ, suc, String, ◌<>◌, Bool, true, false, not, Option, none, some, List, [], ◌∷◌, map, string_eq,
  All, NoDuplicates, ok, err, ◌>>=◌, ◌>>◌, raise_if, OnOk, bind-OnOk, bind-OnOk_with, OnOk-from,
  OnOk-ok, value_error, show_ℕ, if◌then◌else◌,
}
use vmcp_operator.Json.{Value, null, arr, Fields, get, to_list, list}
use vmcp_operator.Json.Access.{truth, or_value}
use vmcp_operator.Models.Gateway.{RouteDesired}
use vmcp_operator.Mapping.Values.{fields_of}
use vmcp_operator.Mapping.Routes.{
  public_role, admin_role, extra_role, route, trimmed_at, check_route_name, extra_route,
  extra_routes_from, extra_routes, is_object,
}
use vmcp_operator.Mapping.Routes.Names.{IsRouteName, suffix_of, extra_routes-AllNew}
use vmcp_operator.Mapping.Routes.Paths.{IsRoute, route-IsRoute}
use vmcp_operator.Mapping.GatewaySpec.{public_route_of, optional_route, routes_of}

extra_route-IsRoute :
    (seen : List String) (item : Value) (r : RouteDesired)
    → OnOk (λ named. IsRoute extra_role named.1) (extra_route seen item r)
unfolding extra_route IsRoute
extra_route-IsRoute seen item r = bind-OnOk P (fields_of item) _ (λ raw.
    bind-OnOk P (check_route_name seen (trimmed_at raw "name")) _ (λ done.
      bind-OnOk_with (IsRoute extra_role) P (route item extra_role (some r)) _
        (route-IsRoute item extra_role (some r)) (λ mapped h. h)))
  where
    P : String × RouteDesired → Type 0
    P named = IsRoute extra_role named.1

extra_routes_from-IsRoute :
    (i : ℕ) (seen : List String) (items : List Value) (r : RouteDesired)
    → OnOk (All (IsRoute extra_role)) (extra_routes_from i seen items r)
unfolding extra_routes_from
extra_routes_from-IsRoute i seen [] r = tt
extra_routes_from-IsRoute i seen (item ∷ items) r =
    bind-OnOk_with (λ named. IsRoute extra_role named.1) (All (IsRoute extra_role))
      (raise_if (not (is_object item))
          (value_error ("extraRoutes[" <> (show_ℕ i <> "] must be an object")))
        >> extra_route seen item r)
      _
      (bind-OnOk (λ named. IsRoute extra_role named.1) (raise_if (not (is_object item)) _) _
        (λ done. extra_route-IsRoute seen item r))
      (λ named h.
        bind-OnOk_with (All (IsRoute extra_role)) (All (IsRoute extra_role))
          (extra_routes_from (suc i) (named.0 ∷ seen) items r) _
          (extra_routes_from-IsRoute (suc i) (named.0 ∷ seen) items r) (λ routes all. (h, all)))

extra_routes-IsRoute :
    (v : Value) (r : RouteDesired) → OnOk (All (IsRoute extra_role)) (extra_routes v r)
unfolding extra_routes
extra_routes-IsRoute null r = tt
extra_routes-IsRoute (arr items) r = extra_routes_from-IsRoute 0 [] (to_list items) r
extra_routes-IsRoute (Value.bool b) r = tt
extra_routes-IsRoute (Value.num n) r = tt
extra_routes-IsRoute (Value.str s) r = tt
extra_routes-IsRoute (Value.obj d) r = tt

abbrev pub AdminIsRoute : Option RouteDesired → Type 0
AdminIsRoute none = Unit
AdminIsRoute (some r) = IsRoute admin_role r

abbrev pub ExtrasAreRoutes : List RouteDesired → Type 0
ExtrasAreRoutes rs =
    All (IsRoute extra_role) rs
    × All (λ q. IsRouteName (suffix_of q)) rs
    × NoDuplicates (map suffix_of rs)

abbrev pub RoutesAccepted : RouteDesired × Option RouteDesired × List RouteDesired → Type 0
RoutesAccepted (public, admin, extras) =
    IsRoute public_role public × AdminIsRoute admin × ExtrasAreRoutes extras

public_route_of-IsRoute : (v : Option Value) → OnOk (IsRoute public_role) (public_route_of v)
unfolding public_route_of
public_route_of-IsRoute none = tt
public_route_of-IsRoute (some raw) = go (truth raw)
  where
    go :
        (b : Bool)
        → OnOk
            (IsRoute public_role)
            (if b then route raw public_role none else err (value_error "publicRoute is required"))
    go true = route-IsRoute raw public_role none
    go false = tt

optional_route-IsRoute :
    (v : Option Value) (r : RouteDesired) → OnOk AdminIsRoute (optional_route v r)
unfolding optional_route
optional_route-IsRoute none r = tt
optional_route-IsRoute (some raw) r = go (truth raw)
  where
    go :
        (b : Bool)
        → OnOk AdminIsRoute
            (if b then route raw admin_role (some r) >>= (λ q. ok (some q)) else ok none)
    go true =
        bind-OnOk_with (IsRoute admin_role) AdminIsRoute (route raw admin_role (some r)) _
          (route-IsRoute raw admin_role (some r)) (λ q h. h)
    go false = tt

extra_routes-ExtrasAreRoutes :
    (v : Value) (r : RouteDesired) → OnOk ExtrasAreRoutes (extra_routes v r)
extra_routes-ExtrasAreRoutes v r = OnOk-from ExtrasAreRoutes (extra_routes v r) (λ rs e.
    let (names, distinct) = extra_routes-AllNew v r rs e in
    (
      OnOk-ok (All (IsRoute extra_role)) (extra_routes v r) rs (extra_routes-IsRoute v r) e,
      names,
      distinct,
    ))

pub routes_of-RoutesAccepted : (spec : Fields) → OnOk RoutesAccepted (routes_of spec)
unfolding routes_of
routes_of-RoutesAccepted spec =
    bind-OnOk_with (IsRoute public_role) RoutesAccepted (public_route_of (get spec "publicRoute")) _
      (public_route_of-IsRoute (get spec "publicRoute"))
      (λ public hp.
        bind-OnOk_with AdminIsRoute RoutesAccepted (optional_route (get spec "adminRoute") public) _
          (optional_route-IsRoute (get spec "adminRoute") public)
          (λ admin ha.
            bind-OnOk_with ExtrasAreRoutes RoutesAccepted
              (extra_routes (or_value (get spec "extraRoutes") (list [])) public) _
              (extra_routes-ExtrasAreRoutes (or_value (get spec "extraRoutes") (list [])) public)
              (λ extras he. (hp, ha, he))))
