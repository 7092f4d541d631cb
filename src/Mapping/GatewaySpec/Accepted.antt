-- ===== src/Mapping/GatewaySpec/Accepted.antt =====
-- What holds of a gateway whose spec is accepted.
use vmcp_operator.Base.{
  ◌≤◌, String, true, false, Option, none, some, List, [], ◌∷◌, ◌++◌, map, string_eq, ◌≡◌, refl, ap,
  All, NoDuplicates, contains, starts_with, text_length, arith, Result, ok, ◌>>=◌, OnOk, bind-OnOk,
  bind-OnOk_with, OnOk-ok, traverse,
}
use vmcp_operator.Json.{Fields}
use vmcp_operator.Json.Access.{item}
use vmcp_operator.Models.Gateway.{GatewayDesired, RouteDesired}
use vmcp_operator.Gateway.Headers.{wants_hop_inject}
use vmcp_operator.Gateway.Manifests.Placement.{named_routes, admin_route, named_extra}
use vmcp_operator.Mapping.Values.{section, elements, secret_ref, skill_ref}
use vmcp_operator.Mapping.Auth.{map_auth}
use vmcp_operator.Mapping.Routes.{extra_role}
use vmcp_operator.Mapping.Routes.Names.{IsRouteName, suffix_of}
use vmcp_operator.Mapping.Routes.Paths.{IsRoute}
use vmcp_operator.Mapping.GatewaySpec.{
  routes_of, persistence_of, tasks_of, proxy_of, gql_of, part_at, map_gateway,
}
use vmcp_operator.Mapping.GatewaySpec.AcceptedRoutes.{
  AdminIsRoute, ExtrasAreRoutes, RoutesAccepted, routes_of-RoutesAccepted,
}

-- The routes have distinct names, of at most 63 characters where they are extra ones, paths that
-- start with a slash, and the public one never gets the hop header.
unfoldable pub IsAccepted : GatewayDesired → Type 0
IsAccepted g =
    NoDuplicates (map (λ r. r.0) (named_routes g))
    × All (λ q. text_length (suffix_of q) ≤ 63) g.extra_routes
    × All (λ r. starts_with r.1.path "/" ≡ true) (named_routes g)
    × (wants_hop_inject g.public_route g ≡ false)

abbrev names_of : List RouteDesired → List String
names_of rs = map (λ (r : String × RouteDesired). r.0) (map named_extra rs)

names_of-suffix_of : (rs : List RouteDesired) → names_of rs ≡ map suffix_of rs
names_of-suffix_of [] = refl
names_of-suffix_of (r ∷ rs) = ap (λ ns. suffix_of r ∷ ns) (names_of-suffix_of rs)

-- No extra route has a reserved name.
extras-unreserved :
    (rs : List RouteDesired)
    → All (λ q. IsRouteName (suffix_of q)) rs
    → (contains (map suffix_of rs) "public" ≡ false) × (contains (map suffix_of rs) "admin" ≡ false)
unfolding IsRouteName
extras-unreserved [] h = (refl, refl)
extras-unreserved (r ∷ rs) h =
    let rest = extras-unreserved rs h.1 in
    (ground (arith, rest.0, h.0.2), ground (arith, rest.1, h.0.2))

named_routes-NoDuplicates :
    (o : Option RouteDesired) (rs : List RouteDesired)
    → ExtrasAreRoutes rs
    → NoDuplicates
        ("public" ∷ map (λ (r : String × RouteDesired). r.0) (admin_route o ++ map named_extra rs))
unfolding string_eq
named_routes-NoDuplicates o rs (routes, valid, distinct) = go o (extras-unreserved rs valid)
  where
    go :
        (q : Option RouteDesired)
        → (contains (map suffix_of rs) "public" ≡ false)
          × (contains (map suffix_of rs) "admin" ≡ false)
        → NoDuplicates (
            "public"
            ∷ map (λ (r : String × RouteDesired). r.0) (admin_route q ++ map named_extra rs))
    go none (p, a) = rw (names_of-suffix_of rs) (p, distinct)
    go (some r) (p, a) = rw (names_of-suffix_of rs) (p, (a, distinct))

extras-paths :
    (rs : List RouteDesired)
    → All (IsRoute extra_role) rs
    → All (λ r. starts_with r.1.path "/" ≡ true) (map named_extra rs)
unfolding IsRoute
extras-paths [] h = tt
extras-paths (r ∷ rs) h = (h.0.0, extras-paths rs h.1)

extras-short :
    (rs : List RouteDesired)
    → All (λ q. IsRouteName (suffix_of q)) rs
    → All (λ q. text_length (suffix_of q) ≤ 63) rs
unfolding IsRouteName
extras-short [] h = tt
extras-short (r ∷ rs) h = (h.0.0, extras-short rs h.1)

named_routes-paths :
    (g : GatewayDesired)
    → RoutesAccepted (g.public_route, g.admin_route, g.extra_routes)
    → All (λ r. starts_with r.1.path "/" ≡ true) (named_routes g)
unfolding IsRoute
named_routes-paths g (hp, ha, he) = (hp.0, go g.admin_route ha)
  where
    go :
        (o : Option RouteDesired)
        → AdminIsRoute o
        → All
            (λ r. starts_with r.1.path "/" ≡ true)
            (admin_route o ++ map named_extra g.extra_routes)
    go none h = extras-paths g.extra_routes he.0
    go (some r) h = (h, extras-paths g.extra_routes he.0)

routes-IsAccepted :
    (g : GatewayDesired)
    → RoutesAccepted (g.public_route, g.admin_route, g.extra_routes)
    → IsAccepted g
unfolding IsAccepted IsRoute wants_hop_inject
routes-IsAccepted g (hp, ha, he) = (
  named_routes-NoDuplicates g.admin_route g.extra_routes he,
  extras-short g.extra_routes he.1,
  named_routes-paths g (hp, ha, he),
  rw (hp.1) refl,
)

-- A further part of the spec does not change the routes.
then-IsAccepted {ℓ} :
    {A : Type ℓ} (call : Result A) (next : A → Result GatewayDesired)
    → ((a : A) → OnOk IsAccepted (next a))
    → OnOk IsAccepted (call >>= next)
then-IsAccepted = bind-OnOk IsAccepted

map_gateway-OnOk :
    (namespace name : String) (spec : Fields) → OnOk IsAccepted (map_gateway namespace name spec)
unfolding map_gateway
map_gateway-OnOk namespace name spec =
    bind-OnOk_with RoutesAccepted IsAccepted (routes_of spec) _ (routes_of-RoutesAccepted spec)
      (λ routes accepted. then-IsAccepted (item spec "image") _ (λ image.
        then-IsAccepted (item spec "adminTokenSecretRef") _ (λ admin_raw.
          then-IsAccepted (secret_ref admin_raw "token") _ (λ admin.
            then-IsAccepted (item spec "masterPasswordSecretRef") _ (λ master_raw.
              then-IsAccepted (secret_ref master_raw "password") _ (λ master.
                then-IsAccepted (persistence_of (part_at spec "persistence")) _ (λ persistence.
                  then-IsAccepted (tasks_of (part_at spec "tasks")) _ (λ tasks.
                    then-IsAccepted (proxy_of (part_at spec "proxy")) _ (λ proxy.
                      then-IsAccepted (gql_of (part_at spec "gql")) _ (λ gql.
                        then-IsAccepted (section spec "identityStrip") _ (λ identity.
                          then-IsAccepted (section spec "auth") _ (λ auth_raw.
                            then-IsAccepted (map_auth auth_raw) _ (λ auth.
                              then-IsAccepted (elements spec "skillRefs") _ (λ skill_raw.
                                then-IsAccepted (traverse skill_ref skill_raw) _ (λ skill_refs.
                                  then-IsAccepted (elements spec "attachments") _
                                    (λ attachments. routes-IsAccepted _ accepted))))))))))))))))

-- A gateway whose spec is accepted has routes with distinct names, those of extra routes at most
-- 63 characters long, with paths that start with a slash, and its public route never gets the hop
-- header.
pub map_gateway-IsAccepted :
    (namespace name : String) (spec : Fields) (g : GatewayDesired)
    → map_gateway namespace name spec ≡ ok g
    → IsAccepted g
map_gateway-IsAccepted namespace name spec g h =
    OnOk-ok IsAccepted (map_gateway namespace name spec) g (map_gateway-OnOk namespace name spec) h
