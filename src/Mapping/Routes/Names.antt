-- ===== src/Mapping/Routes/Names.antt =====
-- The names of the extra routes that a spec is accepted with.
use mathlib.Core.Path.{subst}
use vmcp_operator.Base.{
  ℕ, suc, ◌≤◌, String, ◌<>◌, Bool, true, false, not, ◌||◌, some, List, [], ◌∷◌, map, string_eq, ◌≡◌,
  refl, sym, All, NoDuplicates, contains, ltb, truthy, text_length, arith, Error, ok, ◌>>=◌, ◌>>◌,
  raise_if, >>=-eq-ok, ok-injective, value_error, show_ℕ,
}
use vmcp_operator.Json.{Value, null, arr, to_list}
use vmcp_operator.Models.Gateway.{RouteDesired}
use vmcp_operator.Gateway.Manifests.{extra_suffix}
use vmcp_operator.Mapping.Values.{fields_of}
use vmcp_operator.Mapping.Routes.{
  extra_role, route, trimmed_at, is_label, check_route_name, extra_route, extra_routes_from,
  extra_routes, is_object,
}

-- A name that an extra route may have: a label of at most 63 characters, and not a reserved one.
unfoldable pub IsRouteName : String → Type 0
IsRouteName name =
    (text_length name ≤ 63)
    × (is_label name ≡ true)
    × (contains ("public" ∷ "admin" ∷ []) name ≡ false)

-- The name under which the HTTPRoute of an extra route is made.
abbrev pub suffix_of : RouteDesired → String
suffix_of r = extra_suffix r.route_name

pub raise_if-eq-ok : (b : Bool) (e : Error) → raise_if b e ≡ ok tt → b ≡ false
raise_if-eq-ok false e h = refl
raise_if-eq-ok true e h = cc

length_bound : (a : ℕ) (b : Bool) → (ltb 63 a || not b) ≡ false → (a ≤ 63) × (b ≡ true)
length_bound a b h = (ground arith, ground arith)

check_route_name-eq-ok :
    (seen : List String) (name : String)
    → check_route_name seen name ≡ ok tt
    → (truthy name ≡ true) × IsRouteName name × (contains seen name ≡ false)
unfolding check_route_name IsRouteName
check_route_name-eq-ok seen name h =
    let (a, e1, h1) = >>=-eq-ok _ (λ _. raise_if (contains seen name) _) h in
    let (b, e2, h2) = >>=-eq-ok _ (λ _. raise_if (contains ("public" ∷ "admin" ∷ []) name) _) e1 in
    let (c, e3, h3) =
      >>=-eq-ok (raise_if (not (truthy name)) _)
        (λ _. raise_if (ltb 63 (text_length name) || not (is_label name)) _) e2 in
    let given = raise_if-eq-ok (not (truthy name)) _ e3 in
    let bounds = length_bound (text_length name) (is_label name) (raise_if-eq-ok _ _ h3) in
    (ground (arith, given), (bounds.0, bounds.1, raise_if-eq-ok _ _ h2), raise_if-eq-ok _ _ h1)

-- A route with an accepted name that is not among those seen.
unfoldable pub IsNew : List String → String × RouteDesired → Type 0
IsNew seen (name, r) = (suffix_of r ≡ name) × IsRouteName name × (contains seen name ≡ false)

suffix_named : (name : String) → truthy name ≡ true → extra_suffix (some name) ≡ name
suffix_named name h = rw h refl

extra_route-IsNew :
    (seen : List String) (item : Value) (r : RouteDesired) (named : String × RouteDesired)
    → extra_route seen item r ≡ ok named
    → IsNew seen named
unfolding extra_route IsNew
extra_route-IsNew seen item r named h =
    let (raw, e1, h1) = >>=-eq-ok (fields_of item) (λ _. _) h in
    let (done, e2, h2) =
      >>=-eq-ok (check_route_name seen (trimmed_at raw "name"))
        (λ _. route item extra_role (some r) >>= λ mapped. ok _) h1 in
    let (mapped, e3, h3) = >>=-eq-ok (route item extra_role (some r)) (λ mapped. ok _) h2 in
    go (trimmed_at raw "name") mapped (check_route_name-eq-ok seen (trimmed_at raw "name") e2) h3
  where
    go :
        (name : String) (mapped : RouteDesired)
        → (truthy name ≡ true) × IsRouteName name × (contains seen name ≡ false)
        → ok (name, record mapped { route_name = some name }) ≡ ok named
        → IsNew seen named
    go name mapped (given, valid, new) e =
        subst (IsNew seen) (ok-injective _ _ e) (suffix_named name given, valid, new)

-- What is shown of the routes of a list, when some names have been seen.
unfoldable pub AllNew : List String → List RouteDesired → Type 0
AllNew seen rs =
    All (λ r. IsRouteName (suffix_of r)) rs
    × NoDuplicates (map suffix_of rs)
    × All (λ r. contains seen (suffix_of r) ≡ false) rs

-- A route joins routes that are new beside it.
join-AllNew :
    (seen : List String) (name : String) (r : RouteDesired) (rs : List RouteDesired)
    → IsNew seen (name, r)
    → AllNew (name ∷ seen) rs
    → AllNew seen (r ∷ rs)
unfolding IsNew AllNew
join-AllNew seen name r rs (e, valid, new) (names, distinct, others) = (
  (subst IsRouteName (sym e) valid, names),
  (rw e (apart rs others).0, distinct),
  (rw e new, (apart rs others).1),
)
  where
    apart :
        (qs : List RouteDesired)
        → All (λ q. contains (name ∷ seen) (suffix_of q) ≡ false) qs
        → (contains (map suffix_of qs) name ≡ false)
          × All (λ q. contains seen (suffix_of q) ≡ false) qs
    apart [] h = (refl, tt)
    apart (q ∷ qs) h =
        let rest = apart qs h.1 in (ground (arith, h.0, rest.0), (ground (arith, h.0), rest.1))

extra_routes_from-AllNew :
    (i : ℕ) (seen : List String) (items : List Value) (r : RouteDesired) (rs : List RouteDesired)
    → extra_routes_from i seen items r ≡ ok rs
    → AllNew seen rs
unfolding extra_routes_from AllNew
extra_routes_from-AllNew i seen [] r rs h = subst (AllNew seen) (ok-injective _ _ h) (tt, tt, tt)
extra_routes_from-AllNew i seen (item ∷ items) r rs h =
    let (named, e1, h1) =
      >>=-eq-ok
        (raise_if (not (is_object item))
            (value_error ("extraRoutes[" <> (show_ℕ i <> "] must be an object")))
          >> extra_route seen item r)
        (λ named.
          extra_routes_from (suc i) (named.0 ∷ seen) items r >>= λ routes. ok (named.1 ∷ routes))
        h in
    let (done, e2, h2) =
      >>=-eq-ok (raise_if (not (is_object item)) _) (λ _. extra_route seen item r) e1 in
    let (routes, e3, h3) =
      >>=-eq-ok (extra_routes_from (suc i) (named.0 ∷ seen) items r)
        (λ routes. ok (named.1 ∷ routes)) h1 in
    subst (AllNew seen) (ok-injective _ _ h3) (
      join-AllNew seen named.0 named.1 routes (extra_route-IsNew seen item r named h2)
        (extra_routes_from-AllNew (suc i) (named.0 ∷ seen) items r routes e3))

-- The extra routes that a spec is accepted with have names that are labels of at most 63
-- characters, neither "public" nor "admin", and all distinct.
pub extra_routes-AllNew :
    (v : Value) (r : RouteDesired) (rs : List RouteDesired)
    → extra_routes v r ≡ ok rs
    → All (λ q. IsRouteName (suffix_of q)) rs × NoDuplicates (map suffix_of rs)
unfolding extra_routes AllNew
extra_routes-AllNew null r rs h =
    subst (λ qs. All (λ q. IsRouteName (suffix_of q)) qs × NoDuplicates (map suffix_of qs))
      (ok-injective [] rs h) (tt, tt)
extra_routes-AllNew (arr items) r rs h =
    let (names, distinct, others) = extra_routes_from-AllNew 0 [] (to_list items) r rs h in
    (names, distinct)
extra_routes-AllNew (Value.bool b) r rs h = cc
extra_routes-AllNew (Value.num n) r rs h = cc
extra_routes-AllNew (Value.str s) r rs h = cc
extra_routes-AllNew (Value.obj d) r rs h = cc
