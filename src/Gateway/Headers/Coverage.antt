-- ===== src/Gateway/Headers/Coverage.antt =====
-- Which headers are removed, by their names in lower case.
use mathlib.Core.Bool.{and-true}
use vmcp_operator.Base.{
  String, Bool, true, false, not, ◌&&◌, ◌||◌, Option, none, some, List, [], ◌∷◌, ◌++◌, ◌==◌,
  string_eq, ◌≡◌, refl, sym, ap, ◌∙◌, if◌then◌else◌, any, contains, select, lower, truthy, arith,
  map, NoDuplicates, starts_with,
}
use vmcp_operator.Models.Gateway.{GatewayDesired, RouteDesired, public_strip_identity_headers}
use vmcp_operator.Gateway.Headers.{
  dedupe_from, add_custom, identity_remove_headers, wants_hop_inject,
  is_forward_auth_identity_header, without_hop, strip_headers_for_route,
}

-- Does the list remove the header with this name, whatever its case?
abbrev pub removes : List String → String → Bool
removes headers key = contains (map lower headers) key

removes-dedupe_from :
    (seen names : List String) (a : String)
    → removes (dedupe_from seen names) a ≡ (removes names a && not (contains seen a))
unfolding dedupe_from
removes-dedupe_from seen [] a = refl
removes-dedupe_from seen (n ∷ ns) a =
    ground
      (arith, removes-dedupe_from (if contains seen (lower n) then seen else lower n ∷ seen) ns a)

dedupe_from-NoDuplicates :
    (seen names : List String) → NoDuplicates (map lower (dedupe_from seen names))
unfolding dedupe_from
dedupe_from-NoDuplicates seen [] = tt
dedupe_from-NoDuplicates seen (n ∷ ns) = ground (
  arith,
  dedupe_from-NoDuplicates (if contains seen (lower n) then seen else lower n ∷ seen) ns,
  removes-dedupe_from (lower n ∷ seen) ns (lower n),
)

any-lower : (key : String) (hs : List String) → any (λ h. lower h == key) hs ≡ removes hs key
any-lower key [] = refl
any-lower key (h ∷ hs) = ground (arith, any-lower key hs)

removes-append :
    (hs ks : List String) (a : String) → removes (hs ++ ks) a ≡ (removes hs a || removes ks a)
removes-append [] ks a = refl
removes-append (h ∷ hs) ks a = ground (arith, removes-append hs ks a)

removes-add_custom :
    (hs cs : List String) (a : String)
    → removes (add_custom hs cs) a ≡ (removes hs a || removes cs a)
unfolding add_custom
removes-add_custom hs [] a = ground arith
removes-add_custom hs (c ∷ cs) a = ground (
  arith,
  any-lower (lower c) hs,
  removes-append hs (c ∷ []) a,
  removes-add_custom (if any (λ h. lower h == lower c) hs then hs else hs ++ c ∷ []) cs a,
)

removes-customs :
    (hs : List String) (u v w a : String)
    → (removes (add_custom hs (u ∷ v ∷ w ∷ [])) a && true)
      ≡ (removes hs a || a == lower u || a == lower v || a == lower w)
removes-customs hs u v w a = ground (arith, removes-add_custom hs (u ∷ v ∷ w ∷ []) a)

-- The list removes exactly the public identity headers and the three names that the gateway
-- configures, in any case, and names no header twice.
pub removes-identity_remove_headers :
    (g : GatewayDesired) (a : String)
    → (removes (identity_remove_headers g) a ≡ (
        removes public_strip_identity_headers a
        || a == lower g.auth.authentik.username_header
        || a == lower g.auth.authentik.groups_header
        || a == lower g.auth.authentik.forward_auth_secret_header))
      × NoDuplicates (map lower (identity_remove_headers g))
unfolding identity_remove_headers
removes-identity_remove_headers g a =
    let ak = g.auth.authentik in
    let customs = ak.username_header ∷ ak.groups_header ∷ ak.forward_auth_secret_header ∷ [] in
    (
      removes-dedupe_from [] (add_custom public_strip_identity_headers customs) a
          ∙ removes-customs public_strip_identity_headers ak.username_header ak.groups_header
              ak.forward_auth_secret_header a,
      dedupe_from-NoDuplicates [] (add_custom public_strip_identity_headers customs),
    )

removes-select :
    (p : String → Bool) (hs : List String) (a : String)
    → removes (select (λ h. not (p (lower h))) hs) a ≡ (removes hs a && not (p a))
removes-select p [] a = refl
removes-select p (h ∷ hs) a = ground (arith, removes-select p hs a)

-- A name in lower case that Authentik's forward authentication writes itself.
unfoldable pub identity_key : GatewayDesired → String → Bool
identity_key g key =
    starts_with key "x-authentik-"
    || key == lower g.auth.authentik.username_header
    || key == lower g.auth.authentik.groups_header

-- The name in lower case of the hop header that is set.
unfoldable pub hop_key : Option String → String → Bool
hop_key none key = false
hop_key (some hop) key = truthy hop && key == lower hop

removes-without_hop :
    (hop : Option String) (hs : List String) (a : String)
    → removes (without_hop hop hs) a ≡ (removes hs a && not (hop_key hop a))
unfolding without_hop hop_key
removes-without_hop none hs a = ground arith
removes-without_hop (some hop) hs a = ground (arith, removes-select (λ key. key == lower hop) hs a)

removes_spared :
    (g : GatewayDesired) (hop : Option String) (hs : List String) (a : String)
    → removes (without_hop hop (select (λ h. not (is_forward_auth_identity_header g h)) hs)) a
      ≡ (removes hs a && not (identity_key g a) && not (hop_key hop a))
unfolding is_forward_auth_identity_header identity_key
removes_spared g hop hs a =
    removes-without_hop hop (select (λ h. not (is_forward_auth_identity_header g h)) hs) a
    ∙ ap (λ b. b && not (hop_key hop a)) (removes-select (identity_key g) hs a)

de_morgan : (b x y : Bool) → (b && not x && not y) ≡ (b && not (x || y))
de_morgan b x y = ground arith

removes-branches :
    (strip inject wants k : Bool) (spared full : List String) (a : String)
    → removes spared a ≡ (removes full a && not k)
    → removes (if not strip then [] else if inject && wants then spared else full) a
      ≡ (strip && removes full a && not (inject && wants && k))
removes-branches false inject wants k spared full a e = refl
removes-branches true false wants k spared full a e = sym (and-true (removes full a))
removes-branches true true false k spared full a e = sym (and-true (removes full a))
removes-branches true true true k spared full a e = e

-- A route that strips removes the gateway's identity headers, except that one which injects the
-- hop header spares what forward authentication has written and the hop header itself.
pub removes-strip_headers_for_route :
    (g : GatewayDesired) (route : RouteDesired) (inject : Bool) (hop : Option String) (a : String)
    → removes (strip_headers_for_route g route inject hop) a ≡ (
        route.strip_client_identity_headers
        && removes (identity_remove_headers g) a
        && not (inject && wants_hop_inject route g && (identity_key g a || hop_key hop a)))
unfolding strip_headers_for_route
removes-strip_headers_for_route g route inject hop a =
    let full = identity_remove_headers g in
    removes-branches route.strip_client_identity_headers inject (wants_hop_inject route g)
      (identity_key g a || hop_key hop a)
      (without_hop hop (select (λ h. not (is_forward_auth_identity_header g h)) full)) full a
      (removes_spared g hop full a ∙ de_morgan (removes full a) (identity_key g a) (hop_key hop a))
