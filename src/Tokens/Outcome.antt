-- ===== src/Tokens/Outcome.antt =====
-- When a token is issued and what it says.
use vmcp_operator.Base.{
  String, Bool, true, false, not, Option, none, some, ◌≡◌, refl, sym, ap, ◌∙◌, strip, truthy, Error,
  file_exists_error, Result, ok, err, ok-injective, raise_if,
}
use vmcp_operator.Base.Exec.{Exec, continue}
use vmcp_operator.Models.Gateway.{GatewayKey, GatewayDesired}
use vmcp_operator.Ports.{GatewayRepository, is_some}
use vmcp_operator.Tokens.{
  IssuedToken, TokenIssuer, issue_use_token, issue, issued, rename_duplicate, fixed_scope,
  require_known,
}

rename_duplicate-eq-ok :
    (r : Result String) (token : String) → rename_duplicate r ≡ ok token → r ≡ ok token
unfolding rename_duplicate
rename_duplicate-eq-ok (ok x) token h = h
rename_duplicate-eq-ok (err (file_exists_error m)) token h = absurd cc
rename_duplicate-eq-ok (err e) token h = absurd cc

raise_if-eq-ok : (b : Bool) (e : Error) (u : Unit {0}) → raise_if (not b) e ≡ ok u → b ≡ true
raise_if-eq-ok true e u h = refl
raise_if-eq-ok false e u h = absurd cc

require_known-eq-ok :
    (key : GatewayKey) (o : Option GatewayDesired) (u : Unit {0})
    → require_known key o ≡ ok u
    → is_some o ≡ true
require_known-eq-ok key none u h = absurd cc
require_known-eq-ok key (some g) u h = refl

module _ {ℓ κ μ} {S : Type ℓ} {A : Type κ} {B : Type μ} where
  continue-eq-ok :
      (r : Result A) (f : A → Exec S B) (s : S) (b : B)
      → (continue r f s).0 ≡ ok b
      → (a : A) × (r ≡ ok a) × ((f a s).0 ≡ ok b)
  continue-eq-ok (ok a) f s b h = (a, refl, h)
  continue-eq-ok (err e) f s b h = absurd cc

-- What a token says that was issued for a client name, and what it took.
unfoldable pub IsIssued :
    (issuer : TokenIssuer)
    → GatewayRepository
    → GatewayKey
    → String
    → issuer.State
    → IssuedToken
    → Type 0
IsIssued issuer gateways key name s t =
    (truthy name ≡ true)
    × (is_some (gateways.get key) ≡ true)
    × (t.gateway ≡ key)
    × (t.client_name ≡ name)
    × (t.scope ≡ fixed_scope)
    × ((issuer.issue_use_token key name s).0 ≡ ok t.token)

-- A token that is returned is the issuer's for the trimmed client name, which is not empty; the
-- gateway is known; and the token's scope is "mcp:use", whatever the caller sends.
pub issue_use_token-IsIssued :
    (issuer : TokenIssuer) (gateways : GatewayRepository) (key : GatewayKey) (client_name : String)
    (s : issuer.State) (t : IssuedToken)
    → (issue_use_token issuer gateways key client_name s).0 ≡ ok t
    → IsIssued issuer gateways key (strip client_name) s t
unfolding issue_use_token IsIssued issue
issue_use_token-IsIssued issuer gateways key client_name s t h =
    let (u, e, h2) = continue-eq-ok (raise_if (not (truthy (strip client_name))) _) _ s t h in
    let (v, e2, h3) = continue-eq-ok (require_known key (gateways.get key)) _ s t h2 in
    let (token, e3, h4) =
      continue-eq-ok (rename_duplicate (issuer.issue_use_token key (strip client_name) s).0) _ _ t
        h3 in
    let q = ok-injective (issued key (strip client_name) token) t h4 in
    (
      raise_if-eq-ok (truthy (strip client_name)) _ u e,
      require_known-eq-ok key (gateways.get key) v e2,
      ap (λ x. x.gateway) (sym q),
      ap (λ x. x.client_name) (sym q),
      ap (λ x. x.scope) (sym q),
      rename_duplicate-eq-ok _ token e3 ∙ ap (λ x. ok x.token) q,
    )
