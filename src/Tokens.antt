-- ===== src/Tokens.antt =====
-- python/vmcp_operator/domain/usecases/issue_use_token.py: one-time tokens with a fixed scope.
pub mod Outcome
use vmcp_operator.Base.{
  String, ◌<>◌, Bool, true, false, not, Option, none, some, ◌≡◌, refl, ◌≢◌, strip, truthy,
  value_error, lookup_error, duplicate_token_error, file_exists_error, Error, Result, ok, err,
  raise_if,
}
use vmcp_operator.Base.Exec.{Exec, pure, raise, lift, ◌>>=◌, ◌>>◌}
use vmcp_operator.Models.Gateway.{GatewayKey, GatewayDesired, as_str}
use vmcp_operator.Ports.{GatewayRepository}

abbrev pub fixed_scope : String
fixed_scope = "mcp:use"

pub record IssuedToken : Type 0 where
  pub gateway : GatewayKey
  pub client_name : String
  pub scope : String
  pub token : String

-- python/vmcp_operator/domain/ports: `TokenIssuer`, with the state of the token store.
pub record TokenIssuer : Type 1 where
  pub State : Type 0
  pub issue_use_token : GatewayKey → String → Exec State String

-- `except FileExistsError as exc: raise DuplicateTokenError(str(exc))`
unfoldable pub rename_duplicate : Result String → Result String
rename_duplicate (err (file_exists_error message)) = err (duplicate_token_error message)
rename_duplicate r = r

abbrev pub require_known : GatewayKey → Option GatewayDesired → Result (Unit {0})
require_known key none = err (lookup_error ("gateway `" <> (as_str key <> "` not found")))
require_known key (some gateway) = ok tt

-- The `try` around the issuer.
unfoldable pub issue {ℓ} : {S : Type ℓ} → Exec S String → Exec S String
unfolding rename_duplicate
issue attempt s = (rename_duplicate (attempt s).0, (attempt s).1)

abbrev pub issued : GatewayKey → String → String → IssuedToken
issued key name token = record {
  gateway = key;
  client_name = name;
  scope = fixed_scope;
  token = token;
}

-- `IssueUseToken.execute`
unfoldable pub issue_use_token :
    (issuer : TokenIssuer) → GatewayRepository → GatewayKey → String → Exec issuer.State IssuedToken
unfolding issue
issue_use_token issuer gateways key client_name = do
  let name = strip client_name
  lift (raise_if (not (truthy name)) (value_error "client name must be non-empty"))
  lift (require_known key (gateways.get key))
  token ← issue (issuer.issue_use_token key name)
  pure (issued key name token)
