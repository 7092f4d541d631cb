-- ===== src/Environments.antt =====
-- python/vmcp_operator/domain/usecases/list_environments.py: the rows of the operator's dashboard.
use vmcp_operator.Base.{
  String, ◌<>◌, Option, none, some, List, [], ◌∷◌, map, string_eq, ◌≡◌, refl, ap, ◌∙◌,
  if◌then◌else◌, starts_with, contains,
}
use vmcp_operator.Base.Dict.{Dict, lookup}
use vmcp_operator.Base.Sorting.{sort_by, contains-sort_by}
use vmcp_operator.Models.Gateway.{GatewayKey, GatewayDesired, RouteDesired, as_str}
use vmcp_operator.Ports.{GatewayRepository}

pub record EnvironmentRow : Type 0 where
  pub key : GatewayKey
  pub phase : String
  pub public_hostname : String
  pub admin_url : Option String

-- `_https_url`
unfoldable pub https_url : String → String → String
https_url hostname path =
    "https://" <> (hostname <> (if starts_with path "/" then path else "/" <> path))

abbrev admin_url_of : Option RouteDesired → Option String
admin_url_of none = none
admin_url_of (some route) = some (https_url route.hostname route.path)

-- `_to_row`
unfoldable pub to_row : GatewayDesired → String → EnvironmentRow
unfolding https_url
to_row gateway phase = record {
  key = gateway.key;
  phase = phase;
  public_hostname = gateway.public_route.hostname;
  admin_url = admin_url_of gateway.admin_route;
}

-- `self.phases.get(key, "Unknown")`
abbrev pub phase_or_unknown : Option String → String
phase_or_unknown none = "Unknown"
phase_or_unknown (some phase) = phase

abbrev pub row_of : Dict String → GatewayDesired → EnvironmentRow
row_of phases gateway = to_row gateway (phase_or_unknown (lookup (as_str gateway.key) phases))

-- `ListEnvironments.execute`
unfoldable pub list_environments : GatewayRepository → Dict String → List EnvironmentRow
unfolding to_row
list_environments gateways phases =
    sort_by (λ row. as_str row.key) (map (row_of phases) gateways.list_all)

row_keys :
    (phases : Dict String) (gs : List GatewayDesired)
    → map (λ row. as_str row.key) (map (row_of phases) gs) ≡ map (λ g. as_str g.key) gs
unfolding to_row
row_keys phases [] = refl
row_keys phases (g ∷ gs) = ap (λ ks. as_str g.key ∷ ks) (row_keys phases gs)

-- The dashboard lists the key of a gateway exactly if the repository has the gateway, whether or
-- not a phase is recorded for it.
pub contains-list_environments :
    (gateways : GatewayRepository) (phases : Dict String) (key : String)
    → contains (map (λ row. as_str row.key) (list_environments gateways phases)) key
      ≡ contains (map (λ g. as_str g.key) gateways.list_all) key
unfolding list_environments
contains-list_environments gateways phases key =
    contains-sort_by (λ row. as_str row.key) (map (row_of phases) gateways.list_all) key
    ∙ ap (λ ks. contains ks key) (row_keys phases gateways.list_all)
