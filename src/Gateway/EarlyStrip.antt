-- ===== src/Gateway/EarlyStrip.antt =====
-- python/vmcp_operator/domain/usecases/render_gateway_manifests.py: the strip before
-- authentication, by a ListenerPolicy on the parent Gateway.
pub mod Parents
pub mod Names
use Prim.Native.Char.{Char, code}
use vmcp_operator.Base.{
  String, ◌<>◌, Bool, true, false, not, ◌&&◌, ◌||◌, Option, none, some, List, [], ◌∷◌, ◌++◌, map,
  ◌==◌, string_eq, if◌then◌else◌, leb, eqb, truthy, lower, join, contains, select, drop_while,
  drop_while_end, take_chars,
}
use vmcp_operator.Json.{Value, str, list, dict}
use vmcp_operator.Models.Gateway.{GatewayDesired, GatewayParentRef, RouteDesired, parent_ref_eq}
use vmcp_operator.Gateway.Headers.{identity_remove_headers}

pub record EarlyStripPlan : Type 0 where
  pub objects : List Value
  pub phase : String
  pub message : String

abbrev pub optional_route : Option RouteDesired → List RouteDesired
optional_route none = []
optional_route (some route) = route ∷ []

-- `_strip_routes`
unfoldable pub strip_routes : GatewayDesired → List RouteDesired
strip_routes gateway =
    select (λ route. route.strip_client_identity_headers)
      ((gateway.public_route ∷ optional_route gateway.admin_route) ++ gateway.extra_routes)

-- The text of an optional field, if it is given and not empty.
abbrev pub given_text : Option String → List String
given_text none = []
given_text (some s) = if truthy s then s ∷ [] else []

abbrev pub is_alnum : Char → Bool
is_alnum c =
    (leb 48 (code c) && leb (code c) 57)
    || (leb 65 (code c) && leb (code c) 90)
    || (leb 97 (code c) && leb (code c) 122)

abbrev pub is_dash : Char → Bool
is_dash c = eqb (code c) 45

-- The loop of `_listener_policy_name`: no dash follows a dash, and any other character becomes one.
unfoldable pub clean : Bool → String → String
clean prev_dash String.[] = String.[]
clean prev_dash (String.◌∷◌ c s) =
    let keep = (is_alnum c || is_dash c) && not (is_dash c && prev_dash) in
    let dash = not (is_alnum c || is_dash c) && not prev_dash in
    let rest = clean (if keep then is_dash c else if dash then true else prev_dash) s in
    if keep then String.◌∷◌ c rest else if dash then "-" <> rest else rest

-- The text that `_listener_policy_name` cleans.
unfoldable pub raw_policy_name : String → GatewayParentRef → String
unfolding join
raw_policy_name gateway_name parent =
    lower
      (join "-" (gateway_name ∷ "identity-strip" ∷ parent.name ∷ given_text parent.section_name))

-- `_listener_policy_name`
unfoldable pub listener_policy_name : String → GatewayParentRef → String
unfolding clean raw_policy_name drop_while drop_while_end take_chars
listener_policy_name gateway_name parent = take_chars 253 (
    drop_while_end is_dash (drop_while is_dash (clean false (raw_policy_name gateway_name parent))))

abbrev pub gateway_labels : String → List (String × Value)
gateway_labels name =
    ("app.kubernetes.io/name", str "vmcp")
    ∷ ("app.kubernetes.io/instance", str name)
    ∷ ("vmcp.io/gateway", str name)
    ∷ []

abbrev pub section_entry : Option String → List (String × Value)
section_entry none = []
section_entry (some s) = if truthy s then ("sectionName", str s) ∷ [] else []

-- `_listener_policy`
unfoldable pub listener_policy : GatewayDesired → GatewayParentRef → Value
unfolding listener_policy_name
listener_policy gateway parent =
    let name = gateway.key.name in
    dict (
      ("apiVersion", str "gateway.kgateway.dev/v1alpha1")
      ∷ ("kind", str "ListenerPolicy")
      ∷ (
        "metadata",
        dict (
            ("name", str (listener_policy_name name parent))
            ∷ ("namespace", str gateway.key.namespace)
            ∷ ("labels", dict (gateway_labels name))
            ∷ ("annotations", dict (("vmcp.io/identity-strip", str "early") ∷ []))
            ∷ []),
      )
      ∷ (
        "spec",
        dict (
            (
              "targetRefs",
              list (
                  dict (
                    (("group", str "gateway.networking.k8s.io")
                      ∷ ("kind", str "Gateway")
                      ∷ ("name", str parent.name)
                      ∷ [])
                    ++ section_entry parent.section_name)
                  ∷ []),
            )
            ∷ (
              "default",
              dict (
                  (
                    "httpSettings",
                    dict (
                        (
                          "earlyRequestHeaderModifier",
                          dict (("remove", list (map str (identity_remove_headers gateway))) ∷ []),
                        )
                        ∷ []),
                  )
                  ∷ []),
            )
            ∷ []),
      )
      ∷ [])

-- The loop that collects the parents of the routes, each once.
unfoldable pub distinct_parents : List GatewayParentRef → List RouteDesired → List GatewayParentRef
distinct_parents seen [] = []
distinct_parents seen (route ∷ routes) =
    let ref = route.gateway_ref in
    let rest = distinct_parents (if contains seen ref then seen else ref ∷ seen) routes in
    if contains seen ref then rest else ref ∷ rest

-- `ref.namespace or gateway.key.namespace`
abbrev pub parent_namespace : GatewayDesired → GatewayParentRef → String
parent_namespace gateway ref = elim ref.namespace [
  | none ↦ gateway.key.namespace
  | some ns ↦ if truthy ns then ns else gateway.key.namespace
]

abbrev pub is_local : GatewayDesired → GatewayParentRef → Bool
is_local gateway ref = parent_namespace gateway ref == gateway.key.namespace

-- `loc`: how a parent in another namespace is named in the message.
abbrev location : GatewayDesired → GatewayParentRef → String
location gateway ref =
    let loc = parent_namespace gateway ref <> ("/" <> ref.name) in
    elim (given_text ref.section_name) [ [] ↦ loc | s ∷ ss ↦ loc <> ("#" <> s) ]

unfoldable pub strip_message : List String → List String → String
unfolding join
strip_message names [] = "applied " <> join ", " names
strip_message names (c ∷ cross) =
    ("applied " <> join ", " names)
    <> ("; skipped cross-namespace Gateway " <> join ", " (c ∷ cross))

-- The result, from the parents in the gateway's namespace and the locations of the others.
unfoldable pub strip_plan : GatewayDesired → List GatewayParentRef → List String → EarlyStripPlan
unfolding listener_policy strip_message
strip_plan gateway [] cross = record {
  objects = [];
  phase = "SkippedCrossNamespace";
  message =
      "ListenerPolicy must share the Gateway namespace ("
      <> (join ", " cross <> "); HTTPRoute strip still applies after extAuth");
}
strip_plan gateway (ref ∷ refs) cross = record {
  objects = map (listener_policy gateway) (ref ∷ refs);
  phase = "Applied";
  message = strip_message (map (listener_policy_name gateway.key.name) (ref ∷ refs)) cross;
}

unfoldable pub plan_for_parents : GatewayDesired → List GatewayParentRef → EarlyStripPlan
unfolding strip_plan
plan_for_parents gateway [] = record {
  objects = [];
  phase = "Disabled";
  message = "no identity strip requested";
}
plan_for_parents gateway (ref ∷ refs) =
    strip_plan gateway (select (is_local gateway) (ref ∷ refs))
      (map (location gateway) (select (λ r. not (is_local gateway r)) (ref ∷ refs)))

-- `plan_early_identity_strip`
unfoldable pub plan_early_identity_strip : GatewayDesired → EarlyStripPlan
unfolding strip_routes distinct_parents plan_for_parents
plan_early_identity_strip gateway =
    if not gateway.identity_strip.manage_listener_policy
    then record {
      objects = [];
      phase = "Disabled";
      message = "identityStrip.manageListenerPolicy=false";
    }
    else plan_for_parents gateway (distinct_parents [] (strip_routes gateway))
