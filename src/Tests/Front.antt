-- ===== src/Tests/Front.antt =====
-- Requests of the natural-language front end.
use vmcp_operator.Base.{
  ℕ, String, Bool, true, false, Option, none, some, List, [], ◌∷◌, ◌≡◌, refl, Result, ok, err,
  lookup_error, value_error,
}
use vmcp_operator.Json.{Value, str, bool, obj, Fields, fields, dict}
use vmcp_operator.Models.Gateway.{GatewayKey}
use vmcp_operator.Models.Mcp.{McpServerDesired, remote_http}
use vmcp_operator.Ports.InMemory.{in_memory, in_memory-IsLawful}
use vmcp_operator.ManageMcp.{add, get, remove}
use vmcp_operator.Nl.{NlIntent, NlCrudResult, execute, one}
use vmcp_operator.Nl.Words.{as_bool}
use vmcp_operator.Nl.Parse.{Patterns, parse}
use vmcp_operator.Nl.Structured.{intent_from_structured}
use vmcp_operator.Nl.AddGet.{request, get-execute-add}
use vmcp_operator.Tests.Fixtures.{prod, gateways}

abbrev wiki_fields : Fields
wiki_fields = fields (
    ("source", dict (("type", str "RemoteHttp") ∷ ("url", str "http://wiki") ∷ []))
    ∷ ("forwardIdentity", bool true)
    ∷ [])

abbrev wiki : McpServerDesired
wiki = record {
  namespace = prod.namespace;
  name = "wiki";
  gateway_key = prod;
  enabled = true;
  description = none;
  source = remote_http (record { url = "http://wiki"; bearer_secret_ref = none });
  tool_overrides = [];
  skill_refs = [];
  web_exposures = [];
  forward_identity = true;
}

abbrev answer : NlCrudResult
answer = one (request add prod "wiki" (some wiki_fields)) "added" wiki

add_wiki_runs :
    (execute in_memory gateways (request add prod "wiki" (some wiki_fields)) []).0 ≡ ok answer
unfolding execute vmcp_operator.ManageMcp.Body.mcp_from_add_body vmcp_operator.Base.string_eq
    vmcp_operator.Base.strip vmcp_operator.Base.has_char vmcp_operator.Base.lower
    vmcp_operator.ManageMcp.add_mcp vmcp_operator.ManageMcp.Checks.validate_mcp
    vmcp_operator.ManageMcp.Checks.require_gateway vmcp_operator.Models.Gateway.gateway_key_eq
    vmcp_operator.ManageMcp.Checks.resolve_vmcp_proxy vmcp_operator.Ports.InMemory.get
    vmcp_operator.Base.Dict.lookup vmcp_operator.Ports.InMemory.upsert
add_wiki_runs = refl

get-execute-add_example :
    (m : McpServerDesired) × (some wiki ≡ some m)
    × (execute in_memory gateways
          (request get prod "wiki" none)
          (execute in_memory gateways (request add prod "wiki" (some wiki_fields)) []).1
        ≡ (
          ok (one (request get prod "wiki" none) "ok" m),
          (execute in_memory gateways (request add prod "wiki" (some wiki_fields)) []).1,
        ))
get-execute-add_example =
    get-execute-add in_memory gateways in_memory-IsLawful prod "wiki" (some wiki_fields) none []
      answer add_wiki_runs

-- What is not there cannot be removed: the front end says so in an error of its own.
remove_wiki_runs :
    execute in_memory gateways (request remove prod "wiki" none) []
    ≡ (err (lookup_error "mcp `ns/wiki` not found"), [])
unfolding execute vmcp_operator.ManageMcp.remove_mcp vmcp_operator.ManageMcp.Checks.require_gateway
    vmcp_operator.Models.Gateway.gateway_key_eq vmcp_operator.Base.String-discrete
    vmcp_operator.Ports.InMemory.get vmcp_operator.Base.Dict.lookup
remove_wiki_runs = refl

-- Patterns that find one text.
abbrev patterns : Patterns
patterns = record {
  match_add_proxy = λ text. none;
  match_add = λ text. some (record {
    name = "wiki";
    gateway = "ns/prod";
    url = some "http://wiki";
    image = none;
    fi = some "Да";
    description = none;
  });
  match_remove = λ text. none;
  match_update = λ text. none;
  match_list = λ text. none;
  match_get = λ text. none;
  find_fields = λ blob. [];
}

parse_runs :
    parse patterns " add mcp  wiki on ns/prod url http://wiki forward_identity=Да" false
    ≡ ok (request add prod "wiki" (some wiki_fields))
unfolding parse vmcp_operator.Base.join vmcp_operator.Base.strip vmcp_operator.Base.string_eq
    as_bool vmcp_operator.Base.lower vmcp_operator.Nl.Words.parse_gateway
    vmcp_operator.Base.split_once vmcp_operator.Json.set
parse_runs = refl

structured_runs :
    intent_from_structured (
      fields (
        ("action", str "add")
        ∷ ("gateway", str "ns/prod")
        ∷ ("name", str "wiki")
        ∷ ("fields", obj wiki_fields)
        ∷ []))
    ≡ ok (request add prod "wiki" (some wiki_fields))
unfolding intent_from_structured vmcp_operator.Base.string_eq vmcp_operator.Nl.Words.parse_gateway
    vmcp_operator.Base.split_once
structured_runs = refl

no_action_runs :
    intent_from_structured (fields []) ≡ err (value_error "'' is not a valid McpMutation")
unfolding intent_from_structured vmcp_operator.Base.string_eq vmcp_operator.Json.Access.repr_str
no_action_runs = refl
