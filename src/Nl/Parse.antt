-- ===== src/Nl/Parse.antt =====
-- python/vmcp_operator/domain/usecases/nl_crud.py: `NlCrud.parse`. The regular
-- expressions are parameters: what they find is given by their groups.
use vmcp_operator.Base.{
  String, ◌<>◌, Bool, true, ◌&&◌, ◌||◌, Option, none, some, List, [], ◌∷◌, select, ◌==◌, string_eq,
  if◌then◌else◌, truthy, strip, lower, is_space, join, split_once, starts_with, value_error,
  lookup_error, Result, ok, err, ◌>>=◌, ◌>>◌, raise_if, not,
}
use vmcp_operator.Json.{Value, null, bool, str, dict, Fields, end, set}
use vmcp_operator.Json.Access.{truth}
use vmcp_operator.ManageMcp.{McpMutation, add, update, remove, list}
use vmcp_operator.ManageMcp
use vmcp_operator.Nl.Words.{parse_gateway, as_bool, parse_fields}
use vmcp_operator.Nl.{NlIntent}

-- The groups of a match.
pub record AddProxyMatch : Type 0 where
  pub name : String
  pub gateway : String
  pub peer : String
  pub fi : Option String
  pub description : Option String

pub record AddMatch : Type 0 where
  pub name : String
  pub gateway : String
  pub url : Option String
  pub image : Option String
  pub fi : Option String
  pub description : Option String

pub record NamedMatch : Type 0 where
  pub name : String
  pub gateway : String

pub record UpdateMatch : Type 0 where
  pub name : String
  pub gateway : String
  pub field_blob : String

-- `match` of the six patterns of a request, and `finditer` of the pattern of a field.
pub record Patterns : Type 0 where
  pub match_add_proxy : String → Option AddProxyMatch
  pub match_add : String → Option AddMatch
  pub match_remove : String → Option NamedMatch
  pub match_update : String → Option UpdateMatch
  pub match_list : String → Option String
  pub match_get : String → Option NamedMatch
  pub find_fields : String → List (String × String)

-- A character before the first of the words.
abbrev push : String → List String → List String
push t [] = t ∷ []
push t (w ∷ ws) = (t <> w) ∷ ws

-- The text cut at every blank.
unfoldable pub cut_blanks : String → List String
cut_blanks String.[] = String.[] ∷ []
cut_blanks (String.◌∷◌ ch s) =
    let rest = cut_blanks s in
    if is_space ch then String.[] ∷ rest else push (String.◌∷◌ ch String.[]) rest

-- `" ".join(utterance.strip().split())`
unfoldable pub normalized : String → String
unfolding cut_blanks
normalized utterance = join " " (select truthy (cut_blanks (strip utterance)))

-- `part in text`
unfoldable pub has_text : String → String → Bool
has_text part String.[] = part == String.[]
has_text part (String.◌∷◌ ch s) = starts_with (String.◌∷◌ ch s) part || has_text part s

-- The forwarding of the identity, as its group gives it or as the text mentions it.
unfoldable pub with_forwarding : String → Option String → Fields → Result Fields
unfolding has_text
with_forwarding text (some fi) d = as_bool fi >>= λ b. ok (set d "forwardIdentity" (bool b))
with_forwarding text none d =
    if has_text "forward" (lower text) && has_text "identity" (lower text)
    then ok (set d "forwardIdentity" (bool true))
    else ok d

-- The description, unless its group is missing or empty.
unfoldable pub with_description : Option String → Fields → Fields
with_description none d = d
with_description (some text) d = if truthy text then set d "description" (str (strip text)) else d

-- The two parts of `peer`; without a slash the second index is out of range.
abbrev peer_parts : Option (String × String) → Result (String × String)
peer_parts none = err (lookup_error "list index out of range")
peer_parts (some parts) = ok parts

unfoldable pub add_proxy_intent : String → Bool → AddProxyMatch → Result NlIntent
unfolding with_forwarding with_description
add_proxy_intent text dry_run m = do
  parts ← peer_parts (split_once 47 m.peer)
  let peer = dict (("namespace", str parts.0) ∷ ("name", str parts.1) ∷ [])
  let source = dict (("type", str "VmcpProxy") ∷ ("peerGatewayRef", peer) ∷ [])
  d ← with_forwarding text m.fi (set end "source" source)
  gateway ← parse_gateway m.gateway
  ok (record {
    mutation = add;
    gateway = some gateway;
    name = some m.name;
    fields = some (with_description m.description d);
    dry_run = dry_run;
  })

abbrev optional_str : Option String → Value
optional_str none = null
optional_str (some s) = str s

-- The source from the group `url`, or from the group `image`.
unfoldable pub matched_source : AddMatch → Value
matched_source m =
    if truth (optional_str m.url)
    then dict (("type", str "RemoteHttp") ∷ ("url", optional_str m.url) ∷ [])
    else dict (("type", str "ContainerImage") ∷ ("image", optional_str m.image) ∷ [])

unfoldable pub add_intent : String → Bool → AddMatch → Result NlIntent
unfolding matched_source with_forwarding with_description
add_intent text dry_run m = do
  d ← with_forwarding text m.fi (set end "source" (matched_source m))
  gateway ← parse_gateway m.gateway
  ok (record {
    mutation = add;
    gateway = some gateway;
    name = some m.name;
    fields = some (with_description m.description d);
    dry_run = dry_run;
  })

unfoldable pub plain_intent :
    McpMutation → String → Option String → Option Fields → Bool → Result NlIntent
plain_intent mutation gateway name d dry_run = parse_gateway gateway >>= λ key.
    ok (record {
      mutation = mutation;
      gateway = some key;
      name = name;
      fields = d;
      dry_run = dry_run;
    })

module _ (p : Patterns) where
  -- The last two patterns, and the text that no pattern matches.
  unfoldable pub parse_reads : String → Bool → Result NlIntent
  unfolding plain_intent
  parse_reads text dry_run = elim (p.match_list text) [
    | some gateway ↦ plain_intent list gateway none none dry_run
    | none ↦ elim (p.match_get text) [
      | some m ↦ plain_intent ManageMcp.get m.gateway (some m.name) none dry_run
      | none ↦ err (
          value_error (
            "unrecognized NL CRUD utterance; expected add/remove/update/list/get mcp "
            <> "(or add … via vmcp-proxy …)"))
    ]
  ]

  unfoldable pub parse_update : String → Bool → UpdateMatch → Result NlIntent
  unfolding plain_intent
  parse_update text dry_run m = parse_fields (p.find_fields m.field_blob) >>= λ d.
      plain_intent update m.gateway (some m.name) (some d) dry_run

  -- The patterns behind those that add.
  unfoldable pub parse_changes : String → Bool → Result NlIntent
  unfolding plain_intent parse_update parse_reads
  parse_changes text dry_run = elim (p.match_remove text) [
    | some m ↦ plain_intent remove m.gateway (some m.name) none dry_run
    | none ↦ elim (p.match_update text) [
      | some m ↦ parse_update text dry_run m
      | none ↦ parse_reads text dry_run
    ]
  ]

  -- The patterns in the order in which they are tried.
  unfoldable pub parse_text : String → Bool → Result NlIntent
  unfolding add_proxy_intent add_intent parse_changes
  parse_text text dry_run = elim (p.match_add_proxy text) [
    | some m ↦ add_proxy_intent text dry_run m
    | none ↦ elim (p.match_add text) [
      | some m ↦ add_intent text dry_run m
      | none ↦ parse_changes text dry_run
    ]
  ]

  -- `NlCrud.parse`
  unfoldable pub parse : String → Bool → Result NlIntent
  unfolding normalized parse_text
  parse utterance dry_run = do
    let text = normalized utterance
    raise_if (not (truthy text)) (value_error "utterance must be non-empty")
    parse_text text dry_run
