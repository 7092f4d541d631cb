-- ===== src/Status.antt =====
-- python/vmcp_operator/adapters/driving/k8s/status_patch.py: what a pass writes to the status of an
-- object. The patch is the mapping `patch.status`; the clock's text is an argument.
pub mod Written
use vmcp_operator.Base.{
  String, ◌<>◌, Bool, true, false, not, ◌||◌, Option, none, some, List, [], ◌∷◌, ◌++◌, map, ◌==◌,
  string_eq, if◌then◌else◌, truthy, join, contains, Result, ok, ◌>>=◌,
}
use vmcp_operator.Base.Integer.{ℤ, pos}
use vmcp_operator.Json.{Value, null, num, str, obj, list, dict, Fields, end, field, get, set}
use vmcp_operator.Json.Access.{truth, or_value, to_int, get_of}

-- The arguments of `apply_status` that describe the outcome of a pass.
pub record Outcome : Type 0 where
  pub phase : String
  pub generation : Option ℤ
  pub artifact_sha256 : Option String
  pub reason : Option String
  pub message : Option String
  pub ready : Option Bool
  pub listener_policy : Option Fields
  pub crd_skew : Option (List String)

-- `if x is not None: status[key] = ...`
abbrev pub set_some {ℓ} : {A : Type ℓ} → (A → Value) → String → Option A → Fields → Fields
set_some f key none status = status
set_some f key (some a) status = set status key (f a)

-- `text or default`
abbrev pub text_or : Option String → String → String
text_or none default = default
text_or (some text) default = if truthy text then text else default

-- `ready`, by default from the phase
unfoldable pub is_ready : Outcome → Bool
is_ready o = elim o.ready [
  | some ready ↦ ready
  | none ↦ contains ("Applied" ∷ "Registered" ∷ "Finalized" ∷ []) o.phase
]

abbrev pub condition : String → Bool → String → String → String → Value
condition type status reason message now = dict (
    ("type", str type)
    ∷ ("status", str (if status then "True" else "False"))
    ∷ ("reason", str reason)
    ∷ ("message", str message)
    ∷ ("lastTransitionTime", str now)
    ∷ [])

-- The condition `CRDsReady`, where the skew is given.
unfoldable pub skew_condition : Option (List String) → String → List Value
unfolding join
skew_condition none now = []
skew_condition (some []) now =
    condition "CRDsReady" true "Current" "VmcpGateway CRD matches this operator image" now ∷ []
skew_condition (some (f ∷ fs)) now =
    condition "CRDsReady" false "SchemaSkew" ("API will prune: " <> join ", " (f ∷ fs)) now ∷ []

unfoldable pub conditions : Outcome → String → List Value
unfolding skew_condition is_ready
conditions o now =
    condition "Ready" (is_ready o) (text_or o.reason o.phase) (text_or o.message o.phase) now
    ∷ skew_condition o.crd_skew now

-- `apply_status`
unfoldable pub apply_status : Outcome → String → Fields → Fields
unfolding conditions set
apply_status o now status =
    let with_phase = set status "phase" (str o.phase) in
    let with_generation = set_some num "observedGeneration" o.generation with_phase in
    let with_artifact = set_some str "artifactSha256" o.artifact_sha256 with_generation in
    let with_policy = set_some obj "listenerPolicy" o.listener_policy with_artifact in
    let with_skew = set_some (λ fs. list (map str fs)) "crdSkew" o.crd_skew with_policy in
    set with_skew "conditions" (list (conditions o now))

-- `int(v)` where `v` is not None
unfoldable pub int_or : Option Value → Result ℤ → Result ℤ
int_or none default = default
int_or (some null) default = default
int_or (some v) default = to_int v

unfoldable pub nested_generation : Option Fields → Result ℤ
unfolding int_or
nested_generation none = ok (pos 0)
nested_generation (some end) = ok (pos 0)
nested_generation (some (field k v d)) =
    get_of (or_value (get (field k v d) "metadata") (obj end)) "generation" >>= λ nested.
    int_or nested (ok (pos 0))

-- `generation_of`
unfoldable pub generation_of : Option Fields → Option Fields → Result ℤ
unfolding int_or nested_generation
generation_of none body = nested_generation body
generation_of (some meta) body = int_or (get meta "generation") (nested_generation body)
