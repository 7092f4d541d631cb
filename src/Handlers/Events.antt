-- ===== src/Handlers/Events.antt =====
-- What a handler reads from an event, and what it writes to the patch.
use vmcp_operator.Base.{
  ℕ, String, Bool, true, false, Option, none, some, List, [], ◌∷◌, if◌then◌else◌, truthy, Error,
  key_error, type_error, value_error, Result, ok, ◌>>=◌,
}
use vmcp_operator.Base.Integer.{ℤ}
use vmcp_operator.Base.Exec.{Exec}
use vmcp_operator.Json.{Value, null, str, Fields, end, get, dict, fields, list}
use vmcp_operator.Json.Access.{truth, or_value, or_default, to_iter, repr_str}
use vmcp_operator.Status.{Outcome, apply_status}
use vmcp_operator.Finalizers.Patch.{schedule_finalizer_adds, schedule_finalizer_removes}
use vmcp_operator.Mapping.Values.{fields_of, section}
use vmcp_operator.Immutable.{
  ImmutableViolation, reason, message, check_gateway_immutables, check_mcp_immutables,
}
use vmcp_operator.Handlers.Runtime.{Operator}

-- The arguments of a handler.
pub record Event : Type 0 where
  pub namespace : String
  pub name : String
  pub spec : Fields
  pub meta : Fields
  pub body : Option Fields
  pub old : Option Fields

-- `old["spec"]`, if it is there.
unfoldable pub old_spec : Option Fields → Result (Option Fields)
old_spec none = ok none
old_spec (some old) = elim (get old "spec") [
  | none ↦ ok none
  | some v ↦ fields_of v >>= λ d. ok (some d)
]

-- `violations`: none where there is no old spec.
unfoldable pub gateway_violations :
    (String → ℕ → Result ℤ) → Event → Result (List ImmutableViolation)
unfolding old_spec
gateway_violations scaled event = old_spec event.old >>= λ old. elim old [
  | none ↦ ok []
  | some spec ↦ check_gateway_immutables scaled spec event.spec
]

unfoldable pub mcp_violations : Event → Result (List ImmutableViolation)
unfolding old_spec
mcp_violations event = old_spec event.old >>= λ old. elim old [
  | none ↦ ok []
  | some spec ↦ ok (check_mcp_immutables spec event.spec)
]

-- `bool(meta.get("deletionTimestamp"))`
abbrev pub is_deleting : Event → Bool
is_deleting event = truth (or_default (get event.meta "deletionTimestamp") null)

-- The texts of a list; the finalizers of an object are texts.
abbrev pub texts : List Value → List String
texts [] = []
texts (str s ∷ vs) = s ∷ texts vs
texts (v ∷ vs) = texts vs

-- `tuple(meta.get("finalizers") or [])`
unfoldable pub finalizers_of : Event → Result (List String)
finalizers_of event =
    to_iter (or_value (get event.meta "finalizers") (list [])) >>= λ vs. ok (texts vs)

-- `(body or {}).get("metadata") or {}`
unfoldable pub body_metadata : Option Fields → Result Fields
body_metadata none = ok end
body_metadata (some body) = section body "metadata"

-- The dict that `_owner_body` returns.
abbrev pub owner_of : String → Event → Value → Option Fields
owner_of kind event uid =
    if truth uid
    then some (
        fields (
          ("apiVersion", str "vmcp.io/v1alpha1")
          ∷ ("kind", str kind)
          ∷ (
            "metadata",
            dict
                (("name", str event.name) ∷ ("namespace", str event.namespace) ∷ ("uid", uid) ∷ []),
          )
          ∷ []))
    else none

-- `_owner_body`
unfoldable pub owner_body : String → Event → Result (Option Fields)
unfolding body_metadata
owner_body kind event =
    let uid = or_default (get event.meta "uid") null in
    let nested = body_metadata event.body in
    if truth uid
    then ok (owner_of kind event uid)
    else nested >>= (λ meta. ok (owner_of kind event (or_default (get meta "uid") null)))

-- `except (KeyError, TypeError, ValueError)`: the class and the text of an exception that is caught.
abbrev pub caught : Error → Option (String × String)
caught (key_error key) = some ("KeyError", repr_str key)
caught (type_error text) = some ("TypeError", text)
caught (value_error text) = some ("ValueError", text)
caught _ = none

-- `str(exc) or exc.__class__.__name__`
abbrev pub exception_text : String × String → String
exception_text (name, text) = if truthy text then text else name

abbrev pub not_empty : List String → Bool
not_empty [] = false
not_empty (s ∷ ss) = true

-- The arguments of `_status` that all calls give.
abbrev pub outcome : String → ℤ → String → String → Bool → Outcome
outcome phase generation why text ready = record {
  phase = phase;
  generation = some generation;
  artifact_sha256 = none;
  reason = some why;
  message = some text;
  ready = some ready;
  listener_policy = none;
  crd_skew = none;
}

-- What `_status` writes for a spec that is refused.
abbrev pub immutable_outcome : ℤ → ImmutableViolation → Outcome
immutable_outcome generation v = outcome "Invalid" generation (reason v) (message v) false

abbrev pub invalid_outcome : ℤ → String × String → Outcome
invalid_outcome generation exception =
    outcome "Invalid" generation "InvalidSpec" (exception_text exception) false

-- `decision.reason or "blocked"`
abbrev pub blocked_text : Option String → String
blocked_text none = "blocked"
blocked_text (some why) = if truthy why then why else "blocked"

abbrev pub blocked_outcome : ℤ → Option String → Outcome
blocked_outcome generation why =
    outcome "Deleting" generation (blocked_text why) (blocked_text why) false

module _ {S : Type 0} where
  -- `_status`, with the schema skew that was found at the start and the text of the clock.
  unfoldable pub set_status : List String → String → Outcome → Exec (Operator S) (Unit {0})
  set_status crd_skew now o s = (
    ok tt,
    record s { status = apply_status (record o { crd_skew = some crd_skew }) now s.status },
  )

  -- `schedule_finalizer_adds(patch, …)` and `schedule_finalizer_removes(patch, …)`
  unfoldable pub add_finalizers : List String → Exec (Operator S) (Unit {0})
  add_finalizers names s = (ok tt, record s { fns = schedule_finalizer_adds s.fns names })

  unfoldable pub remove_finalizers : List String → Exec (Operator S) (Unit {0})
  remove_finalizers names s = (ok tt, record s { fns = schedule_finalizer_removes s.fns names })
