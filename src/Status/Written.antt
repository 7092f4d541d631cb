-- ===== src/Status/Written.antt =====
-- What stands in the status after a pass.
use mathlib.Core.Path.{subst}
use text.Mathlib.TextEquality.{eq_iff}
use vmcp_operator.Base.{
  ◌≢◌, String-discrete, String, Bool, true, false, ◌||◌, Option, none, some, List, [], ◌∷◌, map,
  ◌==◌, string_eq, ◌≡◌, refl, sym, if◌then◌else◌, contains, arith,
}
use vmcp_operator.Json.{Value, num, str, arr, obj, list, items, cons, to_list, Fields, get, set}
use vmcp_operator.Json.Update.{get-set}
use vmcp_operator.Status.{
  Outcome, apply_status, conditions, condition, skew_condition, is_ready, text_or, set_some,
}

-- The value that a pass writes to a field, or what stood there when it writes none.
abbrev pub written {ℓ} : {A : Type ℓ} → (A → Value) → Option A → Option Value → Option Value
written f none before = before
written f (some a) before = some (f a)

get-set_some {ℓ} :
    {A : Type ℓ} (f : A → Value) (key j : String) (o : Option A) (d : Fields)
    → get (set_some f key o d) j ≡ (if j == key then written f o (get d j) else get d j)
get-set_some f key j none d = ground arith
get-set_some f key j (some a) d = get-set d key j (f a)

-- What a field of the status holds after a pass.
unfoldable pub expected : Outcome → String → Fields → String → Option Value
expected o now before key =
    if key == "phase"
    then some (str o.phase)
    else if key == "conditions"
    then some (list (conditions o now))
    else if key == "observedGeneration"
    then written num o.generation (get before key)
    else if key == "artifactSha256"
    then written str o.artifact_sha256 (get before key)
    else if key == "listenerPolicy"
    then written obj o.listener_policy (get before key)
    else if key == "crdSkew"
    then written (λ fs. list (map str fs)) o.crd_skew (get before key)
    else get before key

-- A field of the new status, step by step of the code.
get-steps :
    (o : Outcome) (now : String) (status : Fields) (key : String)
    → get (apply_status o now status) key ≡ (
        if key == "conditions"
        then some (list (conditions o now))
        else let v1 = if key == "phase" then some (str o.phase) else get status key in
          let v2 = if key == "observedGeneration" then written num o.generation v1 else v1 in
          let v3 = if key == "artifactSha256" then written str o.artifact_sha256 v2 else v2 in
          let v4 = if key == "listenerPolicy" then written obj o.listener_policy v3 else v3 in
          if key == "crdSkew" then written (λ fs. list (map str fs)) o.crd_skew v4 else v4)
unfolding apply_status
get-steps o now status key =
    rw
      (
        get-set
            (set_some (λ fs. list (map str fs)) "crdSkew" o.crd_skew
              (set_some obj "listenerPolicy" o.listener_policy (
                set_some str "artifactSha256" o.artifact_sha256 (
                  set_some num "observedGeneration" o.generation
                    (set status "phase" (str o.phase))))))
            "conditions" key (list (conditions o now)),
        get-set_some (λ fs. list (map str fs)) "crdSkew" key o.crd_skew
            (set_some obj "listenerPolicy" o.listener_policy (
              set_some str "artifactSha256" o.artifact_sha256 (
                set_some num "observedGeneration" o.generation
                  (set status "phase" (str o.phase))))),
        get-set_some obj "listenerPolicy" key o.listener_policy (
            set_some str "artifactSha256" o.artifact_sha256
              (set_some num "observedGeneration" o.generation (set status "phase" (str o.phase)))),
        get-set_some str "artifactSha256" key o.artifact_sha256
            (set_some num "observedGeneration" o.generation (set status "phase" (str o.phase))),
        get-set_some num "observedGeneration" key o.generation (set status "phase" (str o.phase)),
        get-set status "phase" key (str o.phase),
      )
      refl

unnamed_field :
    (o : Outcome) (now : String) (status : Fields) (key : String)
    → key ≢ "phase"
    → key ≢ "conditions"
    → key ≢ "observedGeneration"
    → key ≢ "artifactSha256"
    → key ≢ "listenerPolicy"
    → key ≢ "crdSkew"
    → get (apply_status o now status) key ≡ expected o now status key
unfolding expected
unnamed_field o now status key n1 n2 n3 n4 n5 n6 = ground (arith, get-steps o now status key)

pub get-apply_status_field :
    (o : Outcome) (now : String) (status : Fields) (key : String)
    → get (apply_status o now status) key ≡ expected o now status key
unfolding expected string_eq
get-apply_status_field o now status key = elim (String-discrete key "phase") [
  | yes p ↦ rw p (get-steps o now status "phase")
  | no n1 ↦ elim (String-discrete key "conditions") [
    | yes p ↦ rw p (get-steps o now status "conditions")
    | no n2 ↦ elim (String-discrete key "observedGeneration") [
      | yes p ↦ rw p (get-steps o now status "observedGeneration")
      | no n3 ↦ elim (String-discrete key "artifactSha256") [
        | yes p ↦ rw p (get-steps o now status "artifactSha256")
        | no n4 ↦ elim (String-discrete key "listenerPolicy") [
          | yes p ↦ rw p (get-steps o now status "listenerPolicy")
          | no n5 ↦ elim (String-discrete key "crdSkew") [
            | yes p ↦ rw p (get-steps o now status "crdSkew")
            | no n6 ↦ unnamed_field o now status key n1 n2 n3 n4 n5 n6
          ]
        ]
      ]
    ]
  ]
]

conditions-apply_status :
    (o : Outcome) (now : String) (status : Fields)
    → get (apply_status o now status) "conditions" ≡ some (list (conditions o now))
unfolding expected string_eq
conditions-apply_status o now status = get-apply_status_field o now status "conditions"

-- The field of a condition.
abbrev pub member : Value → String → Option Value
member (obj d) key = get d key
member v key = none

abbrev pub status_text : Bool → Value
status_text true = str "True"
status_text false = str "False"

-- The condition has the type, tells the truth value, and was set now.
abbrev pub Says : Value → String → Bool → String → Type 0
Says c type holds now =
    (member c "type" ≡ some (str type))
    × (member c "status" ≡ some (status_text holds))
    × (member c "lastTransitionTime" ≡ some (str now))

-- What the caller says of readiness, or else whether the phase is one of the three good ones.
abbrev pub should_be_ready : Option Bool → String → Bool
should_be_ready (some ready) phase = ready
should_be_ready none phase = phase == "Applied" || phase == "Registered" || phase == "Finalized"

abbrev pub no_skew : List String → Bool
no_skew [] = true
no_skew (f ∷ fs) = false

-- What is said of the schema: nothing without a comparison, and else one condition, which holds
-- exactly if no field is missing.
abbrev pub SaysSchema : Option (List String) → String → List Value → Type 0
SaysSchema none now [] = Unit
SaysSchema (some skew) now (c ∷ []) = Says c "CRDsReady" (no_skew skew) now
SaysSchema _ now _ = ⊥

-- A list of conditions that reports the outcome: its readiness, and then the schema.
abbrev pub Reports : Outcome → String → Option Value → Type 0
Reports o now (some (arr (cons ready rest))) =
    Says ready "Ready" (should_be_ready o.ready o.phase) now
    × SaysSchema o.crd_skew now (to_list rest)
Reports o now _ = ⊥

condition-Says :
    (type : String) (holds : Bool) (reason message now : String)
    → Says (condition type holds reason message now) type holds now
unfolding string_eq
condition-Says type true reason message now = (refl, refl, refl)
condition-Says type false reason message now = (refl, refl, refl)

is_ready-should_be_ready : (o : Outcome) → is_ready o ≡ should_be_ready o.ready o.phase
unfolding is_ready
is_ready-should_be_ready o = go o.ready
  where
    go :
        (ready : Option Bool)
        → (elim ready [
          | some ready ↦ ready
          | none ↦ contains ("Applied" ∷ "Registered" ∷ "Finalized" ∷ []) o.phase
        ])
          ≡ should_be_ready ready o.phase
    go (some ready) = refl
    go none = ground (
      arith,
      eq_iff "Applied" o.phase,
      eq_iff o.phase "Applied",
      eq_iff "Registered" o.phase,
      eq_iff o.phase "Registered",
      eq_iff "Finalized" o.phase,
      eq_iff o.phase "Finalized",
    )

skew_condition-SaysSchema :
    (skew : Option (List String)) (now : String)
    → SaysSchema skew now (to_list (items (skew_condition skew now)))
unfolding skew_condition
skew_condition-SaysSchema none now = tt
skew_condition-SaysSchema (some []) now = condition-Says "CRDsReady" true _ _ now
skew_condition-SaysSchema (some (f ∷ fs)) now = condition-Says "CRDsReady" false _ _ now

conditions-Reports : (o : Outcome) (now : String) → Reports o now (some (list (conditions o now)))
unfolding conditions
conditions-Reports o now = (
  subst
      (λ b.
        Says
          (condition "Ready" (is_ready o) (text_or o.reason o.phase) (text_or o.message o.phase)
            now)
          "Ready" b now)
      (is_ready-should_be_ready o) (condition-Says "Ready" (is_ready o) _ _ now),
  skew_condition-SaysSchema o.crd_skew now,
)

-- After a pass the status has the phase of the outcome, whatever stood there; the generation, the
-- checksum, the listener policy and the skew are the outcome's where it has them, and as before
-- otherwise; and every other field but the conditions is as before. The conditions are "Ready",
-- true if the caller says so, or says nothing and the phase is Applied, Registered or Finalized,
-- and then, if the skew is given, "CRDsReady", true if it is empty; both have the time of the pass.
pub get-apply_status :
    (o : Outcome) (now : String) (status : Fields) (key : String)
    → Reports o now (get (apply_status o now status) "conditions")
      × (get (apply_status o now status) key ≡ expected o now status key)
get-apply_status o now status key = (
  subst (Reports o now) (sym (conditions-apply_status o now status)) (conditions-Reports o now),
  get-apply_status_field o now status key,
)
