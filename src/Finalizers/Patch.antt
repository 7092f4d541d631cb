-- ===== src/Finalizers/Patch.antt =====
-- python/vmcp_operator/adapters/driving/k8s/finalizer_patch.py. A transform acts on the list
-- `metadata.finalizers` of an object; an absent list is an empty one.
use vmcp_operator.Base.{
  String, not, ◌&&◌, ◌||◌, List, [], ◌∷◌, ◌++◌, ◌≡◌, ◌==◌, string_eq, if◌then◌else◌, contains,
  contains-append, contains-select, select, arith,
}

-- What `patch.fns` holds.
pub data Transform : Type 0 where
  ensure_finalizer : String → Transform
  drop_finalizer : String → Transform

-- A call of a transform.
unfoldable pub apply_fn : Transform → List String → List String
apply_fn (ensure_finalizer name) finalizers =
    if contains finalizers name then finalizers else finalizers ++ name ∷ []
apply_fn (drop_finalizer name) finalizers = select (λ item. not (item == name)) finalizers

-- `schedule_finalizer_adds`
unfoldable pub schedule_finalizer_adds : List Transform → List String → List Transform
schedule_finalizer_adds fns [] = fns
schedule_finalizer_adds fns (name ∷ names) =
    schedule_finalizer_adds (fns ++ ensure_finalizer name ∷ []) names

-- `schedule_finalizer_removes`
unfoldable pub schedule_finalizer_removes : List Transform → List String → List Transform
schedule_finalizer_removes fns [] = fns
schedule_finalizer_removes fns (name ∷ names) =
    schedule_finalizer_removes (fns ++ drop_finalizer name ∷ []) names

-- `apply_fns_to_body`
unfoldable pub apply_fns_to_body : List Transform → List String → List String
apply_fns_to_body [] finalizers = finalizers
apply_fns_to_body (fn ∷ fns) finalizers = apply_fns_to_body fns (apply_fn fn finalizers)

pub contains-ensure_finalizer :
    (name a : String) (fs : List String)
    → contains (apply_fn (ensure_finalizer name) fs) a ≡ (a == name || contains fs a)
unfolding apply_fn
contains-ensure_finalizer name a fs = ground (arith, contains-append fs (name ∷ []) a)

pub contains-drop_finalizer :
    (name a : String) (fs : List String)
    → contains (apply_fn (drop_finalizer name) fs) a ≡ (contains fs a && not (a == name))
unfolding apply_fn
contains-drop_finalizer name a fs = contains-select (λ item. not (item == name)) fs a
