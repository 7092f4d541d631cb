-- ===== src/Rollout/Cycle.antt =====
-- The cycle of a rollout, under any order of events.
use vmcp_operator.Base.{
  String, Bool, true, false, not, ◌&&◌, ◌||◌, List, [], ◌∷◌, ◌≡◌, refl, sym, ap, select, any,
  contains, to_set, truthy, string_eq, arith, contains-select, contains-to_set, ◌∙◌, if◌then◌else◌,
}
use vmcp_operator.Base.Sorting.{sort, sort_by, contains-sort, any-sort_by}
use vmcp_operator.Rollout.{
  stable, remove, wait_workload, add, ConnectionPlan, rollout_names, plan_rollout,
  next_after_remove, next_after_workload_ready, next_after_add, stable_plan,
}
use vmcp_operator.ManageMcp.Patch.{is_empty}

pub data Event : Type 0 where
  removed workload_ready added : Event

unfoldable pub next : Event → ConnectionPlan → ConnectionPlan
next removed p = next_after_remove p
next workload_ready p = next_after_workload_ready p
next added p = next_after_add p

unfoldable pub run : List Event → ConnectionPlan → ConnectionPlan
run [] p = p
run (e ∷ es) p = run es (next e p)

-- The events that a rollout awaits, in order.
abbrev pub cycle : List Event
cycle = removed ∷ workload_ready ∷ added ∷ []

abbrev same : Event → Event → Bool
same removed removed = true
same workload_ready workload_ready = true
same added added = true
same _ _ = false

-- An event counts if it is the one that is awaited now.
unfoldable pub await : Event → List Event → List Event
await e [] = []
await e (w ∷ ws) = if same e w then ws else w ∷ ws

-- What is still awaited after some events.
unfoldable pub awaited : List Event → List Event → List Event
unfolding await
awaited [] ws = ws
awaited (e ∷ es) ws = awaited es (await e ws)

-- The plan of a rollout of the names, from what it still awaits: the names to remove until the
-- workload is ready, and to add until they are added, with the reloads that are still due.
abbrev pub plan_of : List String → List Event → ConnectionPlan
plan_of names [] = record {
  phase = stable;
  remove_names = [];
  add_names = [];
  reload_after_remove = false;
  reload_after_add = false;
}
plan_of names (added ∷ ws) = record {
  phase = add;
  remove_names = [];
  add_names = names;
  reload_after_remove = false;
  reload_after_add = true;
}
plan_of names (workload_ready ∷ ws) = record {
  phase = wait_workload;
  remove_names = names;
  add_names = names;
  reload_after_remove = false;
  reload_after_add = true;
}
plan_of names (removed ∷ ws) = record {
  phase = remove;
  remove_names = names;
  add_names = names;
  reload_after_remove = true;
  reload_after_add = true;
}

-- What can be left of the cycle.
data IsRest : List Event → Type 0 where
  all_left : IsRest cycle
  two_left : IsRest (workload_ready ∷ added ∷ [])
  one_left : IsRest (added ∷ [])
  none_left : IsRest []

await-IsRest : (e : Event) (ws : List Event) → IsRest ws → IsRest (await e ws)
unfolding await
await-IsRest removed _ all_left = two_left
await-IsRest workload_ready _ all_left = all_left
await-IsRest added _ all_left = all_left
await-IsRest removed _ two_left = two_left
await-IsRest workload_ready _ two_left = one_left
await-IsRest added _ two_left = two_left
await-IsRest removed _ one_left = one_left
await-IsRest workload_ready _ one_left = one_left
await-IsRest added _ one_left = none_left
await-IsRest e _ none_left = none_left

next-plan_of :
    (names : List String) (e : Event) (ws : List Event)
    → IsRest ws
    → next e (plan_of names ws) ≡ plan_of names (await e ws)
unfolding next next_after_remove next_after_workload_ready next_after_add await
next-plan_of names removed _ all_left = refl
next-plan_of names workload_ready _ all_left = refl
next-plan_of names added _ all_left = refl
next-plan_of names removed _ two_left = refl
next-plan_of names workload_ready _ two_left = refl
next-plan_of names added _ two_left = refl
next-plan_of names removed _ one_left = refl
next-plan_of names workload_ready _ one_left = refl
next-plan_of names added _ one_left = refl
next-plan_of names removed _ none_left = refl
next-plan_of names workload_ready _ none_left = refl
next-plan_of names added _ none_left = refl

run-plan_of :
    (names : List String) (es ws : List Event)
    → IsRest ws
    → run es (plan_of names ws) ≡ plan_of names (awaited es ws)
unfolding run awaited
run-plan_of names [] ws r = refl
run-plan_of names (e ∷ es) ws r =
    ap (run es) (next-plan_of names e ws r)
    ∙ run-plan_of names es (await e ws) (await-IsRest e ws r)

is_empty-any {ℓ} : {A : Type ℓ} (xs : List A) → is_empty xs ≡ not (any (λ x. true) xs)
is_empty-any [] = refl
is_empty-any (x ∷ xs) = refl

is_empty-to_set : (xs : List String) → is_empty (to_set xs) ≡ is_empty xs
unfolding to_set
is_empty-to_set [] = refl
is_empty-to_set (x ∷ []) = refl
is_empty-to_set (x ∷ y ∷ ys) = ground (arith, is_empty-to_set (y ∷ ys))

is_empty-select : (p : String → Bool) (xs : List String) → is_empty (select p xs) ≡ not (any p xs)
is_empty-select p [] = refl
is_empty-select p (x ∷ xs) = ground (arith, is_empty-select p xs)

is_empty-rollout_names :
    (rolled : List String) → is_empty (rollout_names rolled) ≡ not (any truthy rolled)
unfolding rollout_names sort
is_empty-rollout_names rolled =
    is_empty-any (sort_by (λ s. s) (to_set (select truthy rolled)))
    ∙ ap not (any-sort_by (λ s. s) (λ x. true) (to_set (select truthy rolled)))
    ∙ sym (is_empty-any (to_set (select truthy rolled)))
    ∙ is_empty-to_set (select truthy rolled)
    ∙ is_empty-select truthy rolled

-- The names of a rollout are those given, less the empty one.
pub contains-rollout_names :
    (rolled : List String) (a : String)
    → contains (rollout_names rolled) a ≡ (contains rolled a && truthy a)
unfolding rollout_names
contains-rollout_names rolled a =
    contains-sort (to_set (select truthy rolled)) a
    ∙ (contains-to_set (select truthy rolled) a ∙ contains-select truthy rolled a)

plan_rollout-plan_of :
    (rolled : List String) (unchanged : Bool)
    → plan_rollout rolled unchanged
      ≡ plan_of (rollout_names rolled) (if unchanged && any truthy rolled then cycle else [])
unfolding plan_rollout
plan_rollout-plan_of rolled unchanged =
    rw (is_empty-rollout_names rolled) (go unchanged (any truthy rolled))
  where
    go :
        (b c : Bool)
        → (if not c || not b then stable_plan else record {
          phase = remove;
          remove_names = rollout_names rolled;
          add_names = rollout_names rolled;
          reload_after_remove = true;
          reload_after_add = true;
        })
          ≡ plan_of (rollout_names rolled) (if b && c then cycle else [])
    go true true = refl
    go true false = refl
    go false true = refl
    go false false = refl

start-IsRest : (b : Bool) → IsRest (if b then cycle else [])
start-IsRest true = all_left
start-IsRest false = none_left

-- A rollout follows a cycle of three events: its plan after any events, in any order, is told by
-- what is still awaited of the removal, the workload and the addition, where an event counts only
-- if it is the next one awaited. Nothing is awaited from the start, and the plan is stable, exactly
-- if the URL changes or no name is given that is not empty. The names to remove and to add are
-- those given, less the empty one.
pub run-plan_rollout :
    (rolled : List String) (unchanged : Bool) (es : List Event) (a : String)
    → (run es (plan_rollout rolled unchanged)
        ≡ plan_of
            (rollout_names rolled)
            (awaited es (if unchanged && any truthy rolled then cycle else [])))
      × (contains (rollout_names rolled) a ≡ (contains rolled a && truthy a))
run-plan_rollout rolled unchanged es a = (
  ap (run es) (plan_rollout-plan_of rolled unchanged)
      ∙ run-plan_of (rollout_names rolled) es _ (start-IsRest (unchanged && any truthy rolled)),
  contains-rollout_names rolled a,
)
