-- ===== src/Rollout.antt =====
-- python/vmcp_operator/domain/usecases/connection_strategy.py: an upstream whose URL does not
-- change is removed, its workload rolled, and then added again.
pub mod Cycle
use vmcp_operator.Base.{
  String, Bool, true, false, not, ◌||◌, List, [], ◌∷◌, select, contains, to_set, truthy, string_eq,
  if◌then◌else◌,
}
use vmcp_operator.Base.Sorting.{sort}
use vmcp_operator.ManageMcp.Patch.{is_empty}

pub data ConnectionPhase : Type 0 where
  stable remove wait_workload add : ConnectionPhase

pub record ConnectionPlan : Type 0 where
  pub phase : ConnectionPhase
  pub remove_names : List String
  pub add_names : List String
  pub reload_after_remove : Bool
  pub reload_after_add : Bool

abbrev pub stable_plan : ConnectionPlan
stable_plan = record {
  phase = stable;
  remove_names = [];
  add_names = [];
  reload_after_remove = false;
  reload_after_add = false;
}

-- `sorted({name for name in rolled_names if name})`
unfoldable pub rollout_names : List String → List String
rollout_names rolled = sort (to_set (select truthy rolled))

-- `McpConnectionStrategy.plan_rollout`
unfoldable pub plan_rollout : List String → Bool → ConnectionPlan
plan_rollout rolled_names service_url_unchanged =
    let names = rollout_names rolled_names in
    if is_empty names || not service_url_unchanged then stable_plan else record {
      phase = remove;
      remove_names = names;
      add_names = names;
      reload_after_remove = true;
      reload_after_add = true;
    }

after_remove : ConnectionPhase → ConnectionPlan → ConnectionPlan
after_remove remove plan = record plan { phase = wait_workload; reload_after_remove = false }
after_remove _ plan = plan

-- `next_after_remove`
unfoldable pub next_after_remove : ConnectionPlan → ConnectionPlan
unfolding after_remove
next_after_remove plan = after_remove plan.phase plan

after_workload_ready : ConnectionPhase → ConnectionPlan → ConnectionPlan
after_workload_ready wait_workload plan = record {
  phase = add;
  remove_names = [];
  add_names = plan.add_names;
  reload_after_remove = false;
  reload_after_add = true;
}
after_workload_ready _ plan = plan

-- `next_after_workload_ready`
unfoldable pub next_after_workload_ready : ConnectionPlan → ConnectionPlan
unfolding after_workload_ready
next_after_workload_ready plan = after_workload_ready plan.phase plan

after_add : ConnectionPhase → ConnectionPlan → ConnectionPlan
after_add add plan = stable_plan
after_add _ plan = plan

-- `next_after_add`
unfoldable pub next_after_add : ConnectionPlan → ConnectionPlan
unfolding after_add
next_after_add plan = after_add plan.phase plan

-- `filter_registry_names`
unfoldable pub filter_registry_names : List String → List String → List String
filter_registry_names desired_names temporarily_removed =
    select (λ name. not (contains temporarily_removed name)) desired_names
