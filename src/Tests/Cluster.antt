-- ===== src/Tests/Cluster.antt =====
-- What the operator does to the objects of a cluster.
use vmcp_operator.Base.{
  ℕ, zero, ◌+◌, String, ◌<>◌, Bool, true, false, not, ◌&&◌, ◌||◌, Option, none, some, List, [], ◌∷◌,
  ◌++◌, map, ◌≡◌, ◌≢◌, ◌↔◌, refl, ok, err, Error, conflict_error, value_error, contains, string_eq,
  NoDuplicates, if◌then◌else◌, ltb, ◌==◌, lookup_error, arith,
}
use vmcp_operator.Base.Dict.{Dict, lookup}
use vmcp_operator.Base.Sorting.{sort_by}
use vmcp_operator.Base.Integer.{pos}
use vmcp_operator.Json.{Value, str, null, obj, Fields, end, field, dict, list, fields, get}
use vmcp_operator.Models.Gateway.{gateway_key_eq}
use vmcp_operator.Finalizers.{plan_gateway_finalizer, gateway_finalizer}
use vmcp_operator.Finalizers.Lifecycle.{deliver, Leaves, deliver-plan_gateway_finalizer}
use vmcp_operator.Apply.{ServerSideApply, apply, InMemoryApplier, in_memory_applier}
use vmcp_operator.Apply.Retries.{apply-in_memory_applier}
use vmcp_operator.Rollout.{rollout_names, plan_rollout}
use vmcp_operator.Rollout.Cycle.{
  removed, workload_ready, added, cycle, awaited, plan_of, run, run-plan_rollout,
}
use vmcp_operator.Skills.{SkillFile, SkillsSyncPlan, plan_skills_sync}
use vmcp_operator.Skills.Partition.{
  names_of, AllManaged, plan_skills_sync-eq-ok_iff, plan_skills_sync_partition,
}
use vmcp_operator.Artifacts.{upstreams, enabled_mcps}
use vmcp_operator.Artifacts.Upstreams.{ListsAll, upstreams-ListsAll}
use vmcp_operator.Status.{Outcome, apply_status}
use vmcp_operator.Status.Written.{expected, Reports, get-apply_status}
use vmcp_operator.RouteStatus.{
  RouteCondition, RouteStatusSummary, parse_route_conditions, summarize_route_status,
}
use vmcp_operator.RouteStatus.Last.{FollowsLast, summary-FollowsLast}
use vmcp_operator.Ownership.{attach_owner}
use vmcp_operator.Ownership.Idempotence.{attach_owner_twice}
use vmcp_operator.Base.{All, any}
use vmcp_operator.CrdCompat.{missing_fields}
use vmcp_operator.Base.{◌==◌, if◌then◌else◌}
use vmcp_operator.Json.{obj}
use vmcp_operator.Reconcile.{materialize_attachment}
use vmcp_operator.Reconcile.Placed.{materialize_attachment-eq-ok}
use vmcp_operator.Tests.Fixtures.{gateway, docs}

deliver-plan_gateway_finalizer_example :
    Leaves gateway_finalizer
      (not true || (contains ("other" ∷ gateway_finalizer ∷ []) gateway_finalizer && ltb 0 0))
      ("other" ∷ gateway_finalizer ∷ [])
      (deliver
        (plan_gateway_finalizer ("other" ∷ gateway_finalizer ∷ []) true 0)
        ("other" ∷ gateway_finalizer ∷ []))
deliver-plan_gateway_finalizer_example =
    deliver-plan_gateway_finalizer ("other" ∷ gateway_finalizer ∷ []) true 0

abbrev cluster : InMemoryApplier
cluster = record { conflicts_before_success = 2; applied = []; seen = 0 }

abbrev client : ServerSideApply
client = record { applier = in_memory_applier; field_manager = "vmcp-operator"; max_attempts = 5 }

apply-in_memory_applier_example : apply client null cluster ≡ (
    if ltb 2 5
    then (
      ok null,
      record cluster { applied = [] ++ (null, "vmcp-operator") ∷ []; seen = 0 + 2 + 1 },
    )
    else (err (conflict_error "conflict"), record cluster { seen = 0 + 5 }))
apply-in_memory_applier_example =
    apply-in_memory_applier "vmcp-operator" 5 2 null cluster (omega arith) (omega arith)

run-plan_rollout_example :
    (run (removed ∷ added ∷ workload_ready ∷ []) (plan_rollout ("docs" ∷ []) true)
      ≡ plan_of
          (rollout_names ("docs" ∷ []))
          (awaited (removed ∷ added ∷ workload_ready ∷ []) cycle))
    × (contains (rollout_names ("docs" ∷ [])) "docs"
        ≡ (contains {A = String} ("docs" ∷ []) "docs" && true))
unfolding string_eq
run-plan_rollout_example =
    run-plan_rollout ("docs" ∷ []) true (removed ∷ added ∷ workload_ready ∷ []) "docs"

abbrev skill : SkillFile
skill = record { name = "a"; content = "text"; managed = true }

abbrev skill_plan : SkillsSyncPlan
skill_plan = record { write = skill ∷ []; delete = "old" ∷ []; keep = "mine" ∷ [] }

skills_run :
    plan_skills_sync (skill ∷ []) ("a" ∷ "old" ∷ "mine" ∷ []) ("a" ∷ "old" ∷ []) ≡ ok skill_plan
unfolding plan_skills_sync vmcp_operator.Base.Dict.insert vmcp_operator.Skills.pick_all
    vmcp_operator.Base.Sorting.sort lookup string_eq vmcp_operator.Base.to_set
skills_run = refl

plan_skills_sync_partition_example :
    (contains {A = String} (names_of skill_plan.write) "old"
      ≡ contains {A = String} (names_of (skill ∷ [])) "old")
    × (contains {A = String} skill_plan.delete "old" ≡ (
        contains {A = String} ("a" ∷ "old" ∷ "mine" ∷ []) "old"
        && contains {A = String} ("a" ∷ "old" ∷ []) "old"
        && not (contains {A = String} (names_of (skill ∷ [])) "old")))
    × (contains {A = String} skill_plan.keep "old" ≡ (
        contains {A = String} ("a" ∷ "old" ∷ "mine" ∷ []) "old"
        && not (contains {A = String} ("a" ∷ "old" ∷ []) "old")
        && not (contains {A = String} (names_of (skill ∷ [])) "old")))
plan_skills_sync_partition_example =
    plan_skills_sync_partition (skill ∷ []) ("a" ∷ "old" ∷ "mine" ∷ []) ("a" ∷ "old" ∷ [])
      skill_plan "old" skills_run

plan_skills_sync-eq-ok_iff_example :
    ((plan : SkillsSyncPlan) × (plan_skills_sync (skill ∷ []) [] [] ≡ ok plan))
    ↔ (NoDuplicates (names_of (skill ∷ [])) × AllManaged (skill ∷ []))
plan_skills_sync-eq-ok_iff_example = plan_skills_sync-eq-ok_iff (skill ∷ []) [] []

upstreams-ListsAll_example :
    ListsAll gateway
      (sort_by (λ m. m.name) (enabled_mcps gateway (docs ∷ [])))
      (upstreams gateway (docs ∷ []))
    × (any (λ m. m.forward_identity) (enabled_mcps gateway (docs ∷ []))
        ≡ any (λ m. m.enabled && m.gateway_key == gateway.key && m.forward_identity) (docs ∷ []))
upstreams-ListsAll_example = upstreams-ListsAll gateway (docs ∷ []) (λ m. m.forward_identity)

abbrev outcome : Outcome
outcome = record {
  phase = "Applied";
  generation = some (pos 3);
  artifact_sha256 = none;
  reason = none;
  message = none;
  ready = some true;
  listener_policy = none;
  crd_skew = some [];
}

abbrev old_status : Fields
old_status = field "artifactSha256" (str "abc") end

get-apply_status_example :
    Reports outcome "now" (get (apply_status outcome "now" old_status) "conditions")
    × (get (apply_status outcome "now" old_status) "artifactSha256"
        ≡ expected outcome "now" old_status "artifactSha256")
get-apply_status_example = get-apply_status outcome "now" old_status "artifactSha256"

abbrev route_status : Fields
route_status =
    field "conditions" (list (dict (("type", str "Accepted") ∷ ("status", str "True") ∷ []) ∷ []))
      end

abbrev accepted : RouteCondition
accepted = record { type = "Accepted"; status = "True"; reason = ""; message = "" }

conditions_run : parse_route_conditions (some route_status) ≡ ok (accepted ∷ [])
unfolding parse_route_conditions vmcp_operator.Json.Access.to_iter string_eq
conditions_run = refl

summary-FollowsLast_example :
    (s : RouteStatusSummary) × (summarize_route_status "r" (some route_status) ≡ ok s)
    × FollowsLast s (accepted ∷ [])
summary-FollowsLast_example =
    summary-FollowsLast "r" (some route_status) (accepted ∷ []) conditions_run

abbrev owner : Fields
owner = fields (
    ("apiVersion", str "vmcp.io/v1alpha1")
    ∷ ("kind", str "VmcpGateway")
    ∷ ("metadata", dict (("name", str "prod") ∷ ("uid", str "u1") ∷ []))
    ∷ [])

abbrev owned_object : Fields
owned_object =
    field "metadata"
      (dict (
        (
          "ownerReferences",
          list (
              dict (
                ("apiVersion", str "vmcp.io/v1alpha1")
                ∷ ("kind", str "VmcpGateway")
                ∷ ("name", str "prod")
                ∷ ("uid", str "u1")
                ∷ ("controller", Value.bool true)
                ∷ ("blockOwnerDeletion", Value.bool true)
                ∷ [])
              ∷ []),
        )
        ∷ []))
      end

owner_runs : attach_owner end owner ≡ ok owned_object
unfolding attach_owner string_eq vmcp_operator.Json.Access.to_iter
owner_runs = refl

attach_owner_twice_example : attach_owner owned_object owner ≡ ok owned_object
attach_owner_twice_example = attach_owner_twice end owner owned_object owner_runs

abbrev schema_properties : Value
schema_properties = dict (("gql", dict (("properties", dict (("gcf", null) ∷ [])) ∷ [])) ∷ [])

nothing_missing_run : missing_fields schema_properties "spec." (("gql" ∷ "gcf" ∷ []) ∷ []) ≡ ok []
unfolding missing_fields string_eq
nothing_missing_run = refl

abbrev attachment : Fields
attachment = fields (
    ("apiVersion", str "v1")
    ∷ ("kind", str "ConfigMap")
    ∷ ("metadata", dict (("name", str "extra") ∷ ("namespace", str "elsewhere") ∷ []))
    ∷ [])

abbrev placed : Fields
placed = fields (
    ("apiVersion", str "v1")
    ∷ ("kind", str "ConfigMap")
    ∷ (
      "metadata",
      dict (
          ("name", str "extra")
          ∷ ("namespace", str "ns")
          ∷ ("labels", dict (("vmcp.io/gateway", str "prod") ∷ []))
          ∷ []),
    )
    ∷ [])

attachment_run : materialize_attachment attachment gateway ≡ ok placed
unfolding materialize_attachment string_eq
attachment_run = refl

materialize_attachment-eq-ok_example :
    (meta : Fields) × (get placed "kind"
      ≡ (if ◌==◌ {A = String} "kind" "metadata" then some (obj meta) else get attachment "kind"))
    × (get meta "namespace" ≡ some (str "ns"))
materialize_attachment-eq-ok_example =
    materialize_attachment-eq-ok attachment gateway placed "kind" attachment_run
