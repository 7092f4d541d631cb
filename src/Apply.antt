-- ===== src/Apply.antt =====
-- python/vmcp_operator/adapters/driven/k8s/ssa.py: server-side apply that retries on conflicts.
pub mod Retries
use vmcp_operator.Base.{
  ℕ, zero, suc, ◌+◌, String, Bool, true, false, Option, none, some, List, [], ◌∷◌, ◌++◌, leb,
  if◌then◌else◌, Error, conflict_error, assertion_error, Result, ok, err,
}
use vmcp_operator.Base.Exec.{Exec}
use vmcp_operator.Json.{Value}

-- `ObjectApplier`, over the state of the cluster.
pub record ObjectApplier : Type 1 where
  pub State : Type 0
  pub server_side_apply : Value → String → Bool → Exec State Value

pub record ServerSideApply : Type 1 where
  pub applier : ObjectApplier
  pub field_manager : String
  pub max_attempts : ℕ

module _ (ssa : ServerSideApply) where
  -- The loop of `apply`, with the attempts left, the number of this one and `force`.
  unfoldable pub attempts : ℕ → ℕ → Bool → Value → Exec ssa.applier.State Value
  attempts zero attempt force body s = (err (assertion_error "unreachable"), s)
  attempts (suc left) attempt force body s =
      let (result, t) = ssa.applier.server_side_apply body ssa.field_manager force s in
      elim result [
        | ok stored ↦ (ok stored, t)
        | err (conflict_error message) ↦ elim (leb ssa.max_attempts attempt) [
          | true ↦ (err (conflict_error message), t)
          | false ↦ attempts left (attempt + 1) true body t
        ]
        | err other ↦ (err other, t)
      ]

  -- `ServerSideApply.apply`
  unfoldable pub apply : Value → Exec ssa.applier.State Value
  unfolding attempts
  apply body = attempts ssa.max_attempts 1 false body

-- `InMemoryApplier`: each applied object with its field manager, and the attempts seen.
pub record InMemoryApplier : Type 0 where
  pub conflicts_before_success : ℕ
  pub applied : List (Value × String)
  pub seen : ℕ

-- `InMemoryApplier.server_side_apply`
unfoldable pub server_side_apply : Value → String → Bool → Exec InMemoryApplier Value
server_side_apply body field_manager force s =
    let t = record s { seen = s.seen + 1 } in
    if leb t.seen t.conflicts_before_success
    then (err (conflict_error "conflict"), t)
    else (ok body, record t { applied = t.applied ++ (body, field_manager) ∷ [] })

abbrev pub in_memory_applier : ObjectApplier
in_memory_applier = record { State = InMemoryApplier; server_side_apply = server_side_apply }
