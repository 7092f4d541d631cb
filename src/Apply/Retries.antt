-- ===== src/Apply/Retries.antt =====
-- What the retries of `ServerSideApply.apply` achieve.
use vmcp_operator.Base.{
  ℕ, zero, suc, ◌+◌, ◌≤◌, ◌<◌, String, Bool, true, false, [], ◌∷◌, ◌++◌, ◌≡◌, ltb, Bool-cases, inl,
  inr, if◌then◌else◌, conflict_error, ok, err, arith,
}
use vmcp_operator.Json.{Value}
use vmcp_operator.Apply.{
  ServerSideApply, attempts, apply, InMemoryApplier, server_side_apply, in_memory_applier,
}

module _ (manager : String) (max : ℕ) where
  abbrev memory : ServerSideApply
  memory = record { applier = in_memory_applier; field_manager = manager; max_attempts = max }

  attempts_succeed :
      (k left attempt : ℕ) (force : Bool) (body : Value) (s : InMemoryApplier)
      → s.seen + k ≡ s.conflicts_before_success
      → k < left
      → attempt + left ≡ max + 1
      → attempts memory left attempt force body s
        ≡ (ok body, record s { applied = s.applied ++ (body, manager) ∷ []; seen = s.seen + k + 1 })
  unfolding attempts server_side_apply
  attempts_succeed k zero attempt force body s e h b = absurd (omega arith)
  attempts_succeed zero (suc left) attempt force body s e h b = ground arith
  attempts_succeed (suc k) (suc left) attempt force body s e h b =
      ground
        (arith, attempts_succeed k left (attempt + 1) true body (record s { seen = s.seen + 1 }))

  attempts_fail :
      (left attempt : ℕ) (force : Bool) (body : Value) (s : InMemoryApplier)
      → s.seen + left ≤ s.conflicts_before_success
      → 0 < left
      → attempt + left ≡ max + 1
      → attempts memory left attempt force body s
        ≡ (err (conflict_error "conflict"), record s { seen = s.seen + left })
  unfolding attempts server_side_apply
  attempts_fail zero attempt force body s e h b = absurd (omega arith)
  attempts_fail (suc zero) attempt force body s e h b = ground arith
  attempts_fail (suc (suc left)) attempt force body s e h b =
      ground
        (arith, attempts_fail (suc left) (attempt + 1) true body (record s { seen = s.seen + 1 }))

  -- Against an applier that still has `k` conflicts to report, `apply` with `max` attempts, at
  -- least one, applies the object exactly once, on attempt `k + 1`, if `k < max`. Otherwise it
  -- uses up all attempts, raises the conflict and applies nothing.
  pub apply-in_memory_applier :
      (k : ℕ) (body : Value) (s : InMemoryApplier)
      → 0 < max
      → s.seen + k ≡ s.conflicts_before_success
      → apply memory body s ≡ (
          if ltb k max
          then (
            ok body,
            record s { applied = s.applied ++ (body, manager) ∷ []; seen = s.seen + k + 1 },
          )
          else (err (conflict_error "conflict"), record s { seen = s.seen + max }))
  unfolding apply
  apply-in_memory_applier k body s p e = elim (Bool-cases (ltb k max)) [
    | inl h ↦ rw h (attempts_succeed k max 1 false body s e (ground arith) (omega arith))
    | inr h ↦ rw h (attempts_fail max 1 false body s (ground arith) p (omega arith))
  ]
