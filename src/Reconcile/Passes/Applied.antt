-- ===== src/Reconcile/Passes/Applied.antt =====
-- How many objects a pass applies, against the applier that keeps them in memory.
use vmcp_operator.Base.{
  ℕ, zero, suc, ◌+◌, String, Bool, true, false, Option, List, [], ◌∷◌, ◌≡◌, refl, length,
  length-append, leb, arith, Result, ok, err, Bool-cases, inl, inr,
}
use vmcp_operator.Base.Exec.{
  Exec, pure, pure, lift, continue, ◌>>=◌, ◌>>◌, OnDone, bind-OnDone, OnDone-ok,
}
use vmcp_operator.Json.{Value, obj, Fields}
use vmcp_operator.Models.Gateway.{GatewayDesired}
use vmcp_operator.Models.Mcp.{McpServerDesired}
use vmcp_operator.Artifacts as Artifacts
use vmcp_operator.Artifacts.{ReconcileGatewayArtifacts}
use vmcp_operator.Models.Artifacts.{ArtifactBundle}
use vmcp_operator.Apply.{
  ServerSideApply, attempts, apply, InMemoryApplier, server_side_apply, in_memory_applier,
}
use vmcp_operator.Gateway.EarlyStrip.{EarlyStripPlan, plan_early_identity_strip}
use vmcp_operator.Gateway.Manifests as GatewayManifests
use vmcp_operator.Reconcile.{SecretValueLoader, load_hop_secret, materialize_attachment, as_dict}
use vmcp_operator.Reconcile.Passes.{
  GatewayReconcile, GatewayResult, owned, apply_object, apply_objects, apply_values,
  apply_attachments, reconcile_gateway, gateway_result,
}

-- A call that returns has applied so many objects.
abbrev Adds {ℓ} : {A : Type ℓ} → ℕ → InMemoryApplier → Result A × InMemoryApplier → Type 0
Adds n s = OnDone (λ _ t. length t.applied ≡ length s.applied + n)

module _ (manager : String) (max : ℕ) where
  abbrev pub memory : ServerSideApply
  memory = record { applier = in_memory_applier; field_manager = manager; max_attempts = max }

  further {κ} :
      {B : Type κ} (m n k : ℕ) (s t : InMemoryApplier) (r : Result B × InMemoryApplier)
      → length t.applied ≡ length s.applied + m
      → Adds n t r
      → k ≡ m + n
      → Adds k s r
  further m n k s t (ok b, u) q e sum = omega arith
  further m n k s t (err x, u) q e sum = tt

  attempts-Adds :
      (left attempt : ℕ) (force : Bool) (body : Value) (s : InMemoryApplier)
      → Adds 1 s (attempts memory left attempt force body s)
  unfolding attempts server_side_apply
  attempts-Adds zero attempt force body s = tt
  attempts-Adds (suc left) attempt force body s =
      elim (Bool-cases (leb (s.seen + 1) s.conflicts_before_success)) [
        | inr e ↦ rw (attempts, e) (rw e (length-append s.applied ((body, manager) ∷ [])))
        | inl e ↦
            rw (attempts, e)
              (elim (Bool-cases (leb max attempt)) [
                | inl last ↦ rw last tt
                | inr more ↦ rw more (
                    further 0 1 1 s (server_side_apply body manager force s).1 _
                      (rw e (omega arith))
                      (attempts-Adds left (attempt + 1) true body
                        (server_side_apply body manager force s).1)
                      (omega arith))
              ])
      ]

  apply_object-Adds :
      (owner : Option Fields) (object : Fields) (s : InMemoryApplier)
      → Adds 1 s (apply_object memory owner object s)
  unfolding apply_object apply
  apply_object-Adds owner object s = go (owned owner object)
    where
      go :
          (r : Result Fields)
          → Adds {0} 1 s ((lift r >>= λ body. apply memory (obj body) >>= λ stored. pure tt) s)
      go (err e) = tt
      go (ok body) =
          bind-OnDone (λ _ t. length t.applied ≡ length s.applied + 1)
            (λ _ t. length t.applied ≡ length s.applied + 1) (apply memory (obj body) s) _
            (attempts-Adds max 1 false (obj body) s) (λ stored t h. h)

  -- One call that applies objects, and then another.
  then-Adds {ℓ κ} :
      {A : Type ℓ} {B : Type κ} (m n k : ℕ) (s : InMemoryApplier) (r : Result A × InMemoryApplier)
      (next : A → Exec InMemoryApplier B)
      → Adds m s r
      → ((a : A) (t : InMemoryApplier) → Adds n t (next a t))
      → k ≡ m + n
      → Adds k s (continue r.0 next r.1)
  then-Adds m n k s (err e, t) next q h sum = tt
  then-Adds m n k s (ok a, t) next q h sum = further m n k s t (next a t) q (h a t) sum

  apply_objects-Adds :
      (owner : Option Fields) (objects : List Fields) (s : InMemoryApplier)
      → Adds (length objects) s (apply_objects memory owner objects s)
  unfolding apply_objects
  apply_objects-Adds owner [] s = omega arith
  apply_objects-Adds owner (o ∷ os) s =
      then-Adds 1 (length os) (suc (length os)) s (apply_object memory owner o s) _
        (apply_object-Adds owner o s) (λ done t. apply_objects-Adds owner os t) (omega arith)

  apply_values-Adds :
      (owner : Option Fields) (values : List Value) (s : InMemoryApplier)
      → Adds (length values) s (apply_values memory owner values s)
  unfolding apply_values as_dict
  apply_values-Adds owner [] s = omega arith
  apply_values-Adds owner (obj o ∷ vs) s =
      then-Adds 1 (length vs) (suc (length vs)) s (apply_object memory owner o s) _
        (apply_object-Adds owner o s) (λ done t. apply_values-Adds owner vs t) (omega arith)
  apply_values-Adds owner (Value.null ∷ vs) s = tt
  apply_values-Adds owner (Value.bool b ∷ vs) s = tt
  apply_values-Adds owner (Value.num n ∷ vs) s = tt
  apply_values-Adds owner (Value.str x ∷ vs) s = tt
  apply_values-Adds owner (Value.arr xs ∷ vs) s = tt

  apply_attachments-Adds :
      (owner : Option Fields) (g : GatewayDesired) (attachments : List Fields) (s : InMemoryApplier)
      → Adds (length attachments) s (apply_attachments memory owner g attachments s)
  unfolding apply_attachments
  apply_attachments-Adds owner g [] s = omega arith
  apply_attachments-Adds owner g (a ∷ as') s =
      go (materialize_attachment a g) (λ t. apply_attachments-Adds owner g as' t)
    where
      go :
          (r : Result Fields)
          → ((t : InMemoryApplier)
              → Adds {0} (length as') t (apply_attachments memory owner g as' t))
          → Adds {0} (suc (length as')) s (
              (lift r >>= λ body.
              apply_object memory owner body >> apply_attachments memory owner g as')
                s)
      go (err e) h = tt
      go (ok body) h =
          then-Adds 1 (length as') (suc (length as')) s (apply_object memory owner body s) _
            (apply_object-Adds owner body s) (λ done t. h t) (omega arith)

  -- The result counts what was applied since `s`.
  abbrev Counts : InMemoryApplier → GatewayResult → InMemoryApplier → Type 0
  Counts s q u = length u.applied ≡ length s.applied + q.objects

  apply_objects-Counts :
      (owner : Option Fields) (g : GatewayDesired) (os : List Fields) (vs : List Value)
      (attachments : List Fields) (q : GatewayResult) (s : InMemoryApplier)
      → q.objects ≡ length os + length vs + length attachments
      → OnDone (Counts s) (
          (apply_objects memory owner os >>= λ a. apply_values memory owner vs >>= λ b.
          apply_attachments memory owner g attachments >>= λ c. pure q)
            s)
  apply_objects-Counts owner g os vs attachments q s e =
      bind-OnDone (λ _ t. length t.applied ≡ length s.applied + length os) (Counts s)
        (apply_objects memory owner os s) _ (apply_objects-Adds owner os s)
        (λ a t h.
          bind-OnDone (λ _ u. length u.applied ≡ length t.applied + length vs) (Counts s)
            (apply_values memory owner vs t) _ (apply_values-Adds owner vs t)
            (λ b u k.
              bind-OnDone (λ _ v. length v.applied ≡ length u.applied + length attachments)
                (Counts s) (apply_attachments memory owner g attachments u) _
                (apply_attachments-Adds owner g attachments u) (λ c v l. omega arith)))

  module _ (artifacts : ReconcileGatewayArtifacts) (secrets : Option SecretValueLoader) where
    abbrev pub gateway_pass : GatewayReconcile
    gateway_pass = record { artifacts = artifacts; apply = memory; secrets = secrets }

    -- The result that a pass over a gateway returns counts the objects that it has applied,
    -- whatever conflicts there were on the way.
    pub reconcile_gateway-applied :
        (g : GatewayDesired) (mcps : List McpServerDesired) (owner : Option Fields)
        (s t : InMemoryApplier) (r : GatewayResult)
        → reconcile_gateway gateway_pass g mcps owner s ≡ (ok r, t)
        → length t.applied ≡ length s.applied + r.objects
    unfolding reconcile_gateway
    reconcile_gateway-applied g mcps owner s t r h =
        OnDone-ok (Counts s) (reconcile_gateway gateway_pass g mcps owner s) r t
          (rendered (Artifacts.execute artifacts g mcps)) h
      where
        hop : Option String
        hop = load_hop_secret secrets g

        strip : EarlyStripPlan
        strip = plan_early_identity_strip g

        applied :
            (bundle : ArtifactBundle) (objects : Result (List Fields))
            → OnDone (Counts s) (
                (lift objects >>= λ os. apply_objects memory owner os >>= λ a.
                apply_values memory owner strip.objects >>= λ b.
                apply_attachments memory owner g g.attachments >>= λ c.
                pure (gateway_result g bundle.bundle_sha256 hop os strip))
                  s)
        applied bundle (err e) = tt
        applied bundle (ok os) =
            apply_objects-Counts owner g os strip.objects g.attachments
              (gateway_result g bundle.bundle_sha256 hop os strip) s refl

        rendered :
            (bundle : Result ArtifactBundle)
            → OnDone (Counts s) (
                (lift bundle >>= λ b. lift (GatewayManifests.execute g b mcps hop) >>= λ os.
                apply_objects memory owner os >>= λ x.
                apply_values memory owner strip.objects >>= λ y.
                apply_attachments memory owner g g.attachments >>= λ z.
                pure (gateway_result g b.bundle_sha256 hop os strip))
                  s)
        rendered (err e) = tt
        rendered (ok b) = applied b (GatewayManifests.execute g b mcps hop)
