-- ===== src/Handlers/Protected.antt =====
-- The finalizer of a gateway object under passes of `reconcile_gateway` and whatever else happens to
-- the object.
use vmcp_operator.Base.{
  ℕ, String, Bool, true, ◌&&◌, ◌||◌, List, [], string_eq, ◌≡◌, refl, contains, arith, Bool-cases,
  inl, inr, Result, ok,
}
use vmcp_operator.Base.Integer.{ℤ}
use vmcp_operator.Finalizers.{gateway_finalizer}
use vmcp_operator.Finalizers.Patch.{apply_fns_to_body}
use vmcp_operator.Mapping.GatewaySpec.{map_gateway}
use vmcp_operator.Handlers.Runtime.{OperatorRuntime, Operator}
use vmcp_operator.Handlers.Events.{Event, is_deleting, finalizers_of}
use vmcp_operator.Handlers.Gateways.{reconcile_gateway}
use vmcp_operator.Handlers.Spared.{Spares, is_drained, reconcile_gateway-Spares}

-- A gateway object as its finalizer sees it. `drained` records that an event found the object being
-- deleted and the listing of its servers empty; the operator does not store it.
pub record Watched : Type 0 where
  pub finalizers : List String
  pub deleting : Bool
  pub drained : Bool

-- The finalizer stands, or an event has found the object drained.
unfoldable pub IsProtected : Watched → Type 0
IsProtected o = (contains o.finalizers gateway_finalizer || o.drained) ≡ true

module _ (runtime : OperatorRuntime) (scaled : String → ℕ → Result ℤ) (crd_skew : List String)
    (now : String) where
  -- What happens to a gateway object: an event that the handler answers, in whatever state of the
  -- cluster, its transforms being applied whether it returns or raises; a deletion request; and
  -- other controllers that change the finalizers, all but the operator's.
  pub data Step : Watched → Watched → Type 0 where
    handled :
        (o : Watched) (event : Event) (s : Operator runtime.apply.applier.State)
        → s.fns ≡ []
        → finalizers_of event ≡ ok o.finalizers
        → is_deleting event ≡ o.deleting
        → Step o (record o {
          finalizers =
              apply_fns_to_body
                (reconcile_gateway runtime scaled crd_skew now event s).1.fns
                o.finalizers;
          drained =
              o.drained
              || (o.deleting
                  && is_drained runtime s.cluster
                      (map_gateway event.namespace event.name event.spec));
        })
    delete_requested : (o : Watched) → Step o (record o { deleting = true })
    others_changed :
        (o : Watched) (fs : List String)
        → contains fs gateway_finalizer ≡ contains o.finalizers gateway_finalizer
        → Step o (record o { finalizers = fs })

  pub data Reaches (o : Watched) : Watched → Type 0 where
    here : Reaches o o
    then_step : {p q : Watched} → Reaches o p → Step p q → Reaches o q

  Step-IsProtected : {o p : Watched} → Step o p → IsProtected o → IsProtected p
  unfolding IsProtected Spares
  Step-IsProtected (handled o event s e f d) h =
      elim (Bool-cases (contains o.finalizers gateway_finalizer)) [
        | inl held ↦ ground (
          arith,
          reconcile_gateway-Spares runtime scaled crd_skew now event o.finalizers s e f
              gateway_finalizer held,
          d,
          h,
          held,
        )
        | inr bare ↦ ground (arith, h, bare)
      ]
  Step-IsProtected (delete_requested o) h = h
  Step-IsProtected (others_changed o fs e) h = rw e h

  -- Once a gateway object has the operator's finalizer, then whatever events the handler answers,
  -- with whatever spec and in whatever state of the cluster, returning or raising, and whatever
  -- deletion requests and changes of other finalizers come between, the object has the finalizer
  -- still, unless at one of the events it was being deleted and the listing of the gateway's
  -- servers came back empty. An event shows the finalizers and the deletion that the object has,
  -- its patch comes without transforms, and nobody else touches the operator's finalizer.
  pub finalizer_protects :
      (o q : Watched) → contains o.finalizers gateway_finalizer ≡ true → Reaches o q → IsProtected q
  unfolding IsProtected
  finalizer_protects o _ h here = rw h refl
  finalizer_protects o _ h (then_step {p} {q} r st) =
      Step-IsProtected st (finalizer_protects o p h r)
