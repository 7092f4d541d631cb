-- ===== src/Ownership/Idempotence.antt =====
-- Attaching an owner twice is attaching it once.
use vmcp_operator.Base.{
  String, true, Option, some, List, [], ◌∷◌, ◌++◌, ◌==◌, string_eq, ◌≡◌, refl, ap, sym, ◌∙◌,
  if◌then◌else◌, arith, ok, >>=-eq-ok, ok-injective, Bool-cases, inl, inr,
}
use vmcp_operator.Json.{Value, null, str, obj, arr, nil, Fields, get, set, list}
use vmcp_operator.Json.Access.{to_str, or_default, get_of, or_value, to_iter}
use vmcp_operator.Json.Update.{get-set_same, set-set, to_list-items}
use vmcp_operator.Ownership.{
  OwnerReference, reference_value, other_refs, with_refs, metadata_fields, attach_owner,
  build_owner_reference,
}

to_iter-append :
    (vs : List Value) (v d : Value)
    → to_iter (or_value (some (list (vs ++ v ∷ []))) d) ≡ ok (vs ++ v ∷ [])
unfolding to_iter
to_iter-append [] v d = refl
to_iter-append (u ∷ us) v d = ap (λ vs. ok (u ∷ vs)) (to_list-items (us ++ v ∷ []))

uid-reference_value :
    (ref : OwnerReference) → get_of (reference_value ref) "uid" ≡ ok (some (str ref.uid))
unfolding string_eq
uid-reference_value ref = refl

other_refs-one :
    (uid : String) (v : Value) (o : Option Value)
    → get_of v "uid" ≡ ok o
    → (to_str (or_default o null) == uid) ≡ true
    → other_refs uid (v ∷ []) ≡ ok []
unfolding other_refs
other_refs-one uid v o e t = rw (e, t) refl

other_refs-step :
    (ref : OwnerReference) (v : Value) (o : Option Value) (us ws : List Value)
    → get_of v "uid" ≡ ok o
    → other_refs ref.uid (us ++ reference_value ref ∷ []) ≡ ok us
    → (if to_str (or_default o null) == ref.uid then us else v ∷ us) ≡ ws
    → other_refs ref.uid (ws ++ reference_value ref ∷ []) ≡ ok ws
unfolding other_refs
other_refs-step ref v o us ws e ih h = elim (Bool-cases (to_str (or_default o null) == ref.uid)) [
  | inl t ↦ rw (sym (ap (λ b. if b then us else v ∷ us) (sym t) ∙ h)) ih
  | inr t ↦ rw (sym (ap (λ b. if b then us else v ∷ us) (sym t) ∙ h)) (rw (e, ih, t) refl)
]

-- Once the references of an owner are filtered out, filtering again also drops the new one.
other_refs-append :
    (ref : OwnerReference) (vs ws : List Value)
    → other_refs ref.uid vs ≡ ok ws
    → other_refs ref.uid (ws ++ reference_value ref ∷ []) ≡ ok ws
unfolding other_refs
other_refs-append ref [] ws h = rw (sym (ok-injective [] ws h)) (
    other_refs-one ref.uid (reference_value ref) (some (str ref.uid)) (uid-reference_value ref)
      (ground arith))
other_refs-append ref (v ∷ vs) ws h =
    let (o, e, h2) = >>=-eq-ok (get_of v "uid") _ h in
    let (us, e2, h3) = >>=-eq-ok (other_refs ref.uid vs) _ h2 in
    other_refs-step ref v o us ws e (other_refs-append ref vs us e2) (ok-injective _ ws h3)

with_refs_twice :
    (ref : OwnerReference) (meta new : Fields)
    → with_refs ref meta ≡ ok new
    → with_refs ref new ≡ ok new
unfolding with_refs
with_refs_twice ref meta new h =
    let (old, e, h2) = >>=-eq-ok (to_iter (or_value (get meta "ownerReferences") (arr nil))) _ h in
    let (refs, e2, h3) = >>=-eq-ok (other_refs ref.uid old) _ h2 in
    rw (sym (ok-injective _ new h3)) (
      rw
        (
          get-set_same meta "ownerReferences" (list (refs ++ reference_value ref ∷ [])),
          to_iter-append refs (reference_value ref) (arr nil),
          other_refs-append ref old refs e2,
        )
        (ap ok (set-set meta "ownerReferences" _ _)))

attach_again :
    (object owner m : Fields) (ref : OwnerReference)
    → build_owner_reference owner ≡ ok ref
    → with_refs ref m ≡ ok m
    → attach_owner (set object "metadata" (obj m)) owner ≡ ok (set object "metadata" (obj m))
unfolding attach_owner metadata_fields
attach_again object owner m ref e e2 =
    rw (e, get-set_same object "metadata" (obj m), e2)
      (ap ok (set-set object "metadata" (obj m) (obj m)))

-- When an owner has been attached to an object, attaching it again leaves the object as it is: the
-- operator repeats its passes without piling up references.
pub attach_owner_twice :
    (object owner new : Fields)
    → attach_owner object owner ≡ ok new
    → attach_owner new owner ≡ ok new
unfolding attach_owner
attach_owner_twice object owner new h =
    let (ref, e, h2) = >>=-eq-ok (build_owner_reference owner) _ h in
    let (meta, e2, h3) = >>=-eq-ok (metadata_fields (get object "metadata")) _ h2 in
    let (m, e3, h4) = >>=-eq-ok (with_refs ref meta) _ h3 in
    let q = ok-injective (set object "metadata" (obj m)) new h4 in
    ap (λ x. attach_owner x owner) (sym q)
    ∙ attach_again object owner m ref e (with_refs_twice ref meta m e3)
    ∙ ap ok q
