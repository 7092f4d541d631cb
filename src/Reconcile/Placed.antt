-- ===== src/Reconcile/Placed.antt =====
-- Where an attachment lands.
use vmcp_operator.Base.{
  String, ◌||◌, some, ◌==◌, string_eq, ◌≡◌, ap, sym, ◌∙◌, if◌then◌else◌, ok, ◌>>=◌, >>=-eq-ok,
  ok-injective, raise_if,
}
use vmcp_operator.Json.{str, obj, Fields, end, get, set}
use vmcp_operator.Json.Access.{or_value}
use vmcp_operator.Json.Update.{get-set, get-set_same}
use vmcp_operator.Models.Gateway.{GatewayDesired}
use vmcp_operator.Ownership.{missing}
use vmcp_operator.Reconcile.{as_dict, or_new, placed_metadata, materialize_attachment}

placed_metadata-namespace :
    (g : GatewayDesired) (meta new : Fields)
    → placed_metadata g meta ≡ ok new
    → get new "namespace" ≡ some (str g.key.namespace)
unfolding placed_metadata string_eq
placed_metadata-namespace g meta new h =
    let here = set meta "namespace" (str g.key.namespace) in
    let (labels, e, h2) = >>=-eq-ok (as_dict (or_value (get here "labels") (obj end))) _ h in
    ap (λ d. get d "namespace") (sym (ok-injective _ new h2))
    ∙ get-set here "labels" "namespace" _
    ∙ get-set_same meta "namespace" (str g.key.namespace)

-- An attachment that is accepted has a dict as its metadata, with the gateway's namespace whatever
-- it named before; and each of its fields but the metadata is as it was.
pub materialize_attachment-eq-ok :
    (attachment : Fields) (g : GatewayDesired) (body : Fields) (key : String)
    → materialize_attachment attachment g ≡ ok body
    → (meta : Fields) × (get body key
        ≡ (if key == "metadata" then some (obj meta) else get attachment key))
      × (get meta "namespace" ≡ some (str g.key.namespace))
unfolding materialize_attachment
materialize_attachment-eq-ok attachment g body key h =
    let (new, e, h2) =
      >>=-eq-ok (as_dict (or_new (get attachment "metadata")) >>= placed_metadata g) _ h in
    let (meta, e2, h3) = >>=-eq-ok (as_dict (or_new (get attachment "metadata"))) _ e in
    let (u, e4, h4) =
      >>=-eq-ok
        (raise_if
          (missing (get attachment "apiVersion")
            || missing (get attachment "kind")
            || missing (get new "name"))
          _)
        _ h2 in
    (
      new,
      ap (λ d. get d key) (sym (ok-injective _ body h4))
          ∙ get-set attachment "metadata" key (obj new),
      placed_metadata-namespace g meta new h3,
    )
