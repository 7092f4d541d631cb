-- ===== src/Enqueue/Keys.antt =====
-- The key that a child names is the key that was written on it.
use Prim.Native.Char.{Char, code}
use vmcp_operator.Base.{
  nil-append, cons-append, String, ◌<>◌, true, false, Option, none, some, ◌≡◌, refl, ap, ◌∙◌,
  truthy, has_char, split_once, arith, eqb,
}
use vmcp_operator.Base.Dict.{Dict, lookup}
use vmcp_operator.Models.Gateway.{GatewayKey, as_str}
use vmcp_operator.Enqueue.{
  gateway_label, gateway_key_annotation, gateway_key_from_labels, gateway_key_from_owner,
  key_of_annotation, key_of_label,
}

split_once-slash : (t : String) → split_once 47 ("/" <> t) ≡ some ("", t)
unfolding split_once
split_once-slash t = ap (split_once 47) (cons-append "/" "" t ∙ ap (String.◌∷◌ "/") (nil-append t))

split_once-cons :
    (c : Char) (s a b : String)
    → eqb (code c) 47 ≡ false
    → split_once 47 s ≡ some (a, b)
    → split_once 47 (String.◌∷◌ c s) ≡ some (String.◌∷◌ c a, b)
unfolding split_once
split_once-cons c s a b n e = rw (n, e) refl

pub split_once-join :
    (s t : String) → has_char 47 s ≡ false → split_once 47 (s <> ("/" <> t)) ≡ some (s, t)
unfolding has_char
split_once-join String.[] t h = ap (split_once 47) (nil-append _) ∙ split_once-slash t
split_once-join (String.◌∷◌ c s) t h =
    ap (split_once 47) (cons-append c s _)
    ∙ split_once-cons c (s <> ("/" <> t)) s t (ground arith) (split_once-join s t (ground arith))

key_of_annotation-as_str :
    (key : GatewayKey)
    → has_char 47 key.namespace ≡ false
    → key_of_annotation (some (as_str key)) ≡ some key
unfolding key_of_annotation
key_of_annotation-as_str key h = ap parsed (split_once-join key.namespace key.name h)
  where
    parsed : Option (String × String) → Option GatewayKey
    parsed o = elim o [
      | none ↦ none
      | some (ns, name) ↦ some (record { namespace = ns; name = name })
    ]

-- A gateway's key written as the annotation of a child without a gateway label is the key that the
-- child is enqueued for, if the namespace holds no slash.
pub gateway_key_from_owner-as_str :
    (namespace : String) (key : GatewayKey) (annotations labels : Dict String)
    → lookup gateway_label labels ≡ none
    → lookup gateway_key_annotation annotations ≡ some (as_str key)
    → has_char 47 key.namespace ≡ false
    → gateway_key_from_owner namespace annotations labels ≡ some key
unfolding gateway_key_from_owner gateway_key_from_labels key_of_label key_of_annotation
gateway_key_from_owner-as_str namespace key annotations labels l a h =
    rw (gateway_key_from_owner, gateway_key_from_labels, l, a) (key_of_annotation-as_str key h)

-- A label that is not empty decides alone: whatever the annotations, the child belongs to the
-- gateway of that name in its own namespace.
pub gateway_key_from_owner-label :
    (namespace name : String) (annotations labels : Dict String)
    → lookup gateway_label labels ≡ some name
    → truthy name ≡ true
    → gateway_key_from_owner namespace annotations labels
      ≡ some (record { namespace = namespace; name = name })
unfolding gateway_key_from_owner gateway_key_from_labels key_of_label
gateway_key_from_owner-label namespace name annotations labels l t =
    rw (gateway_key_from_owner, gateway_key_from_labels, l, t) refl
