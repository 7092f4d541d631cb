-- ===== src/Ownership.antt =====
-- python/vmcp_operator/adapters/driving/k8s/ownership.py: owner references.
pub mod Idempotence
use vmcp_operator.Base.{
  String, ◌<>◌, Bool, true, false, not, ◌&&◌, ◌||◌, Option, none, some, List, [], ◌∷◌, ◌++◌, ◌==◌,
  string_eq, if◌then◌else◌, value_error, attribute_error, type_error, Result, ok, err, ◌>>=◌, ◌>>◌,
  raise_if,
}
use vmcp_operator.Json.{
  Value, null, bool, str, obj, arr, items, nil, Fields, end, field, fields, list, get, set,
}
use vmcp_operator.Json.Access.{truth, or_value, or_default, to_str, get_of, to_iter}

-- `not v` for an optional value
abbrev pub missing : Option Value → Bool
missing none = true
missing (some v) = not (truth v)

-- The parts of the reference, as texts.
pub record OwnerReference : Type 0 where
  pub api_version : String
  pub kind : String
  pub name : String
  pub uid : String

abbrev text : Option Value → String
text v = to_str (or_default v null)

abbrev pub owner_error : String
owner_error = "owner must include apiVersion, kind, metadata.name, and metadata.uid"

-- `build_owner_reference`
unfoldable pub build_owner_reference : Fields → Result OwnerReference
build_owner_reference owner =
    let meta = or_value (get owner "metadata") (obj end) in
    let api_version = get owner "apiVersion" in
    let kind = get owner "kind" in
    get_of meta "name" >>= λ name. get_of meta "uid" >>= λ uid.
    raise_if (missing api_version || missing kind || missing name || missing uid)
      (value_error owner_error)
    >> ok (record {
      api_version = text api_version;
      kind = text kind;
      name = text name;
      uid = text uid;
    })

-- The dict that `build_owner_reference` returns.
abbrev pub reference_value : OwnerReference → Value
reference_value ref = obj (
    fields (
      ("apiVersion", str ref.api_version)
      ∷ ("kind", str ref.kind)
      ∷ ("name", str ref.name)
      ∷ ("uid", str ref.uid)
      ∷ ("controller", bool true)
      ∷ ("blockOwnerDeletion", bool true)
      ∷ []))

-- `[item for item in refs if str(item.get("uid")) != uid]`
unfoldable pub other_refs : String → List Value → Result (List Value)
other_refs uid [] = ok []
other_refs uid (item ∷ rest) =
    let others = other_refs uid rest in
    get_of item "uid" >>= λ v.
    others >>= λ vs. ok (if to_str (or_default v null) == uid then vs else item ∷ vs)

-- `meta["ownerReferences"] = refs`
unfoldable pub with_refs : OwnerReference → Fields → Result Fields
unfolding other_refs set
with_refs ref meta = to_iter (or_value (get meta "ownerReferences") (arr nil)) >>= λ old.
    other_refs ref.uid old >>= λ refs.
    ok (set meta "ownerReferences" (list (refs ++ reference_value ref ∷ [])))

-- The metadata of an object, which must be a dict.
unfoldable pub metadata_fields : Option Value → Result Fields
metadata_fields none = ok end
metadata_fields (some (obj meta)) = ok meta
metadata_fields (some v) = err (attribute_error "get")

-- `attach_owner`, as the object that it leaves.
unfoldable pub attach_owner : Fields → Fields → Result Fields
unfolding with_refs build_owner_reference metadata_fields set
attach_owner object owner = build_owner_reference owner >>= λ ref.
    metadata_fields (get object "metadata") >>= λ meta.
    with_refs ref meta >>= λ new. ok (set object "metadata" (obj new))
