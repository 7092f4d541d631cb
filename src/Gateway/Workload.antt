-- ===== src/Gateway/Workload.antt =====
-- python/vmcp_operator/domain/usecases/render_gateway_manifests.py: the volume claim, ConfigMap,
-- Service and Deployment of a gateway.
pub mod Files
use vmcp_operator.Base.{
  ℕ, String, ◌<>◌, Bool, true, false, not, ◌||◌, List, [], ◌∷◌, ◌++◌, ◌==◌, string_eq,
  if◌then◌else◌, truthy, strip, replace_char, value_error, Result, ok, ◌>>=◌, ◌>>◌, raise_if,
}
use vmcp_operator.Base.Dict.{Dict, insert}
use vmcp_operator.Base.Integer.{pos}
use vmcp_operator.Json.{Value, bool, num, str, Fields, fields, dict, list}
use vmcp_operator.Models.Gateway.{GatewayDesired, SecretRef}
use vmcp_operator.Models.Artifacts.{ArtifactBundle, ArtifactFile}
use vmcp_operator.Config.{render_gateway_config}
use vmcp_operator.Gateway.EarlyStrip.{gateway_labels, given_text}

-- The head that every object of a gateway has.
abbrev pub object : String → String → List (String × Value) → List (String × Value) → Fields
object api_version kind metadata body =
    fields
      (("apiVersion", str api_version) ∷ ("kind", str kind) ∷ ("metadata", dict metadata) ∷ body)

abbrev pub metadata : GatewayDesired → String → List (String × Value)
metadata gateway name =
    ("name", str name)
    ∷ ("namespace", str gateway.key.namespace)
    ∷ ("labels", dict (gateway_labels gateway.key.name))
    ∷ []

abbrev pub storage_class : List String → List (String × Value)
storage_class [] = []
storage_class (name ∷ names) = ("storageClassName", str name) ∷ []

-- `pvc`
unfoldable pub volume_claim : GatewayDesired → Fields
volume_claim gateway =
    object "v1" "PersistentVolumeClaim"
      (metadata gateway (gateway.key.name <> "-state")
        ++ (
          "annotations",
          dict (("vmcp.io/reclaim-policy", str gateway.persistence.reclaim_policy) ∷ []),
        )
          ∷ [])
      ((
        "spec",
        dict (
            (("accessModes", list (str "ReadWriteOnce" ∷ []))
              ∷ (
                "resources",
                dict (("requests", dict (("storage", str gateway.persistence.size) ∷ [])) ∷ []),
              )
              ∷ ("volumeMode", str "Filesystem")
              ∷ [])
            ++ storage_class (given_text gateway.persistence.storage_class_name)),
      )
        ∷ [])

-- `flatten_configmap_key`
unfoldable pub flatten_configmap_key : String → Result String
flatten_configmap_key path =
    raise_if (not (path == strip path) || not (truthy path))
      (value_error "artifact path must be non-empty")
    >> ok (replace_char 47 "__" path)

-- The comprehension that fills `cm_data`: of two paths with one key, the later file stays.
unfoldable pub flatten_files : Dict Value → List (String × ArtifactFile) → Result (Dict Value)
unfolding flatten_configmap_key
flatten_files cm_data [] = ok cm_data
flatten_files cm_data ((path, file) ∷ files) = flatten_configmap_key path >>= λ key.
    flatten_files (insert key (str file.content) cm_data) files

-- `configmap`, around its data
abbrev pub config_map : GatewayDesired → ArtifactBundle → Dict Value → Fields
config_map gateway artifacts cm_data =
    object "v1" "ConfigMap"
      (metadata gateway (gateway.key.name <> "-artifacts")
        ++ (
          "annotations",
          dict (
              ("vmcp.io/bundle-sha256", str artifacts.bundle_sha256)
              ∷ ("vmcp.io/registry-sha256", str artifacts.registry_sha256)
              ∷ ("vmcp.io/key-encoding", str "slash-as-double-underscore")
              ∷ ("vmcp.io/contract", str "vmcp-v1.3")
              ∷ []),
        )
          ∷ [])
      (("data", dict cm_data) ∷ [])

unfoldable pub configmap : GatewayDesired → ArtifactBundle → Result Fields
unfolding flatten_files
configmap gateway artifacts = flatten_files [] artifacts.files >>= λ cm_data. ok (
    config_map gateway artifacts (insert "vmcp.toml" (str (render_gateway_config gateway)) cm_data))

-- `service`
unfoldable pub service : GatewayDesired → Fields
service gateway = object "v1" "Service" (metadata gateway gateway.key.name) (
    (
      "spec",
      dict (
          ("type", str "ClusterIP")
          ∷ ("selector", dict (gateway_labels gateway.key.name))
          ∷ (
            "ports",
            list (
                dict (
                  ("name", str "http") ∷ ("port", num (pos 8080)) ∷ ("targetPort", str "http") ∷ [])
                ∷ []),
          )
          ∷ []),
    )
    ∷ [])

-- `volumes`
unfoldable pub volumes : GatewayDesired → List Value
volumes gateway =
    dict (
      ("name", str "artifacts-raw")
      ∷ ("configMap", dict (("name", str (gateway.key.name <> "-artifacts")) ∷ []))
      ∷ [])
    ∷ dict (("name", str "artifacts") ∷ ("emptyDir", dict []) ∷ [])
    ∷ dict (
        ("name", str "state")
        ∷ ("persistentVolumeClaim", dict (("claimName", str (gateway.key.name <> "-state")) ∷ []))
        ∷ [])
    ∷ dict (
        ("name", str "admin-tokens")
        ∷ (
          "secret",
          dict (
              ("secretName", str gateway.admin_token_secret_ref.name)
              ∷ (
                "items",
                list (
                    dict (
                      ("key", str gateway.admin_token_secret_ref.key)
                      ∷ ("path", str "tokens.json")
                      ∷ [])
                    ∷ []),
              )
              ∷ []),
        )
        ∷ [])
    ∷ []

abbrev pub mount : String → String → Value
mount name path = dict (("name", str name) ∷ ("mountPath", str path) ∷ [])

abbrev pub read_only_mount : String → String → Value
read_only_mount name path =
    dict (("name", str name) ∷ ("mountPath", str path) ∷ ("readOnly", bool true) ∷ [])

-- `volume_mounts`
unfoldable pub volume_mounts : Bool → List Value
volume_mounts tokens_writable =
    (mount "artifacts" "/config" ∷ mount "state" "/state" ∷ [])
    ++ (if not tokens_writable then read_only_mount "admin-tokens" "/secrets" ∷ [] else [])

-- `init_volume_mounts`
unfoldable pub init_volume_mounts : Bool → List Value
init_volume_mounts tokens_writable =
    (mount "artifacts-raw" "/config-raw" ∷ mount "artifacts" "/config" ∷ [])
    ++ (if tokens_writable
        then read_only_mount "admin-tokens" "/secrets-bootstrap" ∷ mount "state" "/state" ∷ []
        else [])
