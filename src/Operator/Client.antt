-- ===== src/Operator/Client.antt =====
-- services/pipeline-operator/operator/k8s_real_client.py: the client of the cluster, and the answers of
-- k8s_client.py that it inherits.
pub mod Effects
pub mod Calls
pub mod Reconcile
pub mod Upgrading
mod Tests
use aidata_pipeline.Prelude.{
  ℕ, String, Bool, true, false, Option, none, some, List, [], ◌∷◌, ◌==◌, if◌then◌else◌,
}
use aidata_pipeline.Prelude.Action.{Action, Result, ok, err, pure, raise, try_except}
use aidata_pipeline.External.Kubernetes.{Kubernetes}
use aidata_pipeline.External.Calls.{Outside}
use aidata_pipeline.Operator.Manifests.{
  Kind, kafka_topic_kind, kafka_user_kind, deployment_kind, cronjob_kind, role_kind,
  role_binding_kind, configmap_kind, Ref, Metadata, Body, kafka_topic_body, kafka_user_body,
  deployment_body, cronjob_body, make_connector_role, make_connector_role_binding, restarted_at,
  configmap_data,
}
use aidata_pipeline.Operator.Resources.{
  Resource, kafka_topic, kafka_user, role, role_binding, cronjob, deployment, Operation, apply,
  delete_resource, post_schema_version, patch_configmap, rollout_restart,
}

-- `exc.status == code`
abbrev pub is_status : ℕ → Option ℕ → Bool
is_status code none = false
is_status code (some status) = status == code

-- `body["metadata"]["name"]` and `["namespace"]`, with empty texts for a body without metadata, which
-- no caller passes.
abbrev pub ref_of_body : Kind → Body → Ref
ref_of_body kind body = elim body.metadata [
  | none ↦ record { kind = kind; name = ""; namespace = "" }
  | some m ↦ record { kind = kind; name = m.name; namespace = m.namespace }
]

module _ (k : Kubernetes Ref Body) where
  abbrev pub Request : Type 0 → Type 0
  Request A = Action k.Server k.Exn A

  -- Create, and on a conflict patch; `_apply_custom` and the bodies of the other methods.
  unfoldable pub create_or_patch : Ref → Body → Request Unit
  create_or_patch ref body =
      try_except (k.create ref body)
        (λ exc. if is_status 409 (k.status exc) then k.patch ref body else raise exc)

  -- `except ApiException as exc: if exc.status != 404: raise`
  unfoldable pub ignore_missing : Request Unit → Request Unit
  ignore_missing request =
      try_except request (λ exc. if is_status 404 (k.status exc) then pure tt else raise exc)

  unfoldable pub apply_kafka_topic : String → String → ℕ → Request Unit
  apply_kafka_topic name namespace partitions =
      create_or_patch (record { kind = kafka_topic_kind; name = name; namespace = namespace })
        (kafka_topic_body name namespace partitions)

  unfoldable pub apply_kafka_user : String → String → String → List String → Request Unit
  apply_kafka_user name namespace topic operations =
      create_or_patch (record { kind = kafka_user_kind; name = name; namespace = namespace })
        (kafka_user_body name namespace topic operations)

  -- The spec that the caller passes is not read.
  unfoldable pub apply_deployment : String → String → Request Unit
  apply_deployment name namespace =
      create_or_patch (record { kind = deployment_kind; name = name; namespace = namespace })
        (deployment_body name namespace)

  unfoldable pub apply_cronjob : String → String → String → Request Unit
  apply_cronjob name namespace schedule =
      create_or_patch (record { kind = cronjob_kind; name = name; namespace = namespace })
        (cronjob_body name namespace schedule)

  unfoldable pub apply_role : Body → Request Unit
  apply_role body = create_or_patch (ref_of_body role_kind body) body

  unfoldable pub apply_role_binding : Body → Request Unit
  apply_role_binding body = create_or_patch (ref_of_body role_binding_kind body) body

  unfoldable pub delete_role : String → String → Request Unit
  delete_role name namespace =
      ignore_missing (k.delete (record { kind = role_kind; name = name; namespace = namespace }))

  unfoldable pub delete_role_binding : String → String → Request Unit
  delete_role_binding name namespace =
      ignore_missing
        (k.delete (record { kind = role_binding_kind; name = name; namespace = namespace }))

  unfoldable pub delete_deployment : String → String → Request Unit
  delete_deployment name namespace =
      ignore_missing
        (k.delete (record { kind = deployment_kind; name = name; namespace = namespace }))

  unfoldable pub delete_cronjob : String → String → Request Unit
  delete_cronjob name namespace =
      ignore_missing (k.delete (record { kind = cronjob_kind; name = name; namespace = namespace }))

  unfoldable pub delete_kafka_user : String → String → Request Unit
  delete_kafka_user name namespace =
      ignore_missing
        (k.delete (record { kind = kafka_user_kind; name = name; namespace = namespace }))

  unfoldable pub patch_data : String → String → List (String × String) → Request Unit
  patch_data name namespace members = ignore_missing (
      k.patch (record { kind = configmap_kind; name = name; namespace = namespace })
        (record { api_version = ""; kind = ""; metadata = none; spec = configmap_data members }))

  -- A new time in the template's annotations makes the pods start again.
  unfoldable pub restart_deployment : String → String → String → Request Unit
  restart_deployment now name namespace = ignore_missing (
      k.patch (record { kind = deployment_kind; name = name; namespace = namespace })
        (record { api_version = ""; kind = ""; metadata = none; spec = restarted_at now }))

  -- What the client inherits: these answer at once and ask nothing of the cluster.
  unfoldable pub list_cronjobs : Request (List String)
  list_cronjobs = pure []

  unfoldable pub get_kafka_consumer_lag : Request ℕ
  get_kafka_consumer_lag = pure 0

  unfoldable pub http_get : Request ℕ
  http_get = pure 200

  unfoldable pub suspend_cronjob : String → Request Unit
  suspend_cronjob name = pure tt

  unfoldable pub resume_cronjob : String → Request Unit
  resume_cronjob name = pure tt

  unfoldable pub wait_deployment_ready : String → Request Unit
  wait_deployment_ready name = pure tt

-- The client as the handlers of one connector call it: the topic and the rights of the user, the
-- manifests of the role and its binding, and the schedule are what `reconcile_connector` passes.
-- What else a handler may ask for is a parameter.
module _ (k : Kubernetes Ref Body) (connector namespace schedule : String)
    (other : Operation → Action k.Server k.Exn Unit) where
  unfoldable pub apply_resource : Resource → Action k.Server k.Exn Unit
  apply_resource (kafka_topic n) = apply_kafka_topic k n namespace 4
  apply_resource (kafka_user n) =
      apply_kafka_user k n namespace "raw-documents" ("Write" ∷ "Describe" ∷ [])
  apply_resource (role n) = apply_role k (make_connector_role connector namespace)
  apply_resource (role_binding n) =
      apply_role_binding k (make_connector_role_binding connector "connector-sa" namespace)
  apply_resource (cronjob n) = apply_cronjob k n namespace schedule
  apply_resource (deployment n) = apply_deployment k n namespace

  unfoldable pub remove_resource : Resource → Action k.Server k.Exn Unit
  remove_resource (kafka_topic n) = other (delete_resource (kafka_topic n))
  remove_resource (kafka_user n) = delete_kafka_user k n namespace
  remove_resource (role n) = delete_role k n namespace
  remove_resource (role_binding n) = delete_role_binding k n namespace
  remove_resource (cronjob n) = delete_cronjob k n namespace
  remove_resource (deployment n) = delete_deployment k n namespace

  unfoldable pub connector_answer : Operation → Action k.Server k.Exn Unit
  connector_answer (apply r) = apply_resource r
  connector_answer (delete_resource r) = remove_resource r
  connector_answer (post_schema_version t) = other (post_schema_version t)
  connector_answer (patch_configmap a b c) = other (patch_configmap a b c)
  connector_answer (rollout_restart n) = other (rollout_restart n)

  abbrev pub connector_client : Outside Operation
  connector_client = record { World = k.Server; Exn = k.Exn; answer = connector_answer }
