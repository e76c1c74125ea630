-- ===== src/Operator/Resources.antt =====
-- services/pipeline-operator/operator/handlers.py and the names of rbac.py: what the operator makes
-- for a DataConnector, a TenantWorkspace and an EmbeddingConfig, and what it takes away.
pub mod Lifecycle
mod Tests
use Prim.Native.String.{◌++◌}
use aidata_pipeline.Prelude.{
  ℕ, String, Bool, true, false, not, ◌&&◌, Option, none, some, List, [], ◌∷◌, ◌==◌, if◌then◌else◌,
}
use aidata_pipeline.Prelude.Action.{Action, Result, ok, err, pure, ◌>>=◌, ◌>>◌}
use aidata_pipeline.External.Calls.{Outside, Trace, call, attempt}

pub data Resource : Type 0 where
  kafka_topic kafka_user role role_binding cronjob deployment : String → Resource

pub data Operation : Type 0 where
  apply delete_resource : Resource → Operation
  post_schema_version : String → Operation
  patch_configmap : String → String → String → Operation
  rollout_restart : String → Operation

pub record ConnectorSpec : Type 0 where
  pub tenant_id : String
  pub source_type : String
  pub poll_interval : Option String

pub record EmbeddingSpec : Type 0 where
  pub tenant_id : Option String
  pub model : String
  pub backend : String
  pub device : String
  pub reindex_confirmed : Bool

-- How a handler ends: with a state set, or with the blocked state set and a `TemporaryError` raised
-- that asks for a delay in seconds.
pub data ResourceState : Type 0 where
  running provisioned applied : ResourceState
  blocked_dimension_change : ℕ → ResourceState

abbrev pub kafka_user_of : ConnectorSpec → String
kafka_user_of spec = "connector-" ++ (spec.tenant_id ++ ("-" ++ spec.source_type))

abbrev pub role_of : String → String
role_of name = "connector-" ++ (name ++ "-role")

abbrev pub binding_of : String → String
binding_of name = "connector-" ++ (name ++ "-rb")

-- The workload of a connector: a job on a schedule if it has an interval that is not empty, or a
-- deployment.
abbrev pub workload_at : Option String → String → Resource
workload_at none name = deployment ("connector-" ++ name)
workload_at (some String.[]) name = deployment ("connector-" ++ name)
workload_at (some interval) name = cronjob ("connector-" ++ name)

abbrev pub workload_of : ConnectorSpec → String → Resource
workload_of spec name = workload_at spec.poll_interval name

module _ (o : Outside Operation) where
  abbrev pub Run : Type 0 → Type 0
  Run A = Action (Trace o) o.Exn A

  -- `reconcile_connector`, which answers the state that it sets.
  unfoldable pub reconcile_connector : ConnectorSpec → String → Run ResourceState
  reconcile_connector spec name =
      call o (apply (kafka_topic "raw-documents"))
      >> call o (apply (kafka_user (kafka_user_of spec)))
      >> call o (apply (role (role_of name)))
      >> call o (apply (role_binding (binding_of name)))
      >> call o (apply (workload_of spec name))
      >> pure running

  unfoldable pub delete_connector : ConnectorSpec → String → Run Unit
  delete_connector spec name =
      call o (delete_resource (role (role_of name)))
      >> call o (delete_resource (role_binding (binding_of name)))
      >> call o (delete_resource (workload_of spec name))
      >> call o (delete_resource (kafka_user (kafka_user_of spec)))

  unfoldable pub reconcile_workspace : String → Run ResourceState
  reconcile_workspace tenant_id =
      call o (apply (cronjob ("upload-watcher-" ++ tenant_id))) >> pure provisioned

  unfoldable pub delete_workspace : String → Run Unit
  delete_workspace tenant_id = call o (delete_resource (cronjob ("upload-watcher-" ++ tenant_id)))

  -- `old_dim and new_dim and old_dim != new_dim and not spec.get("reindexConfirmed")`, where 0 is none.
  abbrev pub is_blocked : ℕ → ℕ → Bool → Bool
  is_blocked old_dim new_dim confirmed =
      not (old_dim == 0) && (not (new_dim == 0) && (not (old_dim == new_dim) && not confirmed))

  -- `if _METADATA_SERVICE_URL and spec.get("tenantId")`, whose call may fail without notice.
  abbrev pub record_schema_version : EmbeddingSpec → Run Unit
  record_schema_version spec = elim spec.tenant_id [
    | some t ↦ attempt o (post_schema_version t)
    | none ↦ pure tt
  ]

  -- `reconcile_embedding` between the old and the new dimension; a blocked change does
  -- nothing else.
  unfoldable pub reconcile_embedding : EmbeddingSpec → ℕ → ℕ → Run ResourceState
  reconcile_embedding spec old_dim new_dim =
      if is_blocked old_dim new_dim spec.reindex_confirmed
      then pure (blocked_dimension_change 60)
      else record_schema_version spec
        >> call o (patch_configmap spec.backend spec.model spec.device)
        >> call o (rollout_restart "embedding-worker")
        >> pure applied
