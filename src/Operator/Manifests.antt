-- ===== src/Operator/Manifests.antt =====
-- services/pipeline-operator/operator/k8s_real_client.py and rbac.py: the manifests that the operator
-- sends, as records with the members that the code writes.
use Prim.Native.String.{◌++◌}
use aidata_pipeline.Prelude.{ℕ, String, Bool, true, false, Option, none, some, List, [], ◌∷◌}

pub data Kind : Type 0 where
  kafka_topic_kind kafka_user_kind deployment_kind cronjob_kind role_kind role_binding_kind : Kind
  configmap_kind : Kind

-- Where an object is.
pub record Ref : Type 0 where
  pub kind : Kind
  pub name : String
  pub namespace : String

pub record Metadata : Type 0 where
  pub name : String
  pub namespace : String
  pub labels : List (String × String)

pub record Acl : Type 0 where
  pub resource_type : String
  pub resource_name : String
  pub pattern_type : String
  pub operations : List String

pub record Resources : Type 0 where
  pub cpu : String
  pub memory : String

pub record Container : Type 0 where
  pub name : String
  pub image : String
  pub allow_privilege_escalation : Bool
  pub read_only_root_filesystem : Bool
  pub drop_capabilities : List String
  pub requests : Resources
  pub limits : Resources

pub record PodSpec : Type 0 where
  pub automount_service_account_token : Bool
  pub run_as_non_root : Bool
  pub run_as_user : ℕ
  pub run_as_group : ℕ
  pub seccomp_profile : String
  pub restart_policy : Option String
  pub containers : List Container

pub record Rule : Type 0 where
  pub api_groups : List String
  pub resources : List String
  pub resource_names : List String
  pub verbs : List String

pub record Subject : Type 0 where
  pub kind : String
  pub name : String
  pub namespace : String

pub record RoleRef : Type 0 where
  pub kind : String
  pub name : String
  pub api_group : String

-- The `spec` of an object, or what it has instead.
pub data Spec : Type 0 where
  topic_spec : (partitions replicas : ℕ) → Spec
  user_spec : (authentication authorization : String) → List Acl → Spec
  deployment_spec :
      (replicas : ℕ) → (match_labels template_labels : List (String × String)) → PodSpec → Spec
  cronjob_spec : (schedule : String) → PodSpec → Spec
  role_rules : List Rule → Spec
  binding_of_role : List Subject → RoleRef → Spec
  configmap_data : List (String × String) → Spec
  restarted_at : String → Spec

-- A patch of a part of an object has no metadata.
pub record Body : Type 0 where
  pub api_version : String
  pub kind : String
  pub metadata : Option Metadata
  pub spec : Spec

abbrev pub kafka_cluster : String
kafka_cluster = "ai-pipeline-kafka"

abbrev pub field_manager : String
field_manager = "pipeline-operator"

unfoldable pub kafka_topic_body : String → String → ℕ → Body
kafka_topic_body name namespace partitions = record {
  api_version = "kafka.strimzi.io/v1";
  kind = "KafkaTopic";
  metadata = some (record {
    name = name;
    namespace = namespace;
    labels = ("strimzi.io/cluster", kafka_cluster) ∷ [];
  });
  spec = topic_spec partitions 1;
}

unfoldable pub kafka_user_body : String → String → String → List String → Body
kafka_user_body name namespace topic operations = record {
  api_version = "kafka.strimzi.io/v1";
  kind = "KafkaUser";
  metadata = some (record {
    name = name;
    namespace = namespace;
    labels = ("strimzi.io/cluster", kafka_cluster) ∷ [];
  });
  spec = user_spec "tls" "simple" (
      record {
        resource_type = "topic";
        resource_name = topic;
        pattern_type = "literal";
        operations = operations;
      }
      ∷ []);
}

unfoldable pub deployment_body : String → String → Body
deployment_body name namespace = record {
  api_version = "apps/v1";
  kind = "Deployment";
  metadata = some (record {
    name = name;
    namespace = namespace;
    labels = ("app", name) ∷ ("managed-by", field_manager) ∷ [];
  });
  spec = deployment_spec 1 (("app", name) ∷ []) (("app", name) ∷ []) (record {
    automount_service_account_token = false;
    run_as_non_root = true;
    run_as_user = 65534;
    run_as_group = 65534;
    seccomp_profile = "RuntimeDefault";
    restart_policy = none;
    containers =
        record {
          name = "connector";
          image = "registry.k8s.io/pause:3.9";
          allow_privilege_escalation = false;
          read_only_root_filesystem = true;
          drop_capabilities = "ALL" ∷ [];
          requests = record { cpu = "10m"; memory = "16Mi" };
          limits = record { cpu = "100m"; memory = "64Mi" };
        }
        ∷ [];
  });
}

unfoldable pub cronjob_body : String → String → String → Body
cronjob_body name namespace schedule = record {
  api_version = "batch/v1";
  kind = "CronJob";
  metadata = some (record {
    name = name;
    namespace = namespace;
    labels = ("app", name) ∷ ("managed-by", field_manager) ∷ [];
  });
  spec = cronjob_spec schedule (record {
    automount_service_account_token = false;
    run_as_non_root = true;
    run_as_user = 65534;
    run_as_group = 65534;
    seccomp_profile = "RuntimeDefault";
    restart_policy = some "OnFailure";
    containers =
        record {
          name = "watcher";
          image = "registry.k8s.io/pause:3.9";
          allow_privilege_escalation = false;
          read_only_root_filesystem = true;
          drop_capabilities = "ALL" ∷ [];
          requests = record { cpu = "10m"; memory = "16Mi" };
          limits = record { cpu = "50m"; memory = "32Mi" };
        }
        ∷ [];
  });
}

-- `connector_secret_name`
abbrev pub connector_secret_name : String → String
connector_secret_name connector_name = "connector-" ++ (connector_name ++ "-creds")

unfoldable pub make_connector_role : String → String → Body
make_connector_role connector_name namespace = record {
  api_version = "rbac.authorization.k8s.io/v1";
  kind = "Role";
  metadata = some (record {
    name = "connector-" ++ (connector_name ++ "-role");
    namespace = namespace;
    labels = [];
  });
  spec = role_rules (
      record {
        api_groups = "" ∷ [];
        resources = "configmaps" ∷ [];
        resource_names = "pipeline-config" ∷ [];
        verbs = "get" ∷ "watch" ∷ [];
      }
      ∷ record {
        api_groups = "" ∷ [];
        resources = "secrets" ∷ [];
        resource_names = connector_secret_name connector_name ∷ [];
        verbs = "get" ∷ [];
      }
      ∷ []);
}

unfoldable pub make_connector_role_binding : String → String → String → Body
make_connector_role_binding connector_name service_account namespace = record {
  api_version = "rbac.authorization.k8s.io/v1";
  kind = "RoleBinding";
  metadata = some (record {
    name = "connector-" ++ (connector_name ++ "-rb");
    namespace = namespace;
    labels = [];
  });
  spec =
      binding_of_role
        (record { kind = "ServiceAccount"; name = service_account; namespace = namespace } ∷ [])
        (record {
          kind = "Role";
          name = "connector-" ++ (connector_name ++ "-role");
          api_group = "rbac.authorization.k8s.io";
        });
}
