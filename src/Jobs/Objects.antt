-- ===== src/Jobs/Objects.antt =====
-- The fields of k8s_openapi's types that src/jobs sets; every other field has its default.
use strimzi_backup_operator.Base.{ℕ, String, Bool, Option, List}
use strimzi_backup_operator.Base.Int.{ℤ}
use strimzi_backup_operator.Json.{Json}

pub record KeyToPath : Type 0 where
  pub key : String
  pub path : String

pub data VolumeSource : Type 0 where
  config_map : (name : String) → VolumeSource
  secret : (secret_name : String) → (items : Option (List KeyToPath)) → VolumeSource

pub record Volume : Type 0 where
  pub name : String
  pub source : VolumeSource

pub record VolumeMount : Type 0 where
  pub name : String
  pub mount_path : String
  pub read_only : Bool

-- Where an environment variable's value comes from; `other` is one that a resource passes through.
pub data EnvSource : Type 0 where
  static : String → EnvSource
  secret_key : (name key : String) → EnvSource
  field_ref : (field_path : String) → EnvSource
  other : Json → EnvSource

pub record EnvVar : Type 0 where
  pub name : String
  pub source : EnvSource

pub record ContainerPort : Type 0 where
  pub name : String
  pub container_port : ℕ
  pub protocol : String

pub record ResourceRequirements : Type 0 where
  pub requests : Option (List (String × String))
  pub limits : Option (List (String × String))

pub record Container : Type 0 where
  pub name : String
  pub image : String
  pub command : List String
  pub args : List String
  pub env : Option (List EnvVar)
  pub ports : Option (List ContainerPort)
  pub volume_mounts : List VolumeMount
  pub resources : Option ResourceRequirements
  pub security_context : Option Json

-- A pod of one container.
pub record PodSpec : Type 0 where
  pub container : Container
  pub volumes : List Volume
  pub restart_policy : String
  pub service_account_name : Option String
  pub affinity : Option Json
  pub tolerations : Option (List Json)
  pub security_context : Option Json
  pub image_pull_secrets : Option (List Json)
  pub host_aliases : Option (List Json)

pub record OwnerReference : Type 0 where
  pub api_version : String
  pub kind : String
  pub name : String
  pub uid : String
  pub controller : Bool
  pub block_owner_deletion : Bool

pub record JobSpec : Type 0 where
  pub backoff_limit : ℤ
  pub pod_labels : List (String × String)
  pub pod : PodSpec

pub record JobObject : Type 0 where
  pub name : String
  pub namespace : String
  pub labels : List (String × String)
  pub annotations : Option (List (String × String))
  pub owner : OwnerReference
  pub spec : JobSpec

pub record CronJobObject : Type 0 where
  pub name : String
  pub namespace : String
  pub labels : List (String × String)
  pub owner : OwnerReference
  pub schedule : String
  pub time_zone : Option String
  pub suspend : Bool
  pub concurrency_policy : String
  pub successful_jobs_history_limit : ℕ
  pub failed_jobs_history_limit : ℕ
  pub job_labels : List (String × String)
  pub job_spec : JobSpec

-- What serde_json converts: an environment variable, and whether a free-form value is one of a type.
pub record Conversions : Type 0 where
  pub env_var : Json → Option EnvVar
  pub is_affinity : Json → Bool
  pub is_toleration : Json → Bool
  pub is_pod_security_context : Json → Bool
  pub is_pull_secret : Json → Bool
  pub is_container_security_context : Json → Bool
