-- ===== src/Crd/Common.antt =====
-- src/crd/common.rs: the parts of the specifications that both resources share.
-- A BTreeMap is its list of entries; a free-form JSON value is the type `Json` of Strimzi.Json.
use strimzi_backup_operator.Base.{ℕ, String, Bool, Option, List}
use strimzi_backup_operator.Json.{Json}

pub record SecretKeyRef : Type 0 where
  pub name : String
  pub key : String

pub record ResourceRequirementsSpec : Type 0 where
  pub requests : List (String × String)
  pub limits : List (String × String)

pub record StrimziClusterRef : Type 0 where
  pub name : String
  pub namespace : Option String
  pub ca_secret : Option SecretKeyRef
  pub listener : Option String

pub data AuthenticationType : Type 0 where
  tls scram_sha512 : AuthenticationType

pub record KafkaUserRef : Type 0 where
  pub name : String

pub record CertificateAndKeySecretRef : Type 0 where
  pub secret_name : String
  pub certificate : String
  pub key : String

pub record AuthenticationSpec : Type 0 where
  pub auth_type : AuthenticationType
  pub kafka_user_ref : Option KafkaUserRef
  pub certificate_and_key : Option CertificateAndKeySecretRef
  pub password_secret : Option SecretKeyRef
  pub username : Option String

pub record TopicSelection : Type 0 where
  pub include : List String
  pub exclude : List String

pub record ConsumerGroupSelection : Type 0 where
  pub include : List String
  pub exclude : List String

pub record KafkaConnectionSpec : Type 0 where
  pub tcp_keepalive : Option Bool
  pub keepalive_time_secs : Option ℕ
  pub keepalive_interval_secs : Option ℕ
  pub tcp_nodelay : Option Bool
  pub connections_per_broker : Option ℕ

pub record LoggingRotationSpec : Type 0 where
  pub max_size_mb : Option ℕ
  pub max_files : Option ℕ

pub record LoggingSpec : Type 0 where
  pub level : Option String
  pub format : Option String
  pub output : Option String
  pub modules : List (String × String)
  pub rotation : Option LoggingRotationSpec

pub record MetricsSpec : Type 0 where
  pub enabled : Option Bool
  pub port : Option ℕ
  pub bind_address : Option String
  pub path : Option String
  pub keep_alive_seconds : Option ℕ
  pub update_interval_ms : Option ℕ
  pub max_partition_labels : Option ℕ

pub record OffsetStorageSpec : Type 0 where
  pub backend : Option String
  pub db_path : Option String
  pub s3_key : Option String
  pub sync_interval_secs : Option ℕ

pub record PodMetadata : Type 0 where
  pub labels : List (String × String)
  pub annotations : List (String × String)

-- The host aliases are typed in the source and passed through whole.
pub record PodOverrides : Type 0 where
  pub metadata : Option PodMetadata
  pub affinity : Option Json
  pub tolerations : List Json
  pub security_context : Option Json
  pub image_pull_secrets : List Json
  pub host_aliases : List Json
  pub service_account_name : Option String

pub record ContainerOverrides : Type 0 where
  pub env : List Json
  pub security_context : Option Json

pub record PodTemplateSpec : Type 0 where
  pub pod : Option PodOverrides
  pub container : Option ContainerOverrides
