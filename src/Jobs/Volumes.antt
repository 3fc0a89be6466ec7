-- ===== src/Jobs/Volumes.antt =====
-- src/jobs/templates.rs: `build_volumes_and_mounts`.
pub mod Provided
pub mod Files
pub mod References
pub mod Agreement
use strimzi_backup_operator.Base.{
  String, Bool, true, ◌||◌, Option, none, some, List, [], ◌∷◌, ◌++◌, or_else, if◌then◌else◌,
}
use strimzi_backup_operator.Crd.Common.{SecretKeyRef}
use strimzi_backup_operator.Crd.Storage.{
  StorageSpec, S3StorageSpec, AzureStorageSpec, GcsStorageSpec, s3, azure, gcs, filesystem,
}
use strimzi_backup_operator.Strimzi.Auth.{ResolvedAuth, tls, scram_sha512, no_auth}
use strimzi_backup_operator.Strimzi.Tls.{ca_secret_ref}
use strimzi_backup_operator.Adapters.Kafka.{is_tls_auth}
use strimzi_backup_operator.Jobs.Objects.{
  KeyToPath, VolumeSource, config_map, secret, Volume, VolumeMount, EnvVar, static, secret_key,
  field_ref,
}

-- The three vectors that the code pushes to.
pub record Attached : Type 0 where
  pub volumes : List Volume
  pub mounts : List VolumeMount
  pub env : List EnvVar

abbrev pub join : Attached → Attached → Attached
join a b = record {
  volumes = a.volumes ++ b.volumes;
  mounts = a.mounts ++ b.mounts;
  env = a.env ++ b.env;
}

abbrev pub nothing : Attached
nothing = record { volumes = []; mounts = []; env = [] }

abbrev pub mounted : String → VolumeSource → String → Attached
mounted name source mount_path = record {
  volumes = record { name = name; source = source } ∷ [];
  mounts = record { name = name; mount_path = mount_path; read_only = true } ∷ [];
  env = [];
}

abbrev pub with_env : EnvVar → Attached
with_env e = record { volumes = []; mounts = []; env = e ∷ [] }

unfoldable pub secret_env_var : String → String → String → EnvVar
secret_env_var name secret_name key = record { name = name; source = secret_key secret_name key }

unfoldable pub static_env_var : String → String → EnvVar
static_env_var name value = record { name = name; source = static value }

unfoldable pub job_name_env_var : String → EnvVar
job_name_env_var name = record {
  name = name;
  source = field_ref "metadata.labels['batch.kubernetes.io/job-name']";
}

abbrev item : String → String → Option (List KeyToPath)
item key path = some (record { key = key; path = path } ∷ [])

credentials_file_volume : SecretKeyRef → Attached
credentials_file_volume r =
    mounted "storage-credentials" (secret r.name (item r.key "credentials")) "/credentials"

-- An environment variable from a Secret, if there is one.
pub env_of : String → Option SecretKeyRef → Attached
unfolding secret_env_var
env_of name none = nothing
env_of name (some r) = with_env (secret_env_var name r.name r.key)

pub credentials_file : String → Option SecretKeyRef → Attached
unfolding credentials_file_volume static_env_var
credentials_file name none = nothing
credentials_file name (some r) =
    join (credentials_file_volume r) (with_env (static_env_var name "/credentials/credentials"))

s3_credentials : Option S3StorageSpec → Attached
unfolding env_of credentials_file
s3_credentials none = nothing
s3_credentials (some s) = join (env_of "AWS_ACCESS_KEY_ID" s.access_key_secret) (
    join (env_of "AWS_SECRET_ACCESS_KEY" s.secret_key_secret)
      (credentials_file "AWS_SHARED_CREDENTIALS_FILE" s.credentials_secret))

azure_credentials : Option AzureStorageSpec → Attached
unfolding env_of
azure_credentials none = nothing
azure_credentials (some a) =
    join (env_of "AZURE_STORAGE_KEY" (or_else a.account_key_secret a.credentials_secret)) (
      join (env_of "AZURE_STORAGE_SAS_TOKEN" a.sas_token_secret)
        (env_of "AZURE_CLIENT_SECRET" a.client_secret_secret))

gcs_credentials : Option GcsStorageSpec → Attached
unfolding credentials_file
gcs_credentials none = nothing
gcs_credentials (some g) = credentials_file "GOOGLE_APPLICATION_CREDENTIALS" g.credentials_secret

unfoldable pub storage_credentials : StorageSpec → Attached
unfolding s3_credentials azure_credentials gcs_credentials
storage_credentials storage = elim storage.storage_type [
  | s3 ↦ s3_credentials storage.s3
  | azure ↦ azure_credentials storage.azure
  | gcs ↦ gcs_credentials storage.gcs
  | filesystem ↦ nothing
]

unfoldable pub cluster_ca : String → Bool → ResolvedAuth → Option SecretKeyRef → Attached
unfolding is_tls_auth ca_secret_ref
cluster_ca cluster_name tls_enabled auth ca_override =
    if tls_enabled || is_tls_auth auth
    then mounted "cluster-ca"
        (secret (ca_secret_ref cluster_name ca_override).0
          (item (ca_secret_ref cluster_name ca_override).1 "ca.crt"))
        "/certs/cluster-ca"
    else nothing

unfoldable pub user_credentials : ResolvedAuth → Attached
unfolding secret_env_var
user_credentials (tls secret_name) = mounted "user-certs" (secret secret_name none) "/certs/user"
user_credentials (scram_sha512 _ secret_name password_key) =
    join (with_env (secret_env_var "KAFKA_SASL_PASSWORD" secret_name password_key))
      (mounted "user-certs" (secret secret_name (item password_key "password")) "/certs/user")
user_credentials no_auth = nothing

unfoldable pub build_volumes_and_mounts :
    String → String → Bool → ResolvedAuth → StorageSpec → Option SecretKeyRef → Attached
unfolding cluster_ca user_credentials storage_credentials
build_volumes_and_mounts config_map_name cluster_name tls_enabled auth storage ca_override =
    join (mounted "config" (config_map config_map_name) "/config") (
      join (cluster_ca cluster_name tls_enabled auth ca_override)
        (join (user_credentials auth) (storage_credentials storage)))
