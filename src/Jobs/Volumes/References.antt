-- ===== src/Jobs/Volumes/References.antt =====
-- What the configurations of src/adapters refer to, and what src/jobs/templates.rs attaches for the
-- cluster.
use strimzi_backup_operator.Base.{
  String, ◌≡◌, refl, Bool, true, false, Option, none, some, arith, if◌then◌else◌,
}
use strimzi_backup_operator.Crd.Common.{SecretKeyRef}
use strimzi_backup_operator.Crd.Storage.{
  StorageSpec, StorageType, S3StorageSpec, AzureStorageSpec, GcsStorageSpec, s3, azure, gcs,
  filesystem,
}
use strimzi_backup_operator.Adapters.Yaml.{Entries, text, insert, same_key, lookup}
use strimzi_backup_operator.Adapters.Kafka.{security_section, is_tls_auth, auth_settings}
use strimzi_backup_operator.Strimzi.Cluster.{ResolvedKafkaCluster}
use strimzi_backup_operator.Strimzi.Auth.{ResolvedAuth, tls, scram_sha512, no_auth}
use strimzi_backup_operator.Jobs.Objects.{VolumeSource}
use strimzi_backup_operator.Jobs.Volumes.{
  Attached, join, s3_credentials, azure_credentials, gcs_credentials, storage_credentials, nothing,
  secret_env_var,
}
use strimzi_backup_operator.Jobs.Volumes.Provided.{
  Credential, access_key, secret_key, account_key, sas_token, client_secret, key_of, variable_of,
  placeholder_of, has_env, has_env-join, has_env-env_of, has_env-file,
}
use strimzi_backup_operator.Jobs.Volumes.{cluster_ca, user_credentials, mounted}
use strimzi_backup_operator.Jobs.Volumes.Files.{has_file}

-- What a configuration refers to: a storage credential or the password, by a variable, or a file of
-- the certificates.
pub data Reference : Type 0 where
  credential : Credential → Reference
  password authority certificate private_key : Reference

abbrev pub section_of : Reference → ResolvedKafkaCluster → ResolvedAuth → Entries → Entries
section_of (credential c) cluster auth storage = storage
section_of _ cluster auth storage = security_section cluster auth

abbrev pub name_of : Reference → String
name_of (credential c) = key_of c
name_of password = "sasl_password"
name_of authority = "ssl_ca_location"
name_of certificate = "ssl_certificate_location"
name_of private_key = "ssl_key_location"

abbrev pub referred : Reference → String
referred (credential c) = placeholder_of c
referred password = "${KAFKA_SASL_PASSWORD}"
referred authority = "/certs/cluster-ca/ca.crt"
referred certificate = "/certs/user/user.crt"
referred private_key = "/certs/user/user.key"

abbrev pub is_provided : Reference → Attached → Bool
is_provided (credential c) attached = has_env (variable_of c) attached
is_provided password attached = has_env "KAFKA_SASL_PASSWORD" attached
is_provided authority attached = has_file "cluster-ca" "/certs/cluster-ca" "ca.crt" attached
is_provided certificate attached = has_file "user-certs" "/certs/user" "user.crt" attached
is_provided private_key attached = has_file "user-certs" "/certs/user" "user.key" attached

abbrev pub IsFree : Attached → Type 0
IsFree a = has_env "KAFKA_SASL_PASSWORD" a ≡ false

IsFree-s3 : (o : Option S3StorageSpec) → IsFree (s3_credentials o)
unfolding s3_credentials
IsFree-s3 none = refl
IsFree-s3 (some s) = simp (has_env-join, has_env-env_of, has_env-file) (ground arith)

IsFree-azure : (o : Option AzureStorageSpec) → IsFree (azure_credentials o)
unfolding azure_credentials
IsFree-azure none = refl
IsFree-azure (some a) = simp (has_env-join, has_env-env_of) (ground arith)

IsFree-gcs : (o : Option GcsStorageSpec) → IsFree (gcs_credentials o)
unfolding gcs_credentials
IsFree-gcs none = refl
IsFree-gcs (some g) = simp has_env-file (ground arith)

-- The password of the cluster is no variable of a storage.
pub IsFree-storage :
    (storage : StorageSpec) (kind : StorageType)
    → IsFree (storage_credentials (record storage { storage_type = kind }))
unfolding storage_credentials
IsFree-storage storage s3 = IsFree-s3 storage.s3
IsFree-storage storage azure = IsFree-azure storage.azure
IsFree-storage storage gcs = IsFree-gcs storage.gcs
IsFree-storage storage filesystem = refl

-- What is attached for the cluster has no variable of a storage, and its CA none at all.
pub ca_variables :
    (name : String) (tls_enabled : Bool) (volume : String) (source : VolumeSource) (path : String)
    → has_env name (if tls_enabled then mounted volume source path else nothing) ≡ false
ca_variables name true volume source path = refl
ca_variables name false volume source path = refl

pub user_variables :
    (auth : ResolvedAuth) (c : Credential) → has_env (variable_of c) (user_credentials auth) ≡ false
unfolding user_credentials secret_env_var
user_variables (tls s) c = refl
user_variables no_auth c = refl
user_variables (scram_sha512 u s k) access_key = refl
user_variables (scram_sha512 u s k) secret_key = refl
user_variables (scram_sha512 u s k) account_key = refl
user_variables (scram_sha512 u s k) sas_token = refl
user_variables (scram_sha512 u s k) client_secret = refl

-- The security section refers to what is attached for the cluster, and to no more.
module _ (cluster : ResolvedKafkaCluster) (ca : Option SecretKeyRef) where
  abbrev pub own : Bool → ResolvedAuth → Attached
  own tls_enabled auth = join (cluster_ca cluster.name tls_enabled auth ca) (user_credentials auth)

  abbrev pub IsOwn : Reference → Bool → ResolvedAuth → Type 0
  IsOwn r tls_enabled auth =
      lookup (name_of r) (security_section (record cluster { tls_enabled = tls_enabled }) auth)
      ≡ (if is_provided r (own tls_enabled auth) then some (text (referred r)) else none)

  pub password-IsOwn : (tls_enabled : Bool) (auth : ResolvedAuth) → IsOwn password tls_enabled auth
  unfolding security_section cluster_ca user_credentials secret_env_var lookup insert same_key
      is_tls_auth auth_settings
  password-IsOwn true (tls s) = refl
  password-IsOwn true no_auth = refl
  password-IsOwn true (scram_sha512 u s k) = refl
  password-IsOwn false (tls s) = refl
  password-IsOwn false no_auth = refl
  password-IsOwn false (scram_sha512 u s k) = refl

  pub authority-IsOwn :
      (tls_enabled : Bool) (auth : ResolvedAuth) → IsOwn authority tls_enabled auth
  unfolding security_section cluster_ca user_credentials secret_env_var lookup insert same_key
      is_tls_auth auth_settings
  authority-IsOwn true (tls s) = refl
  authority-IsOwn true no_auth = refl
  authority-IsOwn true (scram_sha512 u s k) = refl
  authority-IsOwn false (tls s) = refl
  authority-IsOwn false no_auth = refl
  authority-IsOwn false (scram_sha512 u s k) = refl

  pub certificate-IsOwn :
      (tls_enabled : Bool) (auth : ResolvedAuth) → IsOwn certificate tls_enabled auth
  unfolding security_section cluster_ca user_credentials secret_env_var lookup insert same_key
      is_tls_auth auth_settings
  certificate-IsOwn true (tls s) = refl
  certificate-IsOwn true no_auth = refl
  certificate-IsOwn true (scram_sha512 u s k) = refl
  certificate-IsOwn false (tls s) = refl
  certificate-IsOwn false no_auth = refl
  certificate-IsOwn false (scram_sha512 u s k) = refl

  pub private_key-IsOwn :
      (tls_enabled : Bool) (auth : ResolvedAuth) → IsOwn private_key tls_enabled auth
  unfolding security_section cluster_ca user_credentials secret_env_var lookup insert same_key
      is_tls_auth auth_settings
  private_key-IsOwn true (tls s) = refl
  private_key-IsOwn true no_auth = refl
  private_key-IsOwn true (scram_sha512 u s k) = refl
  private_key-IsOwn false (tls s) = refl
  private_key-IsOwn false no_auth = refl
  private_key-IsOwn false (scram_sha512 u s k) = refl
