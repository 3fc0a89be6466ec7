-- ===== src/Tests/Attachments.antt =====
-- What a Job of a backup in Azure is given.
use strimzi_backup_operator.Base.{◌≡◌, refl, true, none, some, if◌then◌else◌}
use strimzi_backup_operator.Base.Int.{pos}
use strimzi_backup_operator.Error.{ok}
use strimzi_backup_operator.Crd.Storage.{StorageSpec, StorageType, AzureStorageSpec}
use strimzi_backup_operator.Strimzi.Cluster.{ResolvedKafkaCluster}
use strimzi_backup_operator.Strimzi.Auth.{ResolvedAuth, scram_sha512}
use strimzi_backup_operator.Adapters.Yaml.{insert, lookup, text}
use strimzi_backup_operator.Adapters.Storage.{azure_section, build_storage_config}
use strimzi_backup_operator.Jobs.Volumes.{build_volumes_and_mounts}
use strimzi_backup_operator.Jobs.Volumes.Provided.{account_key}
use strimzi_backup_operator.Jobs.Volumes.References.{credential, is_provided}
use strimzi_backup_operator.Jobs.Volumes.Agreement.{build_volumes_and_mounts_provides}

abbrev main : ResolvedKafkaCluster
main = record {
  name = "main";
  namespace = "kafka";
  bootstrap_servers = "main-kafka-bootstrap:9093";
  replicas = pos 3;
  tls_enabled = true;
  listener_name = "tls";
}

abbrev user : ResolvedAuth
user = scram_sha512 "backup" "backup-user" "password"

-- The account's key is in the Secret of the credentials.
abbrev container : AzureStorageSpec
container = record {
  container = "backups";
  storage_account = "kafka";
  prefix = none;
  credentials_secret = some (record { name = "azure"; key = "key" });
  account_key_secret = none;
  sas_token_secret = none;
  client_secret_secret = none;
  endpoint = none;
  use_workload_identity = none;
  client_id = none;
  tenant_id = none;
}

abbrev in_azure : StorageSpec
in_azure = record {
  storage_type = StorageType.azure;
  s3 = none;
  azure = some container;
  gcs = none;
  filesystem = none;
}

azure_builds : build_storage_config in_azure ≡ ok (azure_section container)
unfolding build_storage_config
azure_builds = refl

build_volumes_and_mounts_provides_example : lookup "account_key" (azure_section container) ≡ (
    if is_provided
      (credential account_key)
      (build_volumes_and_mounts "backup-config" "main" true user in_azure none)
    then some (text "${AZURE_STORAGE_KEY}")
    else none)
build_volumes_and_mounts_provides_example =
    build_volumes_and_mounts_provides "backup-config" main user in_azure none
      (azure_section container) (credential account_key) azure_builds

key_is_referred :
    lookup "account_key" (azure_section container) ≡ some (text "${AZURE_STORAGE_KEY}")
unfolding lookup insert azure_section
key_is_referred = refl
