-- ===== src/Retention/Storage/Open.antt =====
-- `build_store` of src/retention/storage.rs. The stores that the builders of the object_store crate
-- make are a parameter, `Backends`; a builder is the record of what the code sets on it.
use strimzi_backup_operator.Base.{
  String, Bool, true, false, ◌||◌, Option, none, some, List, and_then, is_some, is_some_and,
  map_some, unwrap_or, or_else, if◌then◌else◌,
}
use strimzi_backup_operator.Base.Text.{starts_with}
use strimzi_backup_operator.Error.{Result, ok, err, ◌>>=◌, ok_or, invalid_config, storage}
use strimzi_backup_operator.Crd.Common.{SecretKeyRef}
use strimzi_backup_operator.Crd.Storage.{StorageSpec, StorageType, S3StorageSpec}
use strimzi_backup_operator.Strimzi.Reads.{Reads, get_secret, extract_secret_data}
use strimzi_backup_operator.Retention.Storage.{
  ObjectStore, BackupObjectStore, normalize_optional_prefix,
}
use strimzi_backup_operator.Retention.Storage.Credentials.{
  AwsSharedCredentials, parse_aws_shared_credentials, sas_token_pairs,
}

-- `AmazonS3Builder::from_env()`, with what is set on it
pub record S3Builder : Type 0 where
  pub bucket_name : String
  pub region : Option String
  pub endpoint : Option String
  pub virtual_hosted_style_request : Option Bool
  pub allow_http : Option Bool
  pub access_key_id : Option String
  pub secret_access_key : Option String
  pub token : Option String

-- `MicrosoftAzureBuilder::new()`, with what is set on it
pub record AzureBuilder : Type 0 where
  pub account : String
  pub container_name : String
  pub endpoint : Option String
  pub allow_http : Option Bool
  pub access_key : Option String
  pub sas_authorization : Option (List (String × String))
  pub client_id : Option String
  pub tenant_id : Option String
  pub client_secret : Option String
  pub federated_token_file : Option String
  pub use_azure_cli : Option Bool

-- `GoogleCloudStorageBuilder::new()`, with what is set on it
pub record GcsBuilder : Type 0 where
  pub bucket_name : String
  pub service_account_key : Option String
  pub service_account_path : Option String

-- What a builder makes: a store, or the text of an error.
pub data Built : Type 0 where
  built : ObjectStore → Built
  failed : (display : String) → Built

pub record Backends : Type 0 where
  pub s3 : S3Builder → Built
  pub azure : AzureBuilder → Built
  pub gcs : GcsBuilder → Built
  -- `LocalFileSystem::new_with_prefix`
  pub filesystem : (path : String) → Built
  -- The variable `AZURE_FEDERATED_TOKEN_FILE`
  pub federated_token_file : Option String

-- `BackupObjectStore::new` of what was built
unfoldable pub opened : Built → Option String → Result BackupObjectStore
unfolding normalize_optional_prefix
opened (built store) prefix =
    ok (record { store = store; prefix = normalize_optional_prefix prefix })
opened (failed text) prefix = err (storage text)

module _ (backends : Backends) (reads : Reads) (namespace : String) where
  -- The value that a reference names.
  read_key : SecretKeyRef → Result String
  unfolding get_secret extract_secret_data
  read_key secret_ref = do
    secret ← get_secret reads secret_ref.name namespace
    extract_secret_data secret secret_ref.key

  -- The value of a reference, where there is one.
  unfoldable pub read_optional : Option SecretKeyRef → Result (Option String)
  unfolding read_key
  read_optional none = ok none
  read_optional (some secret_ref) = read_key secret_ref >>= λ value. ok (some value)

  -- The access key, the secret key and the token: a key of its own comes before the shared file's.
  unfoldable pub s3_credentials : S3StorageSpec → Result AwsSharedCredentials
  unfolding read_optional parse_aws_shared_credentials
  s3_credentials s3 = do
    file ← read_optional s3.credentials_secret
    let parsed = map_some file parse_aws_shared_credentials
    access_key ← read_optional s3.access_key_secret
    secret_key ← read_optional s3.secret_key_secret
    ok (record {
      access_key_id = or_else access_key (and_then parsed (λ c. c.access_key_id));
      secret_access_key = or_else secret_key (and_then parsed (λ c. c.secret_access_key));
      session_token = and_then parsed (λ c. c.session_token);
    })

  unfoldable pub build_s3_store : StorageSpec → Result BackupObjectStore
  unfolding s3_credentials opened
  build_s3_store spec = do
    s3 ← ok_or spec.s3 (invalid_config "Storage type is S3 but s3 config is missing")
    credentials ← s3_credentials s3
    opened
        (backends.s3 (record {
          bucket_name = s3.bucket;
          region = s3.region;
          endpoint = s3.endpoint;
          virtual_hosted_style_request =
              if is_some s3.endpoint || unwrap_or s3.force_path_style false
              then some false
              else none;
          allow_http = if unwrap_or s3.allow_http false then some true else none;
          access_key_id = credentials.access_key_id;
          secret_access_key = credentials.secret_access_key;
          token = credentials.session_token;
        }))
        s3.prefix

  unfoldable pub build_azure_store : StorageSpec → Result BackupObjectStore
  unfolding read_optional sas_token_pairs starts_with opened
  build_azure_store spec = do
    azure ← ok_or spec.azure (invalid_config "Storage type is Azure but azure config is missing")
    access_key ← read_optional (or_else azure.account_key_secret azure.credentials_secret)
    sas_token ← read_optional azure.sas_token_secret
    client_secret ← read_optional azure.client_secret_secret
    let workload = unwrap_or azure.use_workload_identity false
    opened
        (backends.azure (record {
          account = azure.storage_account;
          container_name = azure.container;
          endpoint = azure.endpoint;
          allow_http =
              if is_some_and azure.endpoint (starts_with "http://") then some true else none;
          access_key = access_key;
          sas_authorization = map_some sas_token sas_token_pairs;
          client_id = azure.client_id;
          tenant_id = azure.tenant_id;
          client_secret = client_secret;
          federated_token_file = if workload then backends.federated_token_file else none;
          use_azure_cli = if workload then some false else none;
        }))
        azure.prefix

  unfoldable pub build_gcs_store : StorageSpec → Result BackupObjectStore
  unfolding read_optional opened
  build_gcs_store spec = do
    gcs ← ok_or spec.gcs (invalid_config "Storage type is GCS but gcs config is missing")
    key ← read_optional gcs.credentials_secret
    opened
        (backends.gcs (record {
          bucket_name = gcs.bucket;
          service_account_key = key;
          service_account_path =
              if is_some gcs.credentials_secret then none else gcs.service_account_path;
        }))
        gcs.prefix

  unfoldable pub build_filesystem_store : StorageSpec → Result BackupObjectStore
  unfolding opened
  build_filesystem_store spec = do
    filesystem ←
        ok_or spec.filesystem
          (invalid_config "Storage type is Filesystem but filesystem config is missing")
    opened (backends.filesystem filesystem.path) none

  unfoldable pub build_store : StorageSpec → Result BackupObjectStore
  unfolding build_s3_store build_azure_store build_gcs_store build_filesystem_store
  build_store spec = elim spec.storage_type [
    | StorageType.s3 ↦ build_s3_store spec
    | StorageType.azure ↦ build_azure_store spec
    | StorageType.gcs ↦ build_gcs_store spec
    | StorageType.filesystem ↦ build_filesystem_store spec
  ]
