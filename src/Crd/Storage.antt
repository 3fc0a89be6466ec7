-- ===== src/Crd/Storage.antt =====
-- src/crd/common.rs: the storage specifications.
use strimzi_backup_operator.Base.{String, Bool, Option}
use strimzi_backup_operator.Crd.Common.{SecretKeyRef}

pub data StorageType : Type 0 where
  s3 azure gcs filesystem : StorageType

pub record S3StorageSpec : Type 0 where
  pub bucket : String
  pub region : Option String
  pub prefix : Option String
  pub endpoint : Option String
  pub force_path_style : Option Bool
  pub allow_http : Option Bool
  pub credentials_secret : Option SecretKeyRef
  pub access_key_secret : Option SecretKeyRef
  pub secret_key_secret : Option SecretKeyRef

pub record AzureStorageSpec : Type 0 where
  pub container : String
  pub storage_account : String
  pub prefix : Option String
  pub credentials_secret : Option SecretKeyRef
  pub account_key_secret : Option SecretKeyRef
  pub sas_token_secret : Option SecretKeyRef
  pub client_secret_secret : Option SecretKeyRef
  pub endpoint : Option String
  pub use_workload_identity : Option Bool
  pub client_id : Option String
  pub tenant_id : Option String

pub record GcsStorageSpec : Type 0 where
  pub bucket : String
  pub prefix : Option String
  pub credentials_secret : Option SecretKeyRef
  pub service_account_path : Option String

pub record FilesystemStorageSpec : Type 0 where
  pub path : String

pub record StorageSpec : Type 0 where
  pub storage_type : StorageType
  pub s3 : Option S3StorageSpec
  pub azure : Option AzureStorageSpec
  pub gcs : Option GcsStorageSpec
  pub filesystem : Option FilesystemStorageSpec
