-- ===== src/Adapters/Storage.antt =====
-- src/adapters/storage_config.rs: the storage section.
use strimzi_backup_operator.Base.{
  String, ◌||◌, Option, none, some, [], ◌∷◌, is_some, and_then, map_some,
}
use strimzi_backup_operator.Error.{Result, ok, ◌>>=◌, ok_or, invalid_config}
use strimzi_backup_operator.Crd.Common.{SecretKeyRef}
use strimzi_backup_operator.Crd.Storage.{
  StorageSpec, S3StorageSpec, AzureStorageSpec, GcsStorageSpec, FilesystemStorageSpec, s3, azure,
  gcs, filesystem,
}
use strimzi_backup_operator.Adapters.Yaml.{Entries, end, text, bool, run, set, set_some, when}

unfoldable pub s3_section : S3StorageSpec → Entries
s3_section s =
    run
      (set "backend" (text "s3")
        ∷ set "bucket" (text s.bucket)
        ∷ set_some "region" text s.region
        ∷ set_some "prefix" text s.prefix
        ∷ set_some "endpoint" text s.endpoint
        ∷ set_some "path_style" bool s.force_path_style
        ∷ set_some "allow_http" bool s.allow_http
        ∷ when (is_some s.access_key_secret) (set "access_key" (text "${AWS_ACCESS_KEY_ID}"))
        ∷ when (is_some s.secret_key_secret) (set "secret_key" (text "${AWS_SECRET_ACCESS_KEY}"))
        ∷ [])
      end

unfoldable pub azure_section : AzureStorageSpec → Entries
azure_section a =
    run
      (set "backend" (text "azure")
        ∷ set "container_name" (text a.container)
        ∷ set "account_name" (text a.storage_account)
        ∷ set_some "prefix" text a.prefix
        ∷ when (is_some a.credentials_secret || is_some a.account_key_secret)
            (set "account_key" (text "${AZURE_STORAGE_KEY}"))
        ∷ when (is_some a.sas_token_secret) (set "sas_token" (text "${AZURE_STORAGE_SAS_TOKEN}"))
        ∷ when (is_some a.client_secret_secret)
            (set "client_secret" (text "${AZURE_CLIENT_SECRET}"))
        ∷ set_some "endpoint" text a.endpoint
        ∷ set_some "use_workload_identity" bool a.use_workload_identity
        ∷ set_some "client_id" text a.client_id
        ∷ set_some "tenant_id" text a.tenant_id
        ∷ [])
      end

-- The mounted credentials, else the given path.
abbrev gcs_account : GcsStorageSpec → Option String
gcs_account g = elim g.credentials_secret [
  | some _ ↦ some "/credentials/credentials"
  | none ↦ g.service_account_path
]

unfoldable pub gcs_section : GcsStorageSpec → Entries
gcs_section g =
    run
      (set "backend" (text "gcs")
        ∷ set "bucket" (text g.bucket)
        ∷ set_some "prefix" text g.prefix
        ∷ set_some "service_account_path" text (gcs_account g)
        ∷ [])
      end

unfoldable pub filesystem_section : FilesystemStorageSpec → Entries
filesystem_section f = run (set "backend" (text "filesystem") ∷ set "path" (text f.path) ∷ []) end

unfoldable pub build_storage_config : StorageSpec → Result Entries
unfolding s3_section azure_section gcs_section filesystem_section
build_storage_config storage = elim storage.storage_type [
  | s3 ↦ ok_or storage.s3 (invalid_config "Storage type is S3 but s3 config is missing") >>= λ s.
      ok (s3_section s)
  | azure ↦
      ok_or storage.azure (invalid_config "Storage type is Azure but azure config is missing")
      >>= λ a. ok (azure_section a)
  | gcs ↦
      ok_or storage.gcs (invalid_config "Storage type is GCS but gcs config is missing") >>= λ g.
      ok (gcs_section g)
  | filesystem ↦
      ok_or storage.filesystem
        (invalid_config "Storage type is Filesystem but filesystem config is missing")
      >>= λ f. ok (filesystem_section f)
]

abbrev pair : SecretKeyRef → String × String
pair r = (r.name, r.key)

unfoldable pub get_storage_credentials_secret : StorageSpec → Option (String × String)
get_storage_credentials_secret storage = elim storage.storage_type [
  | s3 ↦ map_some (and_then storage.s3 (λ s. s.credentials_secret)) pair
  | azure ↦ map_some (and_then storage.azure (λ a. a.credentials_secret)) pair
  | gcs ↦ map_some (and_then storage.gcs (λ g. g.credentials_secret)) pair
  | filesystem ↦ none
]
