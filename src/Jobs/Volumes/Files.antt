-- ===== src/Jobs/Volumes/Files.antt =====
-- The files that src/jobs/templates.rs mounts: no file of the cluster is one of the storage.
use strimzi_backup_operator.Base.{
  String, ◌==◌, ◌≡◌, ◌∙◌, refl, ◌&&◌, Bool, true, false, Option, none, some, any, any-append,
  or_else, arith,
}
use strimzi_backup_operator.Crd.Common.{SecretKeyRef}
use strimzi_backup_operator.Crd.Storage.{
  StorageSpec, StorageType, S3StorageSpec, AzureStorageSpec, GcsStorageSpec, s3, azure, gcs,
  filesystem,
}
use strimzi_backup_operator.Jobs.Objects.{VolumeSource, config_map, secret}
use strimzi_backup_operator.Jobs.Volumes.{
  Attached, join, env_of, credentials_file, s3_credentials, azure_credentials, gcs_credentials,
  storage_credentials, credentials_file_volume,
}
use strimzi_backup_operator.Jobs.Volumes.{mounted}

-- A volume of this name has every key of a Secret, or the given file of it.
abbrev gives : String → VolumeSource → Bool
gives file (config_map _) = false
gives file (secret _ none) = true
gives file (secret _ (some items)) = any (λ i. i.path == file) items

abbrev pub has_mount : (volume directory : String) → Attached → Bool
has_mount volume directory attached =
    any (λ m. m.name == volume && m.mount_path == directory) attached.mounts

abbrev pub has_volume : (volume file : String) → Attached → Bool
has_volume volume file attached =
    any (λ v. v.name == volume && gives file v.source) attached.volumes

abbrev pub has_file : (volume directory file : String) → Attached → Bool
has_file volume directory file attached =
    has_mount volume directory attached && has_volume volume file attached

module _ (volume directory file : String) where
  -- No such file is among what is attached.
  abbrev pub IsAbsent : Attached → Type 0
  IsAbsent a = (has_mount volume directory a ≡ false) × (has_volume volume file a ≡ false)

  IsAbsent-join : (a b : Attached) → IsAbsent a → IsAbsent b → IsAbsent (join a b)
  IsAbsent-join a b (m, v) (n, w) = (
    any-append _ a.mounts b.mounts ∙ ground (arith, m, n),
    any-append _ a.volumes b.volumes ∙ ground (arith, v, w),
  )

  IsAbsent-env_of : (name : String) (r : Option SecretKeyRef) → IsAbsent (env_of name r)
  unfolding env_of
  IsAbsent-env_of name none = (refl, refl)
  IsAbsent-env_of name (some r) = (refl, refl)

  module _ (h : ("storage-credentials" == volume) ≡ false) where
    IsAbsent-file : (name : String) (r : Option SecretKeyRef) → IsAbsent (credentials_file name r)
    unfolding credentials_file credentials_file_volume
    IsAbsent-file name none = (refl, refl)
    IsAbsent-file name (some r) = (ground (arith, h), ground (arith, h))

    IsAbsent-s3 : (o : Option S3StorageSpec) → IsAbsent (s3_credentials o)
    unfolding s3_credentials
    IsAbsent-s3 none = (refl, refl)
    IsAbsent-s3 (some s) =
        let key = env_of "AWS_ACCESS_KEY_ID" s.access_key_secret in
        let access = env_of "AWS_SECRET_ACCESS_KEY" s.secret_key_secret in
        let shared = credentials_file "AWS_SHARED_CREDENTIALS_FILE" s.credentials_secret in
        IsAbsent-join key (join access shared)
          (IsAbsent-env_of "AWS_ACCESS_KEY_ID" s.access_key_secret)
          (IsAbsent-join access shared (IsAbsent-env_of "AWS_SECRET_ACCESS_KEY" s.secret_key_secret)
            (IsAbsent-file "AWS_SHARED_CREDENTIALS_FILE" s.credentials_secret))

    IsAbsent-azure : (o : Option AzureStorageSpec) → IsAbsent (azure_credentials o)
    unfolding azure_credentials
    IsAbsent-azure none = (refl, refl)
    IsAbsent-azure (some s) =
        let given = or_else s.account_key_secret s.credentials_secret in
        let key = env_of "AZURE_STORAGE_KEY" given in
        let token = env_of "AZURE_STORAGE_SAS_TOKEN" s.sas_token_secret in
        let client = env_of "AZURE_CLIENT_SECRET" s.client_secret_secret in
        IsAbsent-join key (join token client) (IsAbsent-env_of "AZURE_STORAGE_KEY" given) (
          IsAbsent-join token client (IsAbsent-env_of "AZURE_STORAGE_SAS_TOKEN" s.sas_token_secret)
            (IsAbsent-env_of "AZURE_CLIENT_SECRET" s.client_secret_secret))

    IsAbsent-gcs : (o : Option GcsStorageSpec) → IsAbsent (gcs_credentials o)
    unfolding gcs_credentials
    IsAbsent-gcs none = (refl, refl)
    IsAbsent-gcs (some g) = IsAbsent-file "GOOGLE_APPLICATION_CREDENTIALS" g.credentials_secret

    pub IsAbsent-storage :
        (storage : StorageSpec) (kind : StorageType)
        → IsAbsent (storage_credentials (record storage { storage_type = kind }))
    unfolding storage_credentials
    IsAbsent-storage storage s3 = IsAbsent-s3 storage.s3
    IsAbsent-storage storage azure = IsAbsent-azure storage.azure
    IsAbsent-storage storage gcs = IsAbsent-gcs storage.gcs
    IsAbsent-storage storage filesystem = (refl, refl)

    -- Of what is attached, only the parts for the cluster can have the file.
    pub file-whole :
        (config_map_name : String) (a b c : Attached)
        → ("config" == volume) ≡ false
        → IsAbsent c
        → has_file volume directory file
            (join (mounted "config" (config_map config_map_name) "/config") (join a (join b c)))
          ≡ has_file volume directory file (join a b)
    file-whole config_map_name a b c k (m, v) = simp any-append (ground (arith, k, m, v))
